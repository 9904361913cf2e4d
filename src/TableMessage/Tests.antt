-- ===== src/TableMessage/Tests.antt =====
-- A small table on the way.
use networks_dartsync.Base.{
  ℕ, ◌≡◌, refl, ◌++◌, [], ◌∷◌, ◌-◌, some, take, drop, ◌≤◌, ◌<◌, ◌⊎◌, replicate, set, arith, length,
}
use networks_dartsync.Wire.Exact.{IsPrompt}
use networks_dartsync.Wire.{to_bytes, recv, Socket, closed, broken, silent, Ending}
use networks_dartsync.TableMessage.{
  send_file_table, recv_file_table, encode_node, encode_nodes, words_of, table,
}
use networks_dartsync.TableMessage.Sample.{row, sent_table, sent_table-IsSendable}
use networks_dartsync.TableMessage.Receiving.{recv_file_table-whole}
use networks_dartsync.TableMessage.Looping.{
  filled, null, waits, still, read_record, read_record-Ends,
}

-- The first bytes of the message, the count in one portion and the rest in portions of 100, with
-- what follows.
abbrev line : ℕ → Ending → Socket
line n ending = record {
  bytes = take n (send_file_table sent_table ++ (1 ∷ []));
  cuts = 3 ∷ replicate 22 99;
  ending = ending;
}

-- Three bytes in portions, and then the end.
abbrev cut_short : Socket
cut_short = record { bytes = 1 ∷ 2 ∷ 3 ∷ []; cuts = 0 ∷ 1 ∷ 0 ∷ []; ending = closed }

message_length : length (send_file_table sent_table) ≡ 2148
unfolding send_file_table encode_node encode_nodes words_of to_bytes
message_length = refl

recv_file_table-whole_example :
    (s' : Socket) × (recv_file_table 9 (line 2149 silent)
      ≡ table
          (some (record sent_table {
            head = record (row [] 0) { peers = set (7 ∷ replicate 199 0) 0 9 };
          }))
          s')
    × (s'.bytes ≡ take (2149 - length (send_file_table sent_table)) (1 ∷ []))
    × (s'.ending ≡ silent)
    × (IsPrompt (line 2149 silent) → IsPrompt s')
recv_file_table-whole_example =
    recv_file_table-whole sent_table sent_table-IsSendable (1 ∷ []) 2149 (line 2149 silent) refl
      (omega arith) 9 (omega (arith, message_length))

-- The peer closes within a record: the loop never ends.
read_record-Ends_example :
    ((5 ≤ length cut_short.bytes)
      × (s' : Socket) × (read_record 9 5 [] cut_short ≡ filled (take 5 cut_short.bytes) s')
      × (s'.bytes ≡ drop 5 cut_short.bytes))
    ⊎ ((length cut_short.bytes < 5)
        × (((cut_short.ending ≡ closed) × (read_record 9 5 [] cut_short ≡ still))
            ⊎ (((cut_short.ending ≡ broken) × (read_record 9 5 [] cut_short ≡ null))
                ⊎ ((cut_short.ending ≡ silent) × (read_record 9 5 [] cut_short ≡ waits)))))
read_record-Ends_example = read_record-Ends 9 5 cut_short (omega arith)

record_runs :
    (read_record 9 3 [] cut_short
      ≡ filled (1 ∷ 2 ∷ 3 ∷ []) (record cut_short { bytes = []; cuts = 0 ∷ [] }))
    × (read_record 9 5 [] cut_short ≡ still)
    × (read_record 9 5 [] (record cut_short { ending = broken }) ≡ null)
unfolding read_record recv
record_runs = (refl, refl, refl)
