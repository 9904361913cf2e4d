-- ===== src/Session/Race.antt =====
-- `heartbeat` and `file_checker` share the connection without a lock. A heartbeat that is sent
-- between the signal of an update and the table is taken for the count of records.
use networks_dartsync.Base.{
  ℕ, zero, suc, ◌≤◌, ◌<◌, ◌≡◌, refl, ap, ◌∙◌, List, [], ◌∷◌, ◌++◌, Option, none, some, arith,
  length, length-set, length-append, set, take, drop, if◌then◌else◌,
}
use networks_dartsync.Base.Bytes.{Bytes}
use networks_dartsync.FileTable.{FileNode, FileTable, max_peers}
use networks_dartsync.FileTable.Peers.{has, holders}
use networks_dartsync.FileTable.Sync.View.{Entry, view, find, find_view, synced}
use networks_dartsync.Wire.{Socket, to_bytes, from_bytes}
use networks_dartsync.Wire.Length.{length-to_bytes, from_bytes-to_bytes}
use networks_dartsync.Wire.Exact.{IsPrompt, recv_exact-Delivered}
use networks_dartsync.TableMessage.{
  int_size, record_size, name_room, words, encode_node, encode_nodes, decode_node, send_file_table,
  records, recv_records, table, signed_count, recv_file_table,
}
use networks_dartsync.TableMessage.Layout.{length-encode_node}
use networks_dartsync.TableMessage.Receiving.{IsSendable}
use networks_dartsync.Tracker.{
  Tracker, file_update, from_sender, broadcast_file_table, handle_signal,
}
use networks_dartsync.Tracker.Holders.{Sound}
use networks_dartsync.Tracker.Reachable.{file_update-Takeover}
use networks_dartsync.Session.{
  signal_heartbeat, signal_file_update, send_one, heartbeat, message, update, of_outcome, dispatch,
  read_message,
}
use networks_dartsync.Session.Int.{recv-int}
use networks_dartsync.Session.RoundTrip.{read_message-dispatch}

length-words : (n : ℕ) (s : Bytes) → length (words n s) ≡ n
unfolding words
length-words zero s = refl
length-words (suc n) s = ap suc (length-words n (drop int_size s))

-- The table that is read: one record, made of the count and the front of the first record.
abbrev pub torn : ℕ → Bytes → FileTable
torn ip s =
    let first = decode_node (take record_size s) in
    record { head = record first { peers = set first.peers 0 ip }; nodes = [] }

recv_file_table-torn :
    (ip : ℕ) (x : Bytes) (s : Socket)
    → IsPrompt s
    → record_size ≤ length x
    → s.bytes ≡ to_bytes int_size signal_heartbeat ++ x
    → (s' : Socket) × (recv_file_table ip s ≡ table (some (torn ip x)) s')
unfolding recv_file_table recv_records
recv_file_table-torn ip x s p long e =
    let (s1, read, goes) = recv-int signal_heartbeat x s p e in
    let d = recv_exact-Delivered record_size s1 (omega (arith, ap length goes.bytes, long)) in
    let data_read : take record_size s1.bytes ≡ take record_size x =
      ap (take record_size) goes.bytes in
    let one : signed_count (from_bytes (to_bytes int_size signal_heartbeat)) ≡ 1 =
      ap signed_count (from_bytes-to_bytes int_size signal_heartbeat (omega arith)) in
    let got_it : recv_records 1 s1 ≡ records (decode_node (take record_size x) ∷ []) d.after =
      rw (recv_records, d.result, data_read) refl in
    (
      d.after,
      rw (recv_file_table, read, length-to_bytes int_size signal_heartbeat, one, got_it) refl,
    )

-- The effect on the tracker's table: under each name the entry without the client, or none.
abbrev pub dropped : ℕ → Option FileNode → Option Entry
dropped ip none = none
dropped ip (some f) = if has ip (holders f) then none else some (view f)

torn-dropped :
    (ip : ℕ) (ips : List ℕ) (x : Bytes) (t : Tracker)
    → Sound ips t
    → (after : FileTable) × (handle_signal ip (file_update (some (torn ip x))) t
        ≡ some (record t { files = after; sent = broadcast_file_table t.peers after t.sent }))
      × ((name : Bytes) → find_view name after.nodes ≡ dropped ip (find name t.files.nodes))
unfolding synced find from_sender decode_node
torn-dropped ip ips x t v =
    let room : 0 < length (torn ip x).head.peers = omega (
      arith,
      length-set (decode_node (take record_size x)).peers 0 ip,
      length-words max_peers (
          drop int_size
            (drop int_size (drop int_size (drop name_room (drop int_size (take record_size x)))))),
    ) in
    let (after, done, took) =
      file_update-Takeover ip ips (torn ip x) t (record { one_peer = tt; unique = tt }) room v in
    (after, done, λ name. took.entries name ∙ alone (find name t.files.nodes))
  where
    alone : (o : Option FileNode) → synced ip none o ≡ dropped ip o
    alone none = refl
    alone (some f) = refl

-- A heartbeat between the signal of an update and its table makes the tracker read a table without
-- files, if the table keeps its layout and every call of `recv` delivers an int at least: whatever the
-- table lists, a tracker whose own table is sound drops every file that the client holds, and sends
-- the table without them to every peer.
pub update-torn :
    (ip : ℕ) (ips : List ℕ) (t : FileTable) (rest : Bytes) (s : Socket) (tracker : Tracker)
    → IsSendable t
    → IsPrompt s
    → s.bytes
      ≡ to_bytes int_size signal_file_update ++ (send_one heartbeat ++ (send_file_table t ++ rest))
    → Sound ips tracker
    → (read_table after : FileTable) × (s' : Socket) × (read_message ip s
        ≡ message (update (some read_table)) s')
      × (handle_signal ip (file_update (some read_table)) tracker
          ≡ some (record tracker {
            files = after;
            sent = broadcast_file_table tracker.peers after tracker.sent;
          }))
      × ((name : Bytes) → find_view name after.nodes ≡ dropped ip (find name tracker.files.nodes))
unfolding send_one send_file_table dispatch
update-torn ip ips t rest s tracker v p e sound =
    let x = send_file_table t ++ rest in
    let long : record_size ≤ length x = omega (
      arith,
      length-append (send_file_table t) rest,
      length-append (to_bytes int_size (suc (length t.nodes)))
          (encode_node t.head ++ encode_nodes t.nodes),
      length-append (encode_node t.head) (encode_nodes t.nodes),
      length-encode_node t.head v.head,
    ) in
    let (s1, read, goes) =
      read_message-dispatch ip signal_file_update (to_bytes int_size signal_heartbeat ++ x) s
        (omega arith) p e in
    let (s2, got_it) = recv_file_table-torn ip x s1 goes.prompt long goes.bytes in
    let (after, done, entries) = torn-dropped ip ips x tracker sound in
    (torn ip x, after, s2, read ∙ ap of_outcome got_it, done, entries)
