-- ===== src/TableMessage/Receiving.antt =====
-- What `recv_file_table` makes of a table that `send_file_table` has sent, whole or cut off.
use networks_dartsync.Base.{
  ℕ, suc, ◌+◌, ◌-◌, ◌^◌, ◌≤◌, ◌<◌, ◌≡◌, refl, sym, ap, ◌∙◌, List, [], ◌∷◌, ◌++◌, some, arith,
  length, take, drop, All, length-append, set, append_assoc, drop-take, drop-length_append,
  take-length_append, take-take, length-take, dec_lt,
}
use networks_dartsync.Base.Bytes.{Bytes}
use networks_dartsync.FileTable.{FileNode, FileTable}
use networks_dartsync.Wire.{
  Socket, received, recv, next_cut, rest_cuts, got, lost, recv_exact, to_bytes, from_bytes,
}
use networks_dartsync.Wire.Length.{length-to_bytes, from_bytes-to_bytes}
use networks_dartsync.Wire.Exact.{
  recv_exact-cut, recv_exact-front, recv-at_once, IsPrompt, rest_cuts-All,
}
use networks_dartsync.TableMessage.{
  int_size, record_size, encode_node, encode_nodes, send_file_table, records, cut_off, recv_records,
  table, on_cut, outcome, signed_count, recv_file_table,
}
use networks_dartsync.TableMessage.Layout.{IsRecord, length-encode_node, decode_node-encode_node}

-- The first record of those on the connection.
front :
    (c : FileNode) (nodes : List FileNode) (rest : Bytes) (n : ℕ) (s : Socket)
    → s.bytes ≡ take n (encode_nodes (c ∷ nodes) ++ rest)
    → s.bytes ≡ take n (encode_node c ++ (encode_nodes nodes ++ rest))
unfolding encode_nodes
front c nodes rest n s e = e ∙ ap (take n) (append_assoc (encode_node c) (encode_nodes nodes) rest)

-- The records arrive, with whatever follows them.
recv_records-whole :
    (nodes : List FileNode) (rest : Bytes) (n : ℕ) (s : Socket)
    → All IsRecord nodes
    → s.bytes ≡ take n (encode_nodes nodes ++ rest)
    → length (encode_nodes nodes) ≤ n
    → (s' : Socket) × (recv_records (length nodes) s ≡ records nodes s')
      × (s'.bytes ≡ take (n - length (encode_nodes nodes)) rest)
      × (s'.ending ≡ s.ending)
      × (IsPrompt s → IsPrompt s')
unfolding recv_records encode_nodes
recv_records-whole [] rest n s v e h =
    let z : n ≡ n - 0 = omega arith in (s, refl, e ∙ ap (λ (k : ℕ). take k rest) z, refl, λ p. p)
recv_records-whole (c ∷ nodes) rest n s (w, v) e h =
    let l = length-encode_node c w in
    let sum = length-append (encode_node c) (encode_nodes nodes) in
    let (s', read, left, same, keeps) =
      recv_exact-front (encode_node c) (encode_nodes nodes ++ rest) n s (front c nodes rest n s e)
        (omega (arith, sum)) in
    let read' : recv_exact record_size s ≡ got (encode_node c) s' =
      ap (λ (k : ℕ). recv_exact k s) (sym l) ∙ read in
    let (s2, tail, left2, same2, keeps2) =
      recv_records-whole nodes rest (n - length (encode_node c)) s' v left (omega (arith, sum)) in
    let z : n - length (encode_node c) - length (encode_nodes nodes)
        ≡ n - length (encode_node c ++ encode_nodes nodes) =
      omega (arith, sum) in
    (
      s2,
      rw (recv_records, read', tail, decode_node-encode_node c w) refl,
      left2 ∙ ap (λ (k : ℕ). take k rest) z,
      same2 ∙ same,
      λ p. keeps2 (keeps p),
    )

recv_records-cut :
    (nodes : List FileNode) (rest : Bytes) (n : ℕ) (s : Socket)
    → All IsRecord nodes
    → s.bytes ≡ take n (encode_nodes nodes ++ rest)
    → n < length (encode_nodes nodes)
    → recv_records (length nodes) s ≡ cut_off s.ending
unfolding recv_records encode_nodes
recv_records-cut [] rest n s v e h = absurd (omega arith)
recv_records-cut (c ∷ nodes) rest n s (w, v) e h =
    let l = length-encode_node c w in
    let sum = length-append (encode_node c) (encode_nodes nodes) in
    elim (dec_lt n (length (encode_node c))) [
      | yes within ↦
          let cut =
            recv_exact-cut (encode_node c) (encode_nodes nodes ++ rest) n s
              (front c nodes rest n s e) within in
          let cut' : recv_exact record_size s ≡ lost s.ending =
            ap (λ (k : ℕ). recv_exact k s) (sym l) ∙ cut in
          rw (recv_records, cut') refl
      | no behind ↦
          let (s', read, left, same, keeps) =
            recv_exact-front (encode_node c) (encode_nodes nodes ++ rest) n s
              (front c nodes rest n s e) (omega arith) in
          let read' : recv_exact record_size s ≡ got (encode_node c) s' =
            ap (λ (k : ℕ). recv_exact k s) (sym l) ∙ read in
          let tail =
            recv_records-cut nodes rest (n - length (encode_node c)) s' v left
              (omega (arith, sum)) in
          rw (recv_records, read', tail, same) refl
    ]

-- A table whose records keep their layout, and whose count is a positive int.
pub record IsSendable (t : FileTable) : Type 0 where
  pub head : IsRecord t.head
  pub nodes : All IsRecord t.nodes
  pub count : suc (length t.nodes) < 2 ^ 31

-- The count is read at once, and the records are left.
module _ (t : FileTable) (v : IsSendable t) (rest : Bytes) (n : ℕ) (s : Socket)
    (arrives : s.bytes ≡ take n (send_file_table t ++ rest))
    (at_once : int_size ≤ next_cut s.cuts) where
  count : Bytes
  count = to_bytes int_size (suc (length t.nodes))

  body : Bytes
  body = encode_nodes (t.head ∷ t.nodes)

  after : Socket
  after = record s { bytes = drop int_size s.bytes; cuts = rest_cuts s.cuts }

  arrives' : s.bytes ≡ take n (count ++ (body ++ rest))
  unfolding send_file_table count body encode_nodes
  arrives' = arrives ∙ ap (take n) (append_assoc count body rest)

  length-count : length count ≡ int_size
  unfolding count
  length-count = length-to_bytes int_size (suc (length t.nodes))

  count_read : int_size ≤ n → recv int_size s ≡ received count after
  unfolding after
  count_read h =
      let l : int_size ≤ length s.bytes = omega (
        arith,
        ap length arrives',
        length-take n (count ++ (body ++ rest)),
        length-append count (body ++ rest),
        length-count,
      ) in
      let first : take int_size s.bytes ≡ count =
        ap (take int_size) arrives'
        ∙ take-take int_size n (count ++ (body ++ rest)) h
        ∙ ap (λ (k : ℕ). take k (count ++ (body ++ rest))) (sym length-count)
        ∙ take-length_append count (body ++ rest) in
      recv-at_once int_size s (omega arith) at_once l
      ∙ ap (λ c. received c (record s { bytes = drop int_size s.bytes; cuts = rest_cuts s.cuts }))
          first

  body_left : int_size ≤ n → after.bytes ≡ take (n - int_size) (body ++ rest)
  unfolding after
  body_left h =
      ap (drop int_size) arrives'
      ∙ drop-take int_size n (count ++ (body ++ rest))
      ∙ ap (take (n - int_size)) (
          ap (λ (k : ℕ). drop k (count ++ (body ++ rest))) (sym length-count)
          ∙ drop-length_append count (body ++ rest))

  counted : signed_count (from_bytes count) ≡ suc (length t.nodes)
  unfolding count
  counted =
      let small = v.count in
      let e : from_bytes (to_bytes int_size (suc (length t.nodes))) ≡ suc (length t.nodes) =
        from_bytes-to_bytes int_size (suc (length t.nodes)) (omega arith) in
      ap signed_count e ∙ unsigned (suc (length t.nodes)) small
    where
      unsigned : (k : ℕ) → k < 2 ^ 31 → signed_count k ≡ k
      unsigned k h = ground arith

  after_count :
      (ip : ℕ)
      → int_size ≤ n
      → recv_file_table ip s ≡ outcome ip (recv_records (suc (length t.nodes)) after)
  unfolding recv_file_table
  after_count ip h = rw (recv_file_table, count_read h, length-count, counted) refl

  length-sent : length (send_file_table t) ≡ int_size + length body
  unfolding send_file_table body count encode_nodes
  length-sent = omega (arith, length-append count body, length-count)

  -- A table that was sent, and arrives in whatever portions after a count that arrives at once, is
  -- read back, with the sender's address in the first node; what follows it is left on the connection.
  pub recv_file_table-whole :
      (ip : ℕ)
      → length (send_file_table t) ≤ n
      → (s' : Socket) × (recv_file_table ip s
          ≡ table (some (record t { head = record (t.head) { peers = set t.head.peers 0 ip } })) s')
        × (s'.bytes ≡ take (n - length (send_file_table t)) rest)
        × (s'.ending ≡ s.ending)
        × (IsPrompt s → IsPrompt s')
  unfolding body after
  recv_file_table-whole ip h =
      let l = length-sent in
      let (s', read, left, same, keeps) =
        recv_records-whole (t.head ∷ t.nodes) rest (n - int_size) after (v.head, v.nodes)
          (body_left (omega arith)) (omega arith) in
      let z : n - int_size - length body ≡ n - length (send_file_table t) = omega arith in
      (
        s',
        after_count ip (omega arith) ∙ ap (outcome ip) read,
        left ∙ ap (λ (k : ℕ). take k rest) z,
        same,
        λ p. keeps (rest_cuts-All s.cuts p),
      )

  -- If the connection ends within the records, what happens depends on how it ends: where the peer
  -- has closed it, the loop never ends.
  pub recv_file_table-cut :
      (ip : ℕ)
      → int_size ≤ n
      → n < length (send_file_table t)
      → recv_file_table ip s ≡ on_cut s.ending
  unfolding body after
  recv_file_table-cut ip h short =
      let l = length-sent in
      let read =
        recv_records-cut (t.head ∷ t.nodes) rest (n - int_size) after (v.head, v.nodes)
          (body_left h) (omega arith) in
      after_count ip h ∙ ap (outcome ip) read
