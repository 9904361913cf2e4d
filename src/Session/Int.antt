-- ===== src/Session/Int.antt =====
-- An int at the front of a connection, and a table.
use networks_dartsync.Base.{
  ℕ, ◌-◌, ◌≤◌, ◌<◌, ◌≡◌, refl, sym, ap, ◌∙◌, ◌++◌, some, arith, length, take, drop, length-append,
  set, take_all, take-length_append, drop-length_append,
}
use networks_dartsync.Base.Bytes.{Bytes}
use networks_dartsync.FileTable.{FileTable}
use networks_dartsync.Wire.{Socket, received, recv, rest_cuts, next_cut, to_bytes}
use networks_dartsync.Wire.Length.{length-to_bytes}
use networks_dartsync.Wire.Exact.{recv-at_once, IsPrompt, next_cut-le, rest_cuts-All}
use networks_dartsync.TableMessage.{int_size, send_file_table, table, recv_file_table}
use networks_dartsync.TableMessage.Receiving.{IsSendable, recv_file_table-whole}

-- The connection goes on with `rest`.
pub record GoesOn (rest : Bytes) (s s' : Socket) : Type 0 where
  pub bytes : s'.bytes ≡ rest
  pub ending : s'.ending ≡ s.ending
  pub prompt : IsPrompt s'

-- What is asked for is at the front, and is delivered by one call.
pub recv-front :
    (x rest : Bytes) (s : Socket)
    → 0 < length x
    → length x ≤ next_cut s.cuts
    → s.bytes ≡ x ++ rest
    → recv (length x) s ≡ received x (record s { bytes = rest; cuts = rest_cuts s.cuts })
recv-front x rest s some_wanted one e =
    let there : length x ≤ length s.bytes = omega (arith, ap length e, length-append x rest) in
    let first : take (length x) s.bytes ≡ x = ap (take (length x)) e ∙ take-length_append x rest in
    let left : drop (length x) s.bytes ≡ rest =
      ap (drop (length x)) e ∙ drop-length_append x rest in
    recv-at_once (length x) s some_wanted one there
    ∙ ap (λ c. received c (record s { bytes = drop (length x) s.bytes; cuts = rest_cuts s.cuts }))
        first
    ∙ ap (λ b. received x (record s { bytes = b; cuts = rest_cuts s.cuts })) left

pub recv-int :
    (n : ℕ) (rest : Bytes) (s : Socket)
    → IsPrompt s
    → s.bytes ≡ to_bytes int_size n ++ rest
    → (s' : Socket) × (recv int_size s ≡ received (to_bytes int_size n) s') × GoesOn rest s s'
recv-int n rest s p e =
    let x = to_bytes int_size n in
    let l : length x ≡ int_size = length-to_bytes int_size n in
    (
      record s { bytes = rest; cuts = rest_cuts s.cuts },
      ap (λ (k : ℕ). recv k s) (sym l)
          ∙ recv-front x rest s (omega (arith, l)) (omega (arith, l, next_cut-le s p)) e,
      record { bytes = refl; ending = refl; prompt = rest_cuts-All s.cuts p },
    )

-- All of `x` arrives.
pub as_take : (x : Bytes) (s : Socket) → s.bytes ≡ x → s.bytes ≡ take (length x) x
as_take x s e = e ∙ sym (take_all (length x) x (omega arith))

pub recv-table :
    (ip : ℕ) (t : FileTable) (rest : Bytes) (s : Socket)
    → IsSendable t
    → IsPrompt s
    → s.bytes ≡ send_file_table t ++ rest
    → (s' : Socket) × (recv_file_table ip s
        ≡ table (some (record t { head = record (t.head) { peers = set t.head.peers 0 ip } })) s')
      × GoesOn rest s s'
recv-table ip t rest s v p e =
    let sum = length-append (send_file_table t) rest in
    let n = length (send_file_table t ++ rest) in
    let (s', read, left, same, keeps) =
      recv_file_table-whole t v rest n s (as_take (send_file_table t ++ rest) s e) (next_cut-le s p)
        ip (omega (arith, sum)) in
    (
      s',
      read,
      record {
        bytes = left ∙ take_all (n - length (send_file_table t)) rest (omega (arith, sum));
        ending = same;
        prompt = keeps p;
      },
    )
