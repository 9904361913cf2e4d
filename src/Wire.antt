-- ===== src/Wire.antt =====
-- A connection as the programs use it: what `recv` returns, the loops that read a given number of
-- bytes, and the eight bytes of an `unsigned long`. The operating system may deliver the bytes in
-- any portions: the schedule `cuts` says how many bytes each call of `recv` returns at most, less
-- one, so every call returns at least one byte while there is one. A schedule that has run out leaves
-- no call short.
pub mod Exact
pub mod Length
mod Tests
use networks_dartsync.Base.{
  ℕ, zero, suc, ◌+◌, ◌-◌, ◌*◌, ◌/◌, ◌%◌, List, [], ◌∷◌, ◌++◌, Bool, true, false, ◌==◌,
  if◌then◌else◌, length, take, drop, min,
}
use networks_dartsync.Base.Bytes.{Bytes}

-- What happens behind the last byte: the peer has closed the connection (`recv` returns 0), the
-- connection is broken (it returns -1), or the peer sends nothing and does not close (it blocks).
pub data Ending : Type 0 where
  closed : Ending
  broken : Ending
  silent : Ending

pub record Socket : Type 0 where
  pub bytes : Bytes
  pub cuts : List ℕ
  pub ending : Ending

pub data Recv : Type 0 where
  received : Bytes → Socket → Recv
  ended : Ending → Recv

abbrev pub next_cut : List ℕ → ℕ
next_cut [] = 2147483648
next_cut (c ∷ cuts) = suc c

abbrev pub rest_cuts : List ℕ → List ℕ
rest_cuts [] = []
rest_cuts (c ∷ cuts) = cuts

-- `recv(socket, buffer, want, 0)`
unfoldable pub recv : ℕ → Socket → Recv
recv want s =
    let k = min want (min (next_cut s.cuts) (length s.bytes)) in
    if length s.bytes == 0
    then ended s.ending
    else received (take k s.bytes) (record s { bytes = drop k s.bytes; cuts = rest_cuts s.cuts })

-- `got` is the data and the connection behind it; `exhausted` means that the fuel ran out.
pub data Reading : Type 0 where
  got : Bytes → Socket → Reading
  lost : Ending → Reading
  exhausted : Reading

-- `while (buflen < want) { if ((len = recv(…)) <= 0) …; buflen += len; }`, with `acc` what has been
-- read and `want` what is still missing.
unfoldable pub recv_loop : ℕ → ℕ → Bytes → Socket → Reading
recv_loop zero want acc s = if want == 0 then got acc s else exhausted
recv_loop (suc fuel) want acc s = elim (want == 0) [
  | true ↦ got acc s
  | false ↦ elim (recv want s) [
    | received part s' ↦ recv_loop fuel (want - length part) (acc ++ part) s'
    | ended e ↦ lost e
  ]
]

-- Each round reads a byte at least, so `want` rounds are enough.
unfoldable pub recv_exact : ℕ → Socket → Reading
recv_exact want s = recv_loop want want [] s

-- An unsigned number in k bytes, the low byte first.
unfoldable pub to_bytes : ℕ → ℕ → Bytes
to_bytes zero n = []
to_bytes (suc k) n = (n % 256) ∷ to_bytes k (n / 256)

unfoldable pub from_bytes : Bytes → ℕ
from_bytes [] = 0
from_bytes (b ∷ s) = b + 256 * from_bytes s
