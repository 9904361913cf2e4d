-- ===== src/Assembly.antt =====
-- How `download_file_multi_thread` (utils/peer2peer.c) ends a download: the pass that looks for
-- temporary files that are too short, the table `peer_flag`, and the loop that puts the temporary
-- files together. A temporary file is found by the start and the length of its piece, which its
-- name spells; name and time stamp are the same for all pieces of a download.
pub mod Flags
pub mod Whole
pub mod Download
pub mod Resume
pub mod Names
pub mod Begin
pub mod Mtime
mod Tests
use networks_dartsync.Base.{
  ℕ, zero, suc, ◌+◌, List, [], ◌∷◌, ◌++◌, Bool, true, false, ◌&&◌, Option, none, some, ltb, ◌==◌,
  if◌then◌else◌, set, length, take, drop,
}
use networks_dartsync.Base.Bytes.{Bytes}
use networks_dartsync.Pieces.{Piece}
use networks_dartsync.Transfer.{buffer_size}

-- The temporary files of a download.
abbrev pub Temps : Type 0
Temps = Piece → Option Bytes

-- `get_file_size`: 0 for a file that does not exist.
abbrev pub get_file_size : Option Bytes → ℕ
get_file_size none = 0
get_file_size (some s) = length s

-- The pieces for which the pass starts another thread. There are none exactly if `mark` stays 0.
unfoldable pub unfinished : Temps → List Piece → List Piece
unfinished temps [] = []
unfinished temps (p ∷ ps) =
    let rest = unfinished temps ps in if ltb (get_file_size (temps p)) p.len then p ∷ rest else rest

-- `while ((buflen = fread(buffer, 1, BUFFER_SIZE, fp_tmpt)) > 0) fwrite(buffer, 1, buflen, fp);`
unfoldable pub copy_loop : ℕ → Bytes → Bytes → Bytes
copy_loop zero s out = out
copy_loop (suc fuel) s out = elim (length (take buffer_size s) == 0) [
  | true ↦ out
  | false ↦ copy_loop fuel (drop buffer_size s) (out ++ take buffer_size s)
]

abbrev pub same_piece : Piece → Piece → Bool
same_piece p q = p.start == q.start && p.len == q.len

-- `rm` of the temporary file.
unfoldable pub remove : Piece → Temps → Temps
remove p temps = λ q. if same_piece p q then none else temps q

-- What has been written, and the temporary files that are left.
pub record Merged : Type 0 where
  pub written : Bytes
  pub temps : Temps

-- The merge loop. A round of the copy reads a byte at least.
unfoldable pub merge_temps : Temps → List Piece → Bytes → Merged
merge_temps temps [] out = record { written = out; temps = temps }
merge_temps temps (p ∷ ps) out = elim (temps p) [
  | none ↦ merge_temps temps ps out
  | some s ↦ merge_temps (remove p temps) ps (copy_loop (suc (length s)) s out)
]

-- The first free peer among `n`.
unfoldable pub get_available_peer_idx : ℕ → List ℕ → Option ℕ
get_available_peer_idx zero flags = none
get_available_peer_idx (suc n) [] = none
get_available_peer_idx (suc n) (f ∷ flags) =
    let rest = get_available_peer_idx n flags in
    if f == 0 then some 0 else (elim rest [ none ↦ none | some i ↦ some (suc i) ])

-- Despite its name: whether no flag is 1.
unfoldable pub is_all_zero : ℕ → List ℕ → Bool
is_all_zero zero flags = true
is_all_zero (suc n) [] = true
is_all_zero (suc n) (f ∷ flags) = let rest = is_all_zero n flags in if f == 1 then false else rest

-- A thread ends: it sets its flag to 0 or to 2.
pub record ThreadEnd : Type 0 where
  pub idx : ℕ
  pub flag : ℕ

-- The loop that waits for a free peer, a round for each end of a thread that happens. There is no
-- result if no further thread ends and no peer is free: the loop never ends.
unfoldable pub wait_for_peer : ℕ → List ThreadEnd → List ℕ → Option ℕ
wait_for_peer n [] flags = get_available_peer_idx n flags
wait_for_peer n (e ∷ ends) flags = elim (get_available_peer_idx n flags) [
  | some i ↦ some i
  | none ↦ wait_for_peer n ends (set flags e.idx e.flag)
]
