-- ===== src/Pieces.antt =====
-- How `download_file_multi_thread` (utils/peer2peer.c) cuts a file into pieces, one for each peer.
pub mod Tiling
mod Tests
use networks_dartsync.Base.{
  ℕ, zero, suc, ◌+◌, ◌-◌, ◌*◌, ◌/◌, ◌%◌, ◌^◌, List, [], ◌∷◌, take, drop, map, flatten,
}
use networks_dartsync.Base.Bytes.{Bytes}

pub record Piece : Type 0 where
  pub start : ℕ
  pub len : ℕ

-- `(int) ((long) fileLen * (long) i / (long) num)`, with a `long` of 64 bits. The casts keep the
-- low bits; the sizes and counts are not negative.
unfoldable pub offset : ℕ → ℕ → ℕ → ℕ
offset file_len num i = file_len * i % 2 ^ 64 / num % 2 ^ 32

unfoldable pub piece : ℕ → ℕ → ℕ → Piece
piece file_len num i =
    let start = offset file_len num i in
    let next = offset file_len num (i + 1) in record { start = start; len = next - start }

-- The pieces from the i-th on, as many as the first argument says.
unfoldable pub pieces_from : ℕ → ℕ → ℕ → ℕ → List Piece
pieces_from zero file_len num i = []
pieces_from (suc k) file_len num i = piece file_len num i ∷ pieces_from k file_len num (i + 1)

unfoldable pub pieces : ℕ → ℕ → List Piece
pieces file_len num = pieces_from num file_len num 0

-- The bytes of a file that a piece stands for.
abbrev pub slice : Piece → Bytes → Bytes
slice p file = take p.len (drop p.start file)
