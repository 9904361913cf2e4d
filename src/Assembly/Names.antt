-- ===== src/Assembly/Names.antt =====
-- The names of the temporary files of a download, as `download_file_multi_thread` (utils/peer2peer.c)
-- writes them and as a thread that goes on with one has them from `parse_tmpt_file_name`.
use networks_dartsync.Base.{
  ℕ, ◌^◌, ◌<◌, ◌≡◌, refl, List, [], ◌∷◌, ◌++◌, false, ◌&&◌, Option, none, some, arith, lt→ltb, ◌==◌,
  ==_refl, if◌then◌else◌, ◌>>=◌, length, length-append, All,
}
use networks_dartsync.Base.Bytes.{Bytes, bytes_eq, bytes_eq_refl}
use networks_dartsync.Base.Int.{ℤ, pos, negsuc}
use networks_dartsync.Pieces.{Piece}
use networks_dartsync.Pieces.Tiling.{int_limit}
use networks_dartsync.TempName.{
  PeerInfo, separator, tilde, name_size, temp_name_text, temp_file_name, parse_tmpt_file_name,
}
use networks_dartsync.TempName.Decimal.{decimal, signed_decimal, length-decimal-le}
use networks_dartsync.TempName.Search.{contains_separator}
use networks_dartsync.TempName.RoundTrip.{copy_to_buffer-some, parse_tmpt_file_name-temp_file_name}

abbrev pub info_of : Bytes → ℕ → Piece → PeerInfo
info_of name stamp p = record {
  file_name = name;
  file_time_stamp = stamp;
  piece_start_idx = pos p.start;
  piece_len = pos p.len;
}

-- `sprintf(tempfilename, …)`, which is undefined where the text overruns the array.
unfoldable pub tempfilename : Bytes → ℕ → Piece → Option Bytes
tempfilename name stamp p = temp_file_name (info_of name stamp p)

abbrev pub natural : ℤ → Option ℕ
natural (pos n) = some n
natural (negsuc n) = none

-- The piece that a thread works on which is started for a temporary file that is too short. There is
-- none if a buffer is overrun, or if the thread gets the name of another file, or another version.
unfoldable pub resumed_piece : Bytes → ℕ → Piece → Option Piece
resumed_piece name stamp p = do
  text ← tempfilename name stamp p
  q ← parse_tmpt_file_name text
  start ← natural q.piece_start_idx
  len ← natural q.piece_len
  if bytes_eq q.file_name name && q.file_time_stamp == stamp
      then some (record { start = start; len = len })
      else none

-- The pieces of the threads that a pass starts.
unfoldable pub resumed_pieces : Bytes → ℕ → List Piece → Option (List Piece)
resumed_pieces name stamp [] = some []
resumed_pieces name stamp (p ∷ ps) = do
  q ← resumed_piece name stamp p
  qs ← resumed_pieces name stamp ps
  some (q ∷ qs)

-- A name that is read back, with room for the numbers and for the command of `set_mtime`.
pub record IsReadable (name : Bytes) (stamp : ℕ) : Type 0 where
  pub clear : contains_separator (name ++ b'_' ∷ []) ≡ false
  pub short : length name < 125
  pub stamp_lt : stamp < 2 ^ 32

module _ (name : Bytes) (stamp : ℕ) (r : IsReadable name stamp) where
  length-text :
      (p : Piece)
      → p.start < int_limit
      → p.len < int_limit
      → length (temp_name_text (info_of name stamp p)) < name_size
  unfolding temp_name_text signed_decimal
  length-text p s l =
      let numbers = decimal stamp ++ tilde in
      let second = separator ++ numbers in
      let third = decimal p.len ++ second in
      omega (
        arith,
        r.short,
        length-append name (separator ++ (decimal p.start ++ (separator ++ third))),
        length-append (decimal p.start) (separator ++ third),
        length-append (decimal p.len) second,
        length-append (decimal stamp) tilde,
        length-decimal-le 9 p.start (omega arith),
        length-decimal-le 9 p.len (omega arith),
        length-decimal-le 9 stamp (omega (arith, r.stamp_lt)),
      )

  pub tempfilename-some :
      (p : Piece)
      → p.start < int_limit
      → p.len < int_limit
      → tempfilename name stamp p ≡ some (temp_name_text (info_of name stamp p))
  unfolding tempfilename temp_file_name
  tempfilename-some p s l =
      copy_to_buffer-some name_size (temp_name_text (info_of name stamp p)) (length-text p s l)

  -- The thread works on the piece whose temporary file is too short.
  pub resumed_piece-own :
      (p : Piece) → p.start < int_limit → p.len < int_limit → resumed_piece name stamp p ≡ some p
  unfolding resumed_piece tempfilename
  resumed_piece-own p s l =
      let info = info_of name stamp p in
      let written = tempfilename-some p s l in
      let parsed =
        parse_tmpt_file_name-temp_file_name info
          (record { start = lt→ltb _ _ s; len = lt→ltb _ _ l; stamp = r.stamp_lt }) r.clear
          written in
      rw (resumed_piece, written, parsed, bytes_eq_refl name, ==_refl stamp) refl

  pub resumed_pieces-own :
      (ps : List Piece)
      → All (λ p. (p.start < int_limit) × (p.len < int_limit)) ps
      → resumed_pieces name stamp ps ≡ some ps
  unfolding resumed_pieces
  resumed_pieces-own [] h = refl
  resumed_pieces-own (p ∷ ps) ((s, l), h) =
      rw (resumed_piece-own p s l, resumed_pieces-own ps h) refl
