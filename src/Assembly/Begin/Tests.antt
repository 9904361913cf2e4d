-- ===== src/Assembly/Begin/Tests.antt =====
-- A download of five bytes from two peers goes on with one temporary file of two.
use networks_dartsync.Base.{
  ◌≡◌, refl, [], ◌∷◌, ◌++◌, none, some, true, arith, Option, map, ◌==◌, inl, inr, replicate, ◌&&◌,
  if◌then◌else◌, Bool-cases,
}
use networks_dartsync.Base.Bytes.{Bytes, codes, bytes_eq}
use networks_dartsync.Compression.Stored.{compress_stream-stored, stored, stored-IsLawful}
use networks_dartsync.FileTable.{FileNode, file_type}
use networks_dartsync.Wire.{closed}
use networks_dartsync.Pieces.{offset, piece, pieces_from, pieces}
use networks_dartsync.Transfer.Exchange.{answer}
use networks_dartsync.Assembly.{Temps, unfinished, merge_temps}
use networks_dartsync.Assembly.Download.{Thread, run_threads, AllHold}
use networks_dartsync.TempName.{
  strip_prefix, strstr, copy_to_buffer, temp_name_text, temp_file_name, parse_number,
  parse_tmpt_file_name,
}
use networks_dartsync.TempName.Decimal.{
  decimal, signed_decimal, ascii_to_signed, signed_number, skip_space, number,
}
use networks_dartsync.Assembly.Names.{tempfilename, resumed_piece, resumed_pieces}
use networks_dartsync.Assembly.Begin.{lines_from, Begun, begun, begin_download, first_round}
use networks_dartsync.Assembly.Begin.Finish.{CanBegin, begin_download-Works}

abbrev content : Bytes
content = 10 ∷ 11 ∷ 12 ∷ 13 ∷ 14 ∷ []

abbrev wanted : FileNode
wanted = record {
  size = 5;
  name = codes "d/a";
  type = file_type;
  timestamp = 9;
  num_peers = 2;
  peers = 7 ∷ 8 ∷ replicate 198 0;
}

-- One line: the other thread of the first run made no file.
abbrev listing : Option Bytes
listing = some (codes "./d/a__0__2__9~" ++ b'\n' ∷ [])

lines_run : lines_from 0 (codes "a" ++ b'\n' ∷ codes "b") ≡ 2
unfolding lines_from
lines_run = refl

abbrev temps : Temps
temps p = if p.start == 0 && p.len == 2 then some (10 ∷ 11 ∷ []) else none

temps-AllHold : AllHold content temps
temps-AllHold p within = elim (Bool-cases (p.start == 0 && p.len == 2)) [
  | inl first ↦
      let e : p ≡ record { start = 0; len = 2 } = ground arith in
      rw e (inr (10 ∷ 11 ∷ [], refl, (2, refl)))
  | inr other ↦ rw other (inl refl)
]

-- The download goes on with one piece.
abbrev thread : Thread
thread = record {
  piece = record { start = 0; len = 5 };
  socket =
      some
        (record { bytes = (answer stored content 0 5 [] 12).sent; cuts = 3 ∷ []; ending = closed });
  sends = 12;
  arrived = 99;
  opened = true;
  room = 100;
}

same_pieces :
    first_round wanted temps (begun wanted listing) ≡ some (map (λ t. t.piece) (thread ∷ []))
unfolding begun first_round lines_from unfinished pieces pieces_from piece offset resumed_pieces
    resumed_piece tempfilename temp_file_name temp_name_text copy_to_buffer decimal signed_decimal
    parse_tmpt_file_name parse_number strstr strip_prefix ascii_to_signed signed_number skip_space
    number bytes_eq
same_pieces = refl

wanted-CanBegin : CanBegin wanted listing content
wanted-CanBegin = record {
  size = refl;
  small = omega arith;
  some_peer = omega arith;
  peers = omega arith;
  readable = record { clear = refl; short = omega arith; stamp_lt = omega arith };
  listing = λ text e. ground (arith, e);
}

begin_download-Works_example :
    (b : Begun) × (begin_download wanted listing ≡ some b)
    × (unfinished (run_threads stored (thread ∷ []) temps) (pieces 5 b.num_tmpt_file) ≡ [])
    × ((merge_temps (run_threads stored (thread ∷ []) temps) (pieces 5 b.num_tmpt_file) []).written
        ≡ content)
begin_download-Works_example =
    begin_download-Works stored content wanted listing (thread ∷ []) temps stored-IsLawful
      (λ s h. compress_stream-stored s) wanted-CanBegin temps-AllHold same_pieces
      (
        record {
          within = omega arith;
          sends = omega arith;
          opened = refl;
          room = omega arith;
          connection = record {
            bytes = (answer stored content 0 5 [] 12).sent;
            cuts = 3 ∷ [];
            ending = closed;
          };
          connected = refl;
          arrives = refl;
        },
        tt,
      )
