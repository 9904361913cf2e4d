-- ===== src/Assembly/Download/Tests.antt =====
-- A download of five bytes from two peers: one piece breaks off and is resumed.
use networks_dartsync.Base.{ℕ, ◌≡◌, refl, List, [], ◌∷◌, some, none, true, arith, inl, Option}
use networks_dartsync.Base.Bytes.{Bytes}
use networks_dartsync.Compression.{compress_stream, decompress_stream, result}
use networks_dartsync.Compression.Stored.{stored, stored-IsLawful}
use networks_dartsync.Wire.{
  Socket, Ending, closed, silent, to_bytes, from_bytes, recv, recv_loop, recv_exact,
}
use networks_dartsync.Pieces.{offset, piece, pieces_from, pieces}
use networks_dartsync.Transfer.{
  send, read_block, upload_loop, upload_handler, download_loop, download_handler, request_for,
}
use networks_dartsync.Transfer.Exchange.{answer}
use networks_dartsync.Assembly.{Temps, unfinished, merge_temps}
use networks_dartsync.Assembly.Download.{
  Thread, temp_after, run_thread, run_threads, AllServe, merge_temps-run_threads,
}

abbrev content : Bytes
content = 10 ∷ 11 ∷ 12 ∷ 13 ∷ 14 ∷ []

abbrev line : Bytes → Ending → Option Socket
line bytes ending = some (record { bytes = bytes; cuts = []; ending = ending })

abbrev thread : ℕ → ℕ → ℕ → Option Socket → Thread
thread start len arrived socket = record {
  piece = record { start = start; len = len };
  socket = socket;
  sends = 9;
  arrived = arrived;
  opened = true;
  room = 100;
}

-- The first piece breaks off within its block, a peer is not reached, and both pieces arrive.
abbrev threads : List Thread
threads =
    thread 0 2 9 (line (3 ∷ 0 ∷ 0 ∷ 0 ∷ 0 ∷ 0 ∷ 0 ∷ 0 ∷ 7 ∷ []) closed)
    ∷ thread 2 3 0 none
    ∷ thread 2 3 99 (line (4 ∷ 0 ∷ 0 ∷ 0 ∷ 0 ∷ 0 ∷ 0 ∷ 0 ∷ 7 ∷ 12 ∷ 13 ∷ 14 ∷ []) silent)
    ∷ thread 0 2 99 (line (3 ∷ 0 ∷ 0 ∷ 0 ∷ 0 ∷ 0 ∷ 0 ∷ 0 ∷ 7 ∷ 10 ∷ 11 ∷ []) silent)
    ∷ []

abbrev no_temps : Temps
no_temps p = none

threads-AllServe : AllServe stored content threads no_temps
unfolding run_thread temp_after answer upload_handler upload_loop request_for send read_block
    compress_stream result to_bytes download_handler download_loop decompress_stream recv_exact
    recv_loop recv from_bytes
threads-AllServe = (
  (omega arith, λ s e. ground arith),
  (
    (omega arith, λ s e. ground arith),
    ((omega arith, λ s e. ground arith), ((omega arith, λ s e. ground arith), tt)),
  ),
)

threads-unfinished : unfinished (run_threads stored threads no_temps) (pieces 5 2) ≡ []
unfolding unfinished run_threads run_thread temp_after download_handler download_loop request_for
    decompress_stream result recv_exact recv_loop recv from_bytes pieces pieces_from piece offset
threads-unfinished = refl

merge_temps-run_threads_example :
    (merge_temps (run_threads stored threads no_temps) (pieces 5 2) []).written ≡ content
merge_temps-run_threads_example =
    merge_temps-run_threads stored content 2 threads no_temps stored-IsLawful (omega arith)
      (omega arith) (omega arith) (λ p h. inl refl) threads-AllServe threads-unfinished
