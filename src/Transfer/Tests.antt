-- ===== src/Transfer/Tests.antt =====
-- Transfers of a piece, and the theorems at a concrete file. Here zlib stores the text.
use networks_dartsync.Base.{◌≢◌, ◌≡◌, refl, [], ◌∷◌, some, true, arith, take}
use networks_dartsync.Base.Bytes.{Bytes, codes}
use networks_dartsync.Compression.{compress_stream, result}
use networks_dartsync.Compression.Stored.{compress_stream-stored, stored, stored-IsLawful}
use networks_dartsync.Wire.{Socket, closed, silent, to_bytes}
use networks_dartsync.Transfer.Fuel.{download_handler-fuel}
use networks_dartsync.Transfer.{
  out_of_fuel, finished, stop, send, read_block, upload_loop, upload_handler, download_handler,
  request_for,
}
use networks_dartsync.Transfer.Piecewise.{IsPart}
use networks_dartsync.Transfer.Exchange.{
  answer, piece_of, download_handler-IsPart, download_handler-whole,
}

abbrev file : Bytes
file = codes "0123456789"

-- The piece is "34567", and "34" is there.
abbrev temp : Bytes
temp = codes "34"

abbrev sent : Bytes
sent = 4 ∷ 0 ∷ 0 ∷ 0 ∷ 0 ∷ 0 ∷ 0 ∷ 0 ∷ 7 ∷ codes "567"

answer_run : (answer stored file 3 5 temp 10).sent ≡ sent
unfolding answer upload_handler upload_loop request_for send read_block compress_stream result
    to_bytes
answer_run = refl

abbrev whole : Socket
whole = record { bytes = sent; cuts = 1 ∷ 4 ∷ 7 ∷ 2 ∷ []; ending = silent }

abbrev broken_off : Socket
broken_off = record { bytes = take 10 sent; cuts = []; ending = closed }

download_handler-whole_example :
    download_handler stored true 100 3 5 temp (some whole) ≡ stop (codes "34567") finished
unfolding answer upload_handler upload_loop request_for send read_block compress_stream result
    to_bytes
download_handler-whole_example =
    download_handler-whole file 3 5 (omega arith) temp (2, refl) stored stored-IsLawful 10
      (λ s h. compress_stream-stored s) 100 whole (omega arith) (omega arith) refl

download_handler-IsPart_example :
    IsPart (download_handler stored true 100 3 5 temp (some broken_off)).temp (piece_of 3 5 file)
unfolding answer upload_handler upload_loop request_for send read_block compress_stream result
    to_bytes
download_handler-IsPart_example =
    download_handler-IsPart file 3 5 (omega arith) temp (2, refl) stored stored-IsLawful 10 true 100
      10 broken_off refl

download_handler-fuel_example :
    (download_handler stored true 100 3 5 temp (some broken_off)).verdict ≢ out_of_fuel
download_handler-fuel_example = download_handler-fuel stored true 100 3 5 temp (some broken_off)
