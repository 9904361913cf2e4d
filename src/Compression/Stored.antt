-- ===== src/Compression/Stored.antt =====
-- A compression that stores the text behind one byte: the assumptions on zlib can be met.
use networks_dartsync.Base.{
  ℕ, ◌+◌, [], ◌∷◌, arith, ltb, leb, ◌==◌, if◌then◌else◌, length, ◌≡◌, some,
}
use networks_dartsync.Base.Bytes.{Bytes}
use networks_dartsync.Compression.{
  ZReturn, z_ok, z_buf_error, z_data_error, Zlib, IsLawful, compress_stream, result,
}

abbrev store : ℕ → Bytes → ZReturn
store size s = if ltb (length s) size then z_ok (7 ∷ s) else z_buf_error

abbrev restore : ℕ → Bytes → ZReturn
restore limit [] = z_data_error
restore limit (b ∷ s) =
    if b == 7 then (if leb (length s) limit then z_ok s else z_buf_error) else z_data_error

abbrev pub stored : Zlib
stored = record { compress_bound = λ n. n + 1; compress = store; uncompress = restore }

pub stored-IsLawful : IsLawful stored
stored-IsLawful = record {
  compress-le = λ size s c h. ground arith;
  compress_bound-lt = λ n h. omega arith;
  uncompress-compress = λ size limit s c h fits. ground arith;
}

-- Every text fits.
pub compress_stream-stored : (s : Bytes) → (c : Bytes) × (compress_stream stored s ≡ some c)
unfolding compress_stream result
compress_stream-stored s = (7 ∷ s, ground arith)
