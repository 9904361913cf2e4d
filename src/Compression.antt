-- ===== src/Compression.antt =====
-- utils/compression.c over an unknown zlib. The library is a parameter, with what zlib documents of
-- `compressBound`, `compress` and `uncompress`.
pub mod Stored
use networks_dartsync.Base.{ℕ, ◌+◌, ◌^◌, ◌≤◌, ◌<◌, ◌≡◌, Option, none, some, length, arith}
use networks_dartsync.Base.Bytes.{Bytes}

-- The return codes that the switch names, and the data of a success.
pub data ZReturn : Type 0 where
  z_ok : Bytes → ZReturn
  z_buf_error : ZReturn
  z_mem_error : ZReturn
  z_data_error : ZReturn
  z_other : ZReturn

-- `compress` and `uncompress` are given the size of the destination.
pub record Zlib : Type 0 where
  pub compress_bound : ℕ → ℕ
  pub compress : ℕ → Bytes → ZReturn
  pub uncompress : ℕ → Bytes → ZReturn

pub record IsLawful (z : Zlib) : Type 0 where
  -- A compressed text fits the destination.
  pub compress-le : (size : ℕ) (s c : Bytes) → z.compress size s ≡ z_ok c → length c ≤ size
  pub compress_bound-lt : (n : ℕ) → n ≤ 1024 → z.compress_bound n < 2 ^ 64
  -- What was compressed is restored, if the destination is large enough.
  pub uncompress-compress :
      (size limit : ℕ) (s c : Bytes)
      → z.compress size s ≡ z_ok c
      → length s ≤ limit
      → z.uncompress limit c ≡ z_ok s

-- `NULL` on every error.
unfoldable pub result : ZReturn → Option Bytes
result (z_ok s) = some s
result z_buf_error = none
result z_mem_error = none
result z_data_error = none
result z_other = none

unfoldable pub compress_stream : Zlib → Bytes → Option Bytes
compress_stream z original = result (z.compress (z.compress_bound (length original)) original)

unfoldable pub decompress_stream : Zlib → Bytes → ℕ → Option Bytes
decompress_stream z compressed decompressed_length =
    result (z.uncompress decompressed_length compressed)

result-some : (r : ZReturn) (s : Bytes) → result r ≡ some s → r ≡ z_ok s
unfolding result
result-some (z_ok t) s h = ground arith
result-some z_buf_error s h = cc
result-some z_mem_error s h = cc
result-some z_data_error s h = cc
result-some z_other s h = cc

module _ (z : Zlib) (L : IsLawful z) (s c : Bytes) (done : compress_stream z s ≡ some c) where
  compressed : z.compress (z.compress_bound (length s)) s ≡ z_ok c
  unfolding compress_stream
  compressed = result-some _ c done

  -- `decompress_stream` undoes `compress_stream`.
  pub decompress_stream-compress_stream :
      (limit : ℕ) → length s ≤ limit → decompress_stream z c limit ≡ some s
  unfolding decompress_stream result
  decompress_stream-compress_stream limit h = rw (L.uncompress-compress _ limit s c compressed h)

  -- The length of a compressed block fits an `unsigned long`.
  pub length-compress_stream : length s ≤ 1024 → length c < 2 ^ 64
  length-compress_stream h =
      omega (arith, L.compress-le _ s c compressed, L.compress_bound-lt (length s) h)
