-- ===== src/Transfer/Frames.antt =====
-- What travels: blocks of at most 1024 bytes, each compressed and behind its length.
use networks_dartsync.Base.{◌≤◌, ◌<◌, ◌≡◌, [], ◌++◌, some, length}
use networks_dartsync.Base.Bytes.{Bytes}
use networks_dartsync.Compression.{Zlib, compress_stream}
use networks_dartsync.Wire.{to_bytes}
use networks_dartsync.Transfer.{buffer_size, long_size}

-- `bytes` is an encoding of `content`.
pub data Frames (z : Zlib) : Bytes → Bytes → Type 0 where
  none_left : {content bytes : Bytes} → content ≡ [] → bytes ≡ [] → Frames z content bytes
  frame :
      {content bytes : Bytes} (block rest c more : Bytes)
      → 0 < length block
      → length block ≤ buffer_size
      → compress_stream z block ≡ some c
      → Frames z rest more
      → content ≡ block ++ rest
      → bytes ≡ to_bytes long_size (length c) ++ (c ++ more)
      → Frames z content bytes
