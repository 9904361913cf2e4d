-- ===== src/TempName.antt =====
-- The names of temporary files, utils/peer2peer.c: `<name>__<start>__<length>__<timestamp>~`, as
-- `sprintf` writes them and `parse_tmpt_file_name` reads them. `strstr`, `atoi`, `atol` and `%d`
-- are modelled as the C standard describes them. `none` is undefined behaviour: a `NULL` from
-- `strstr` that is used, a text that overruns its buffer, a number that its type cannot hold.
pub mod Decimal
pub mod Search
pub mod RoundTrip
mod Tests
use networks_dartsync.Base.{
  ℕ, zero, suc, ◌+◌, ◌-◌, ◌*◌, List, [], ◌∷◌, ◌++◌, Bool, true, false, ◌&&◌, ◌||◌, Option, none,
  some, ltb, leb, ◌==◌, if◌then◌else◌, ◌>>=◌, length,
}
use networks_dartsync.Base.Bytes.{Bytes}
use networks_dartsync.Base.Int.{ℤ, pos, negsuc, negate, in_signed, to_u32}
use networks_dartsync.TempName.Decimal.{decimal, signed_decimal, ascii_to_signed}

-- `peer_info_t` without the fields that the caller fills in.
pub record PeerInfo : Type 0 where
  pub file_name : Bytes
  pub file_time_stamp : ℕ
  pub piece_start_idx : ℤ
  pub piece_len : ℤ

abbrev pub separator : Bytes
separator = b'_' ∷ b'_' ∷ []

abbrev pub tilde : Bytes
tilde = b'~' ∷ []

-- The text behind `pat`, if `s` begins with it.
unfoldable pub strip_prefix : Bytes → Bytes → Option Bytes
strip_prefix [] s = some s
strip_prefix (p ∷ pat) [] = none
strip_prefix (p ∷ pat) (c ∷ s) = if p == c then strip_prefix pat s else none

-- `strstr(s, pat)`: the text before the first occurrence, and the text behind it.
unfoldable pub strstr : Bytes → Bytes → Option (Bytes × Bytes)
strstr pat [] = none
strstr pat (c ∷ s) = elim (strip_prefix pat (c ∷ s)) [
  | some rest ↦ some ([], rest)
  | none ↦ (do (before, rest) ← strstr pat s; some (c ∷ before, rest))
]

-- `memcpy` into a zeroed buffer of that size, which has to keep a final NUL.
unfoldable pub copy_to_buffer : ℕ → Bytes → Option Bytes
copy_to_buffer size s = if ltb (length s) size then some s else none

-- `sizeof(name)` and `sizeof(buf)`.
abbrev pub name_size : ℕ
name_size = 256

abbrev pub number_size : ℕ
number_size = 20

-- `sprintf(tempfilename, "%s__%d__%d__%u~", …)`
unfoldable pub temp_name_text : PeerInfo → Bytes
temp_name_text p =
    p.file_name
    ++ (separator
        ++ (signed_decimal p.piece_start_idx
            ++ (separator
                ++ (signed_decimal p.piece_len
                    ++ (separator ++ (decimal p.file_time_stamp ++ tilde))))))

unfoldable pub temp_file_name : PeerInfo → Option Bytes
temp_file_name p = copy_to_buffer name_size (temp_name_text p)

-- One number of the name, up to `pat`.
unfoldable pub parse_number : ℕ → Bytes → Bytes → Option (ℤ × Bytes)
parse_number w pat s = do
  (text, rest) ← strstr pat s
  buf ← copy_to_buffer number_size text
  value ← ascii_to_signed w buf
  some (value, rest)

unfoldable pub parse_tmpt_file_name : Bytes → Option PeerInfo
parse_tmpt_file_name s = do
  (text, s1) ← strstr separator s
  file_name ← copy_to_buffer name_size text
  (start, s2) ← parse_number 31 separator s1
  (len, s3) ← parse_number 31 separator s2
  (stamp, s4) ← parse_number 63 tilde s3
  some (record {
    file_name = file_name;
    file_time_stamp = to_u32 stamp;
    piece_start_idx = start;
    piece_len = len;
  })
