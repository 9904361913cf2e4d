-- ===== src/TempName/RoundTrip.antt =====
-- Which names of temporary files are read back.
use networks_dartsync.Base.{
  ℕ, suc, ◌^◌, ◌<◌, ◌≤◌, ◌≡◌, refl, ◌≢◌, ap, [], ◌∷◌, ◌++◌, true, false, some, arith, ltb, All,
  length, length-append, Bool-cases, inl, inr, lt→ltb, ltb→lt,
}
use networks_dartsync.Base.Bytes.{Bytes}
use networks_dartsync.Base.Int.{ℤ, pos, negsuc, in_signed}
use networks_dartsync.TempName.{
  PeerInfo, separator, tilde, strstr, copy_to_buffer, name_size, number_size, temp_name_text,
  temp_file_name, parse_number, parse_tmpt_file_name,
}
use networks_dartsync.TempName.Decimal.{
  decimal, signed_decimal, ascii_to_signed, IsDigit, decimal-All, length-decimal-le,
  ascii_to_signed-signed_decimal,
}
use networks_dartsync.TempName.Search.{
  contains_separator, strstr-separator, strstr-early, Lacks-separator, strstr-tilde,
}

-- The fields are values of their C types.
pub record IsInfo (p : PeerInfo) : Type 0 where
  pub start : in_signed 31 p.piece_start_idx ≡ true
  pub len : in_signed 31 p.piece_len ≡ true
  pub stamp : p.file_time_stamp < 2 ^ 32

digits-Lacks : (b : ℕ) (s : Bytes) → b'9' < b → All IsDigit s → All (λ c. c ≢ b) s
digits-Lacks b [] h a = tt
digits-Lacks b (c ∷ s) h ((low, high), a) = (omega arith, digits-Lacks b s h a)

signed_decimal-Lacks : (z : ℤ) → All (λ c. c ≢ b'_') (signed_decimal z)
unfolding signed_decimal
signed_decimal-Lacks (pos n) = digits-Lacks b'_' (decimal n) (omega arith) (decimal-All n)
signed_decimal-Lacks (negsuc n) =
    (omega arith, digits-Lacks b'_' (decimal (suc n)) (omega arith) (decimal-All (suc n)))

length-signed_decimal : (z : ℤ) → in_signed 31 z ≡ true → length (signed_decimal z) < number_size
unfolding signed_decimal
length-signed_decimal (pos n) h = omega (arith, length-decimal-le 9 n (ground arith))
length-signed_decimal (negsuc n) h = omega (arith, length-decimal-le 9 (suc n) (ground arith))

pub copy_to_buffer-some : (size : ℕ) (s : Bytes) → length s < size → copy_to_buffer size s ≡ some s
unfolding copy_to_buffer
copy_to_buffer-some size s h = rw (lt→ltb _ _ h)

-- A printed number is read back, and what follows it is left.
parse_number-signed_decimal :
    (z : ℤ) (rest : Bytes)
    → in_signed 31 z ≡ true
    → parse_number 31 separator (signed_decimal z ++ (separator ++ rest)) ≡ some (z, rest)
unfolding parse_number
parse_number-signed_decimal z rest h = ground (
  arith,
  strstr-separator (signed_decimal z) rest
      (Lacks-separator (signed_decimal z) (signed_decimal-Lacks z)),
  copy_to_buffer-some number_size (signed_decimal z) (length-signed_decimal z h),
  ascii_to_signed-signed_decimal 31 z h,
)

ascii_to_signed-decimal : (n : ℕ) → n < 2 ^ 32 → ascii_to_signed 63 (decimal n) ≡ some (pos n)
unfolding signed_decimal
ascii_to_signed-decimal n h = ascii_to_signed-signed_decimal 63 (pos n) (lt→ltb _ _ (omega arith))

parse_number-stamp :
    (n : ℕ) → n < 2 ^ 32 → parse_number 63 tilde (decimal n ++ tilde) ≡ some (pos n, [])
unfolding parse_number
parse_number-stamp n h = ground (
  arith,
  strstr-tilde (decimal n) [] (digits-Lacks b'~' (decimal n) (omega arith) (decimal-All n)),
  copy_to_buffer-some number_size (decimal n) (omega (arith, length-decimal-le 9 n (omega arith))),
  ascii_to_signed-decimal n h,
)

-- A name that fits its buffer leaves room for its first part.
length-file_name : (p : PeerInfo) → length p.file_name ≤ length (temp_name_text p)
unfolding temp_name_text
length-file_name p = omega (arith, length-append p.file_name _)

temp_file_name-some :
    (p : PeerInfo) (text : Bytes)
    → temp_file_name p ≡ some text
    → (text ≡ temp_name_text p) × (length p.file_name < name_size)
unfolding temp_file_name copy_to_buffer
temp_file_name-some p text h = elim (Bool-cases (ltb (length (temp_name_text p)) name_size)) [
  | inl short ↦ (ground arith, omega (arith, ltb→lt _ _ short, length-file_name p))
  | inr long ↦ absurd (ground arith)
]

-- The three numbers behind the file's name.
numbers_text : PeerInfo → Bytes
numbers_text p =
    signed_decimal p.piece_start_idx
    ++ (separator
        ++ (signed_decimal p.piece_len ++ (separator ++ (decimal p.file_time_stamp ++ tilde))))

temp_name_text-numbers_text :
    (p : PeerInfo) → temp_name_text p ≡ p.file_name ++ (separator ++ numbers_text p)
unfolding temp_name_text numbers_text
temp_name_text-numbers_text p = refl

parse-numbers_text :
    (p : PeerInfo) (before : Bytes)
    → IsInfo p
    → length before < name_size
    → strstr separator (temp_name_text p) ≡ some (before, numbers_text p)
    → parse_tmpt_file_name (temp_name_text p) ≡ some (record p { file_name = before })
unfolding parse_tmpt_file_name numbers_text
parse-numbers_text p before v short found = ground (
  arith,
  copy_to_buffer-some name_size before short,
  parse_number-signed_decimal p.piece_start_idx
      (signed_decimal p.piece_len ++ (separator ++ (decimal p.file_time_stamp ++ tilde))) v.start,
  parse_number-signed_decimal p.piece_len (decimal p.file_time_stamp ++ tilde) v.len,
  parse_number-stamp p.file_time_stamp v.stamp,
)

parse-file_name :
    (text : Bytes) (q : PeerInfo) (before after : Bytes)
    → strstr separator text ≡ some (before, after)
    → parse_tmpt_file_name text ≡ some q
    → q.file_name ≡ before
unfolding parse_tmpt_file_name copy_to_buffer
parse-file_name text q before after found parsed = ground arith

-- `parse_tmpt_file_name` reads back every name that `sprintf` wrote into its buffer, if no two
-- underscores stand side by side in the file's name and it does not end in an underscore: the file's
-- name, the start and the length of the piece, negative ones too, and the time stamp.
pub parse_tmpt_file_name-temp_file_name :
    (p : PeerInfo) {text : Bytes}
    → IsInfo p
    → contains_separator (p.file_name ++ b'_' ∷ []) ≡ false
    → temp_file_name p ≡ some text
    → parse_tmpt_file_name text ≡ some p
parse_tmpt_file_name-temp_file_name p {text} v clear written =
    let (e, short) = temp_file_name-some p text written in
    rw e (
      parse-numbers_text p p.file_name v short
        (rw (temp_name_text-numbers_text p) (strstr-separator p.file_name (numbers_text p) clear)))

-- The other names are not read back: where the file's name has two underscores side by side or ends
-- in one, whatever `parse_tmpt_file_name` reads is not the file's name.
pub parse_tmpt_file_name-wrong :
    (p q : PeerInfo) {text : Bytes}
    → contains_separator (p.file_name ++ b'_' ∷ []) ≡ true
    → temp_file_name p ≡ some text
    → parse_tmpt_file_name text ≡ some q
    → q.file_name ≢ p.file_name
parse_tmpt_file_name-wrong p q {text} unclear written parsed same =
    let (e, short) = temp_file_name-some p text written in
    let (before, after, found, lt) = strstr-early p.file_name (numbers_text p) unclear in
    let first =
      parse-file_name text q before after (rw (e, temp_name_text-numbers_text p) found) parsed in
    absurd (omega (arith, ap length first, ap length same))
