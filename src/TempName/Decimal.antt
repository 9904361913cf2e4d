-- ===== src/TempName/Decimal.antt =====
-- `%d`, `%u`, `atoi` and `atol`.
use mathlib.Core.Logic.{dite, ite, if_pos, if_neg}
use mathlib.Core.WellFounded
use native.Mathlib.Nat.{pow-suc}
use mathlib.Core.WellFounded.{Acc, Acc-prop}
use networks_dartsync.Base.{
  ℕ, zero, suc, ◌+◌, ◌-◌, ◌*◌, ◌/◌, ◌%◌, ◌^◌, ◌≤◌, ◌<◌, ◌≡◌, refl, ◌∙◌, [], ◌∷◌, Bool, true, ◌&&◌,
  ◌||◌, Option, none, some, arith, leb, ◌==◌, if◌then◌else◌, dec_lt, All, length,
}
use networks_dartsync.Base.Bytes.{Bytes}
use networks_dartsync.Base.Int.{ℤ, pos, negsuc, negate, in_signed}
use networks_dartsync.Base.Order.{lt_wf}

-- The digits of `n` in front of `out`.
digits_acc : (n : ℕ) → Acc ◌<◌ n → Bytes → Bytes
digits_acc n (Acc.intro _ smaller) out =
    dite (dec_lt 9 n)
      (λ h. digits_acc (n / 10) (smaller (n / 10) (omega arith)) ((b'0' + n % 10) ∷ out))
      (λ _. (b'0' + n % 10) ∷ out)

digits : ℕ → Bytes → Bytes
digits n out = digits_acc n (lt_wf.apply n) out

unfoldable pub decimal : ℕ → Bytes
unfolding digits digits_acc lt_wf dec_lt
decimal n = digits n []

-- `%d`
unfoldable pub signed_decimal : ℤ → Bytes
signed_decimal (pos n) = decimal n
signed_decimal (negsuc n) = b'-' ∷ decimal (suc n)

abbrev pub is_digit : ℕ → Bool
is_digit c = leb b'0' c && leb c b'9'

abbrev pub is_space : ℕ → Bool
is_space c = c == 32 || (leb 9 c && leb c 13)

-- The number that the leading digits spell behind `n`.
unfoldable pub number : Bytes → ℕ → ℕ
number [] n = n
number (c ∷ s) n = if is_digit c then number s (n * 10 + (c - b'0')) else n

unfoldable pub signed_number : Bytes → ℤ
unfolding number
signed_number [] = pos 0
signed_number (c ∷ s) =
    if c == b'-'
    then negate (number s 0)
    else if c == b'+'
    then pos (number s 0)
    else pos (number (c ∷ s) 0)

unfoldable pub skip_space : Bytes → Bytes
skip_space [] = []
skip_space (c ∷ s) = if is_space c then skip_space s else c ∷ s

-- `atoi` and `atol`, for a type of w + 1 bits.
unfoldable pub ascii_to_signed : ℕ → Bytes → Option ℤ
ascii_to_signed w s = let v = signed_number (skip_space s) in if in_signed w v then some v else none

digits_step :
    (n : ℕ) (out : Bytes)
    → digits n out
      ≡ ite (dec_lt 9 n) (digits (n / 10) ((b'0' + n % 10) ∷ out)) ((b'0' + n % 10) ∷ out)
unfolding digits digits_acc
digits_step n out = step n (lt_wf.apply n) (lt_wf.apply (n / 10)) out
  where
    step :
        (n : ℕ) (w : Acc ◌<◌ n) (w' : Acc ◌<◌ (n / 10)) (out : Bytes)
        → digits_acc n w out
          ≡ ite
              (dec_lt 9 n)
              (digits_acc (n / 10) w' ((b'0' + n % 10) ∷ out))
              ((b'0' + n % 10) ∷ out)
    step n (Acc.intro _ smaller) w' out = λ i.
        dite (dec_lt 9 n)
          (λ h.
            digits_acc (n / 10) (Acc-prop (smaller (n / 10) (omega arith)) w' i)
              ((b'0' + n % 10) ∷ out))
          (λ _. (b'0' + n % 10) ∷ out)

-- The digits are between '0' and '9', and in front of what was there.
abbrev pub IsDigit : ℕ → Type 0
IsDigit c = (b'0' ≤ c) × (c ≤ b'9')

number-digit :
    (m k : ℕ) (out : Bytes) → k ≡ m / 10 → number ((b'0' + m % 10) ∷ out) k ≡ number out m
unfolding number
number-digit m k out e = ground arith

-- Reading the digits of `n` from 0 on is starting from `n`.
number-digits : (n : ℕ) (out : Bytes) → number (digits n out) 0 ≡ number out n
number-digits n =
    WellFounded.induction lt_wf {C = λ m. (out : Bytes) → number (digits m out) 0 ≡ number out m} n
      λ m ih out. elim (dec_lt 9 m) [
        | yes h ↦
            rw (digits_step m out, if_pos _ h)
              (ih (m / 10) (omega arith) _ ∙ number-digit m (m / 10) out (omega arith))
        | no h ↦ rw (digits_step m out, if_neg _ h) (number-digit m 0 out (omega arith))
      ]

digits-All : (n : ℕ) (out : Bytes) → All IsDigit out → All IsDigit (digits n out)
digits-All n =
    WellFounded.induction lt_wf
      {C = λ m. (out : Bytes) → All IsDigit out → All IsDigit (digits m out)} n
      λ m ih out a. elim (dec_lt 9 m) [
        | yes h ↦
            rw (digits_step m out, if_pos _ h)
              (ih (m / 10) (omega arith) _ ((omega arith, omega arith), a))
        | no h ↦ rw (digits_step m out, if_neg _ h) ((omega arith, omega arith), a)
      ]

pub decimal-All : (n : ℕ) → All IsDigit (decimal n)
unfolding decimal
decimal-All n = digits-All n [] tt

length-lt-digits : (n : ℕ) (out : Bytes) → length out < length (digits n out)
length-lt-digits n =
    WellFounded.induction lt_wf {C = λ m. (out : Bytes) → length out < length (digits m out)} n
      λ m ih out. elim (dec_lt 9 m) [
        | yes h ↦
            rw (digits_step m out, if_pos _ h)
              (omega (arith, ih (m / 10) (omega arith) ((b'0' + m % 10) ∷ out)))
        | no h ↦ rw (digits_step m out, if_neg _ h) (omega arith)
      ]

length-digits-le :
    (k n : ℕ) (out : Bytes) → n < 10 ^ suc k → length (digits n out) ≤ length out + suc k
length-digits-le zero n out h =
    let small : ¬ (9 < n) = omega arith in rw (digits_step n out, if_neg _ small) (omega arith)
length-digits-le (suc k) n out h = elim (dec_lt 9 n) [
  | yes g ↦
      rw (digits_step n out, if_pos _ g)
        (omega (
          arith,
          length-digits-le k (n / 10) ((b'0' + n % 10) ∷ out) (omega (arith, pow-suc 10 (suc k))),
        ))
  | no g ↦ rw (digits_step n out, if_neg _ g) (omega arith)
]

pub length-decimal-le : (k n : ℕ) → n < 10 ^ suc k → length (decimal n) ≤ suc k
unfolding decimal
length-decimal-le k n h = omega (arith, length-digits-le k n [] h)

number-decimal : (n : ℕ) → number (decimal n) 0 ≡ n
unfolding decimal number
number-decimal n = number-digits n []

-- A text that begins with a digit is read as the number that it spells.
signed_number-digit :
    (s : Bytes) → All IsDigit s → 0 < length s → signed_number (skip_space s) ≡ pos (number s 0)
unfolding signed_number skip_space
signed_number-digit [] a h = absurd (omega arith)
signed_number-digit (c ∷ s) ((low, high), a) h = ground arith

signed_number-minus : (s : Bytes) → signed_number (skip_space (b'-' ∷ s)) ≡ negate (number s 0)
unfolding signed_number skip_space
signed_number-minus s = refl

decimal_pos : (n : ℕ) → 0 < length (decimal n)
unfolding decimal
decimal_pos n = length-lt-digits n []

-- An integer that the type holds is read back from its print.
pub ascii_to_signed-signed_decimal :
    (w : ℕ) (z : ℤ) → in_signed w z ≡ true → ascii_to_signed w (signed_decimal z) ≡ some z
unfolding ascii_to_signed signed_decimal
ascii_to_signed-signed_decimal w (pos n) h =
    let v = signed_number-digit (decimal n) (decimal-All n) (decimal_pos n) in
    rw (v, number-decimal n) (ground arith)
ascii_to_signed-signed_decimal w (negsuc n) h =
    rw (signed_number-minus (decimal (suc n)), number-decimal (suc n)) (ground arith)
