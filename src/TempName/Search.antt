-- ===== src/TempName/Search.antt =====
-- `strstr` on the texts that occur in a temporary file's name.
use networks_dartsync.Base.{
  ◌<◌, ◌≡◌, refl, ◌≢◌, [], ◌∷◌, ◌++◌, Bool, true, false, ◌&&◌, ◌||◌, some, arith, ◌==◌, All, length,
  Bool-cases, inl, inr,
}
use networks_dartsync.Base.Bytes.{Bytes}
use networks_dartsync.TempName.{separator, tilde, strip_prefix, strstr}

-- Whether two underscores stand side by side.
abbrev pub contains_separator : Bytes → Bool
contains_separator [] = false
contains_separator (c ∷ []) = false
contains_separator (c ∷ d ∷ s) = (c == b'_' && d == b'_') || contains_separator (d ∷ s)

-- The first separator is the one behind a text that, with one underscore added, holds none.
pub strstr-separator :
    (name rest : Bytes)
    → contains_separator (name ++ b'_' ∷ []) ≡ false
    → strstr separator (name ++ (separator ++ rest)) ≡ some (name, rest)
unfolding strstr strip_prefix
strstr-separator [] rest h = refl
strstr-separator (c ∷ []) rest h = ground arith
strstr-separator (c ∷ d ∷ name) rest h = ground (arith, strstr-separator (d ∷ name) rest)

-- Otherwise a separator is found earlier.
pub strstr-early :
    (name rest : Bytes)
    → contains_separator (name ++ b'_' ∷ []) ≡ true
    → (before after : Bytes) × (strstr separator (name ++ (separator ++ rest))
        ≡ some (before, after))
      × (length before < length name)
unfolding strstr strip_prefix
strstr-early [] rest h = absurd (cc)
strstr-early (c ∷ []) rest h = ([], b'_' ∷ rest, ground arith, omega arith)
strstr-early (c ∷ d ∷ name) rest h = elim (Bool-cases (c == b'_' && d == b'_')) [
  | inl here ↦ ([], name ++ (separator ++ rest), ground arith, omega arith)
  | inr later ↦
      let (before, after, e, lt) = strstr-early (d ∷ name) rest (ground arith) in
      (c ∷ before, after, ground arith, omega arith)
]

pub Lacks-separator :
    (s : Bytes) → All (λ c. c ≢ b'_') s → contains_separator (s ++ b'_' ∷ []) ≡ false
Lacks-separator [] a = refl
Lacks-separator (c ∷ []) (n, a) = ground arith
Lacks-separator (c ∷ d ∷ s) (n, a) = ground (arith, Lacks-separator (d ∷ s) a)

pub strstr-tilde :
    (s rest : Bytes) → All (λ c. c ≢ b'~') s → strstr tilde (s ++ (tilde ++ rest)) ≡ some (s, rest)
unfolding strstr strip_prefix
strstr-tilde [] rest a = refl
strstr-tilde (c ∷ s) rest (n, a) = ground (arith, strstr-tilde s rest a)
