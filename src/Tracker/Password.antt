-- ===== src/Tracker/Password.antt =====
-- The authorisation of a client.
use networks_dartsync.Base.{
  ℕ, zero, suc, ◌≤◌, ◌≡◌, refl, List, [], ◌∷◌, ◌++◌, Bool, true, false, ◌||◌, some, arith,
  if◌then◌else◌, length, take, replicate, Bool-cases, inl, inr,
}
use networks_dartsync.Base.Bytes.{Bytes, bytes_eq}
use networks_dartsync.Tracker.{Authorisation, max_try, authorise}

-- Whether one of the tries is the password.
abbrev pub guessed : Bytes → List Bytes → Bool
guessed password [] = false
guessed password (received ∷ tries) = bytes_eq received password || guessed password tries

-- An answer to a client that had at most `n` tries.
pub record Answered (password : Bytes) (n : ℕ) (tries : List Bytes) (a : Authorisation)
    : Type 0 where
  pub result : authorise password n tries ≡ some a
  pub pass : a.pass ≡ guessed password (take n tries)
  pub refused : ℕ
  pub refused-le : refused ≤ n
  pub replies : a.replies ≡ replicate refused 0 ++ (if a.pass then 1 ∷ [] else [])

authorise-Answered :
    (password : Bytes) (n : ℕ) (tries : List Bytes)
    → n ≤ length tries
    → (a : Authorisation) × Answered password n tries a
unfolding authorise
authorise-Answered password zero tries h = (
  _,
  record { result = refl; pass = refl; refused = 0; refused-le = omega arith; replies = refl },
)
authorise-Answered password (suc n) [] h = absurd (omega arith)
authorise-Answered password (suc n) (received ∷ tries) h =
    elim (Bool-cases (bytes_eq received password)) [
      | inl right ↦ (
        record { replies = 1 ∷ []; pass = true },
        record {
          result = rw right refl;
          pass = rw right refl;
          refused = 0;
          refused-le = omega arith;
          replies = refl;
        },
      )
      | inr wrong ↦
          let (a, r) = authorise-Answered password n tries (omega arith) in
          (
            record a { replies = 0 ∷ a.replies },
            record {
              result = rw (wrong, r.result) refl;
              pass = rw wrong r.pass;
              refused = suc r.refused;
              refused-le = omega (arith, r.refused-le);
              replies = rw r.replies refl;
            },
          )
    ]

-- A client that sends three passwords is let in if, and only if, one of them is the password. It is
-- told 0 for each wrong try, three at most, and then 1 if it is let in.
pub authorise-max_try :
    (password : Bytes) (tries : List Bytes)
    → max_try ≤ length tries
    → (a : Authorisation) × Answered password max_try tries a
authorise-max_try password tries h = authorise-Answered password max_try tries h
