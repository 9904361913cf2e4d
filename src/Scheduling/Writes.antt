-- ===== src/Scheduling/Writes.antt =====
-- What one write, and one `fopen`, do to the temporary files and to what the threads will append.
use mathlib.Core.Path.{subst}
use networks_dartsync.Base.{
  ℕ, ◌≡◌, ◌⊎◌, refl, sym, ap, ◌∙◌, [], ◌∷◌, ◌++◌, true, false, some, arith, length, take, drop,
  length-take, length-append, Bool-cases, inl, inr, take_of_take, take-length_append,
}
use networks_dartsync.Base.Bytes.{Bytes}
use networks_dartsync.Pieces.{Piece, slice}
use networks_dartsync.Transfer.Piecewise.{IsPart}
use networks_dartsync.Assembly.{Temps, same_piece}
use networks_dartsync.Assembly.Whole.{Holds}
use networks_dartsync.Assembly.Download.{AllHold}
use networks_dartsync.Scheduling.{
  Job, Worker, absent, started, working, over, bytes_of, write, piece_at,
}
use networks_dartsync.Scheduling.Invariant.{slot_of, Due}

pub IsPart-front : (xs ys whole : Bytes) → IsPart (xs ++ ys) whole → IsPart xs whole
IsPart-front xs ys whole (k, e) =
    let (n, t) = take_of_take (length xs) k whole in
    (n, sym (take-length_append xs ys) ∙ ap (take (length xs)) e ∙ t)

pub piece_eq : (p q : Piece) → same_piece p q ≡ true → p ≡ q
piece_eq p q same = ground arith

pub own_piece : (p : Piece) → same_piece p p ≡ true
own_piece p = ground arith

pub write-same : (p : Piece) (bytes : Bytes) (temps : Temps) → write p bytes temps p ≡ some bytes
write-same p bytes temps = rw (own_piece p) refl

pub bytes_of-IsPart :
    (content : Bytes) (temps : Temps) (p : Piece)
    → Holds content temps p
    → IsPart (bytes_of (temps p)) (slice p content)
bytes_of-IsPart content temps p (inl missing) = (0, ap bytes_of missing)
bytes_of-IsPart content temps p (inr (s, there, (k, e))) = (k, ap bytes_of there ∙ e)

pub write-AllHold :
    (content : Bytes) (temps : Temps) (p : Piece) (bytes : Bytes)
    → IsPart bytes (slice p content)
    → AllHold content temps
    → AllHold content (write p bytes temps)
write-AllHold content temps p bytes part h q within = elim (Bool-cases (same_piece p q)) [
  | inl same ↦
      rw same
        (inr (bytes, refl, subst (λ r. IsPart bytes (slice r content)) (piece_eq p q same) part))
  | inr other ↦ rw other (h q within)
]

-- To open a temporary file changes it for no thread.
pub open-Due :
    (job : Job) (content : Bytes) (temps : Temps) (p : Piece) (w : Worker)
    → Due job content temps w
    → Due job content (write p (bytes_of (temps p)) temps) w
open-Due job content temps p absent h = tt
open-Due job content temps p (started peer slot) h = tt
open-Due job content temps p (working peer slot todo v) (v_ok, inl done) = (v_ok, inl done)
open-Due job content temps p (working peer slot todo v) (v_ok, inr (bytes, there, part)) =
    (v_ok, inr (bytes, unchanged, part))
  where
    unchanged : write p (bytes_of (temps p)) temps (piece_at job slot) ≡ some bytes
    unchanged = elim (Bool-cases (same_piece p (piece_at job slot))) [
      | inl same ↦ rw same (
          ap (λ q. some (bytes_of (temps q))) (piece_eq p _ same)
          ∙ ap (λ o. some (bytes_of o)) there)
      | inr other ↦ rw other there
    ]
open-Due job content temps p over h = tt

-- The bytes that are written belong to no other thread.
pub other-Due :
    (job : Job) (content : Bytes) (temps : Temps) (p : Piece) (bytes : Bytes) (w : Worker)
    → ((slot : ℕ)
        → slot_of w ≡ some slot
        → same_piece p (piece_at job slot) ≡ false ⊎ ((piece_at job slot).len ≡ 0))
    → Due job content temps w
    → Due job content (write p bytes temps) w
other-Due job content temps p bytes absent free h = tt
other-Due job content temps p bytes (started peer slot) free h = tt
other-Due job content temps p bytes (working peer slot todo v) free (v_ok, inl done) =
    (v_ok, inl done)
other-Due job content temps p bytes (working peer slot todo v) free (v_ok, inr (old, there, part)) =
    elim (free slot refl) [
      | inl other ↦ (v_ok, inr (old, rw other there, part))
      | inr empty ↦ (v_ok, inl (nothing todo part empty))
    ]
  where
    nothing :
        (todo : Bytes)
        → IsPart (old ++ todo) (slice (piece_at job slot) content)
        → (piece_at job slot).len ≡ 0
        → todo ≡ []
    nothing [] part empty = refl
    nothing (c ∷ todo) (k, e) empty =
        let l = ap length e in
        absurd (
          omega (
            arith,
            l,
            length-append old (c ∷ todo),
            length-take k (slice (piece_at job slot) content),
            length-take (piece_at job slot).len (drop (piece_at job slot).start content),
            empty,
          ))
other-Due job content temps p bytes over free h = tt
