-- ===== src/Assembly/Whole.antt =====
-- The merged file is the file.
use mathlib.Core.List.{flatten}
use networks_dartsync.Base.{
  All-mono, ℕ, zero, suc, ◌+◌, ◌≤◌, ◌<◌, ◌≡◌, ◌⊎◌, refl, sym, ap, ◌∙◌, List, [], ◌∷◌, ◌++◌, Bool,
  true, false, Option, none, some, arith, ltb, ◌==◌, if◌then◌else◌, length, take, drop, map, All,
  Bool-cases, inl, inr, append_assoc, append-nil, take-append-drop, length-take, length-drop,
  take_all, ==_refl, Option-cases,
}
use networks_dartsync.Base.Bytes.{Bytes}
use networks_dartsync.Pieces.{Piece, offset, piece, pieces_from, pieces, slice}
use networks_dartsync.Pieces.Tiling.{int_limit, flatten-pieces, offset_mono}
use networks_dartsync.Transfer.{buffer_size}
use networks_dartsync.Transfer.Piecewise.{IsPart}
use networks_dartsync.Assembly.{
  Temps, get_file_size, unfinished, copy_loop, same_piece, remove, merge_temps,
}

no_block : (n : ℕ) (s : Bytes) → 0 < n → (length (take n s) == 0) ≡ true → length s ≡ 0
no_block zero s h e = absurd (omega arith)
no_block (suc n) [] h e = refl
no_block (suc n) (c ∷ s) h e = ground arith

a_block : (n : ℕ) (s : Bytes) → (length (take n s) == 0) ≡ false → 0 < length s
a_block zero s e = absurd (ground arith)
a_block (suc n) [] e = absurd (ground arith)
a_block (suc n) (c ∷ s) e = omega arith

copy_loop-append : (fuel : ℕ) (s out : Bytes) → length s < fuel → copy_loop fuel s out ≡ out ++ s
unfolding copy_loop
copy_loop-append zero s out h = absurd (omega arith)
copy_loop-append (suc fuel) s out h = elim (Bool-cases (length (take buffer_size s) == 0)) [
  | inl over ↦ rw (copy_loop, over) (sym (nothing s (no_block buffer_size s (omega arith) over)))
  | inr more ↦
      rw (copy_loop, more)
        (copy_loop-append fuel (drop buffer_size s) (out ++ take buffer_size s)
            (shorter s fuel h (a_block buffer_size s more))
          ∙ append_assoc out (take buffer_size s) (drop buffer_size s)
          ∙ ap (λ t. out ++ t) (take-append-drop buffer_size s))
]
  where
    nothing : (s : Bytes) → length s ≡ 0 → out ++ s ≡ out
    nothing [] e = append-nil out
    nothing (c ∷ s) e = absurd (omega arith)

    shorter :
        (s : Bytes) (fuel : ℕ)
        → length s < suc fuel
        → 0 < length s
        → length (drop buffer_size s) < fuel
    shorter s fuel h more = omega (arith, length-drop buffer_size s)

-- What a temporary file holds of its piece of `content`.
abbrev pub Holds : Bytes → Temps → Piece → Type 0
Holds content temps p =
    (temps p ≡ none) ⊎ ((s : Bytes) × (temps p ≡ some s) × IsPart s (slice p content))

-- A temporary file that is complete, or need not exist.
abbrev Complete : Bytes → Temps → Piece → Type 0
Complete content temps p = ((temps p ≡ none) × (p.len ≡ 0)) ⊎ (temps p ≡ some (slice p content))

IsPart-whole : (s whole : Bytes) → IsPart s whole → length whole ≤ length s → s ≡ whole
IsPart-whole s whole (k, e) h =
    let l : length whole ≤ k = omega (arith, ap length e, length-take k whole) in
    e ∙ take_all k whole l

Complete-of :
    (content : Bytes) (temps : Temps) (p : Piece)
    → ltb (get_file_size (temps p)) p.len ≡ false
    → Holds content temps p
    → Complete content temps p
Complete-of content temps p long (inl missing) = inl (missing, ground arith)
Complete-of content temps p long (inr (s, there, part)) =
    let enough : length (slice p content) ≤ length s =
      let l : p.len ≤ length s = ground arith in
      omega (arith, length-take p.len (drop p.start content)) in
    inr (there ∙ ap (λ t. some t) (IsPart-whole s (slice p content) part enough))

unfinished-Complete :
    (content : Bytes) (temps : Temps) (ps : List Piece)
    → unfinished temps ps ≡ []
    → All (Holds content temps) ps
    → All (Complete content temps) ps
unfolding unfinished
unfinished-Complete content temps [] e h = tt
unfinished-Complete content temps (p ∷ ps) e (q, h) =
    elim (Bool-cases (ltb (get_file_size (temps p)) p.len)) [
      | inl short ↦ absurd (ground arith)
      | inr long ↦
          let r : unfinished temps ps ≡ [] = ground arith in
          (Complete-of content temps p long q, unfinished-Complete content temps ps r h)
    ]

-- No piece begins before the end of an earlier one.
abbrev Ordered : List Piece → Type 0
Ordered [] = Unit
Ordered (p ∷ ps) = All (λ q. p.start + p.len ≤ q.start) ps × Ordered ps

-- Without the temporary file of an earlier piece, the later ones are still complete.
removed-Complete :
    (content : Bytes) (temps : Temps) (p : Piece) (ps : List Piece)
    → All (λ q. p.start + p.len ≤ q.start) ps
    → All (Complete content temps) ps
    → All (Complete content (remove p temps)) ps
unfolding remove
removed-Complete content temps p [] o h = tt
removed-Complete content temps p (q ∷ ps) (later, o) (c, h) =
    (one (Bool-cases (same_piece p q)) c, removed-Complete content temps p ps o h)
  where
    one :
        (same_piece p q ≡ true) ⊎ (same_piece p q ≡ false)
        → Complete content temps q
        → Complete content (remove p temps) q
    one (inl same) c =
        let e : (p.start ≡ q.start) × (p.len ≡ q.len) = ground arith in
        inl (rw (remove, same) refl, omega (arith, e.0, e.1))
    one (inr other) c = rw (remove, other) c

merge_temps-flatten :
    (content : Bytes) (temps : Temps) (ps : List Piece) (out : Bytes)
    → Ordered ps
    → All (Complete content temps) ps
    → (merge_temps temps ps out).written ≡ out ++ flatten (map (λ p. slice p content) ps)
unfolding merge_temps flatten
merge_temps-flatten content temps [] out o h = sym (append-nil out)
merge_temps-flatten content temps (p ∷ ps) out (later, o) (inl (missing, empty), h) =
    rw (merge_temps, missing, empty) (merge_temps-flatten content temps ps out o h)
merge_temps-flatten content temps (p ∷ ps) out (later, o) (inr there, h) =
    let block = slice p content in
    rw (merge_temps, there)
      (merge_temps-flatten content (remove p temps) ps (copy_loop (suc (length block)) block out) o
          (removed-Complete content temps p ps later h)
        ∙ ap (λ t. t ++ flatten (map (λ q. slice q content) ps))
            (copy_loop-append (suc (length block)) block out (omega arith))
        ∙ append_assoc out block (flatten (map (λ q. slice q content) ps)))

merge_temps-none :
    (temps : Temps) (ps : List Piece) (out : Bytes) (q : Piece)
    → temps q ≡ none
    → (merge_temps temps ps out).temps q ≡ none
unfolding merge_temps remove
merge_temps-none temps [] out q h = h
merge_temps-none temps (p ∷ ps) out q h = elim (Option-cases (temps p)) [
  | inl missing ↦ rw (merge_temps, missing) (merge_temps-none temps ps out q h)
  | inr (s, there) ↦
      rw (merge_temps, there)
        (merge_temps-none (remove p temps) ps _ q (gone (same_piece p q) (temps q) h))
]
  where
    gone : (b : Bool) (o : Option Bytes) → o ≡ none → (if b then none else o) ≡ none
    gone true o h = refl
    gone false o h = h

merge_temps-removed :
    (temps : Temps) (ps : List Piece) (out : Bytes)
    → All (λ q. (merge_temps temps ps out).temps q ≡ none) ps
unfolding merge_temps remove
merge_temps-removed temps [] out = tt
merge_temps-removed temps (p ∷ ps) out = elim (Option-cases (temps p)) [
  | inl missing ↦
      let step : merge_temps temps (p ∷ ps) out ≡ merge_temps temps ps out =
        rw (merge_temps, missing) refl in
      (
        ap (λ m. m.temps p) step ∙ merge_temps-none temps ps out p missing,
        All-mono (λ q h. ap (λ m. m.temps q) step ∙ h) _ (merge_temps-removed temps ps out),
      )
  | inr (s, there) ↦
      let own : same_piece p p ≡ true = rw (==_refl p.start, ==_refl p.len) refl in
      let left = remove p temps in
      let copied = copy_loop (suc (length s)) s out in
      let step : merge_temps temps (p ∷ ps) out ≡ merge_temps left ps copied =
        rw (merge_temps, there) refl in
      (
        ap (λ m. m.temps p) step ∙ merge_temps-none left ps copied p (rw (remove, own) refl),
        All-mono (λ q h. ap (λ m. m.temps q) step ∙ h) _ (merge_temps-removed left ps copied),
      )
]

module _ (len num : ℕ) (small : len < int_limit) (few : num < int_limit) (one : 0 < num) where
  starts-le :
      (k i bound : ℕ)
      → i + k ≡ num
      → bound ≤ offset len num i
      → All (λ q. bound ≤ q.start) (pieces_from k len num i)
  unfolding pieces_from piece
  starts-le zero i bound e h = tt
  starts-le (suc k) i bound e h = (
    h,
    starts-le k (i + 1) bound (omega arith)
        (omega (arith, offset_mono len num small few one i (omega arith))),
  )

  pieces_from-Ordered : (k i : ℕ) → i + k ≡ num → Ordered (pieces_from k len num i)
  unfolding pieces_from piece
  pieces_from-Ordered zero i e = tt
  pieces_from-Ordered (suc k) i e = (
    starts-le k (i + 1) _ (omega arith)
        (omega (arith, offset_mono len num small few one i (omega arith))),
    pieces_from-Ordered k (i + 1) (omega arith),
  )

-- Where every temporary file holds a first part of its piece, or does not exist, and the pass
-- finds none that is too short, the merge writes the whole file and removes every temporary file.
pub merge_temps-whole :
    (content : Bytes) (num : ℕ) (temps : Temps)
    → length content < int_limit
    → num < int_limit
    → 0 < num
    → All (Holds content temps) (pieces (length content) num)
    → unfinished temps (pieces (length content) num) ≡ []
    → ((merge_temps temps (pieces (length content) num) []).written ≡ content)
      × All
          (λ p. (merge_temps temps (pieces (length content) num) []).temps p ≡ none)
          (pieces (length content) num)
unfolding pieces
merge_temps-whole content num temps small few one held done =
    let ps = pieces_from num (length content) num 0 in
    (
      merge_temps-flatten content temps ps []
            (pieces_from-Ordered (length content) num small few one num 0 (omega arith))
            (unfinished-Complete content temps ps done held)
          ∙ flatten-pieces content num small few one,
      merge_temps-removed temps ps [],
    )
