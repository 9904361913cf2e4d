-- ===== src/Pieces/Tiling.antt =====
-- The pieces are bounded, adjacent, and make up the file.
use native.Mathlib.Nat.{le-div_iff_mul-le, div-mul-le_self, mul-div_cancel}
use mathlib.Core.List.{flatten}
use networks_dartsync.Base.{
  ℕ, zero, suc, ◌+◌, ◌-◌, ◌*◌, ◌/◌, ◌%◌, ◌^◌, ◌≤◌, ◌<◌, ◌≡◌, refl, sym, ◌∙◌, ap, ◌++◌, map, take,
  drop, length, arith, take-append-drop, drop-drop, drop_all,
}
use networks_dartsync.Base.Bytes.{Bytes}
use networks_dartsync.Pieces.{offset, piece, pieces_from, pieces, slice}

-- The sizes that an `int` holds.
abbrev pub int_limit : ℕ
int_limit = 2 ^ 31

module _ (len num : ℕ) (small : len < int_limit) (few : num < int_limit) (some_peer : 0 < num) where
  product-lt : (i : ℕ) → i ≤ num → len * i < 2 ^ 62
  product-lt i h = grind arith

  quotient-le : (i : ℕ) → i ≤ num → len * i / num ≤ len
  quotient-le i h = grind arith

  -- No product overflows and no cast loses a bit.
  pub offset-exact : (i : ℕ) → i ≤ num → offset len num i ≡ len * i / num
  unfolding offset
  offset-exact i h =
      let e : len * i % 2 ^ 64 ≡ len * i = omega (arith, product-lt i h) in
      rw e (omega (arith, quotient-le i h))

  pub offset-le : (i : ℕ) → i ≤ num → offset len num i ≤ len
  offset-le i h = omega (arith, offset-exact i h, quotient-le i h)

  pub offset_mono : (i : ℕ) → i < num → offset len num i ≤ offset len num (i + 1)
  offset_mono i h =
      rw (offset-exact i (omega arith), offset-exact (i + 1) (omega arith))
        ((le-div_iff_mul-le some_peer).1 (omega (arith, div-mul-le_self (len * i) num)))

  -- The first piece starts at the start of the file, and the last one ends at its end.
  offset-start : offset len num 0 ≡ 0
  offset-start = rw (offset-exact 0 (omega arith)) (omega arith)

  offset-end : offset len num num ≡ len
  offset-end = offset-exact num (omega arith) ∙ mul-div_cancel len some_peer

  pub next-eq :
      (i : ℕ) → i < num → (piece len num i).start + (piece len num i).len ≡ offset len num (i + 1)
  unfolding piece
  next-eq i h = omega (arith, offset_mono i h)

  flatten-pieces_from :
      (k i : ℕ) (file : Bytes)
      → i + k ≡ num
      → length file ≡ len
      → flatten (map (λ p. slice p file) (pieces_from k len num i)) ≡ drop (offset len num i) file
  unfolding pieces_from piece flatten
  flatten-pieces_from zero i file e l =
      let last : i ≡ num = omega arith in
      rw last (sym (drop_all (offset len num num) file (omega (arith, offset-end))))
  flatten-pieces_from (suc k) i file e l =
      let start = offset len num i in
      let next = offset len num (i + 1) in
      let step : start + (next - start) ≡ next = omega (arith, offset_mono i (omega arith)) in
      rw (flatten-pieces_from k (i + 1) file (omega arith) l) (
        ap (λ (n : ℕ). take (next - start) (drop start file) ++ drop n file) (sym step)
        ∙ ap (λ t. take (next - start) (drop start file) ++ t)
            (sym (drop-drop start (next - start) file))
        ∙ take-append-drop (next - start) (drop start file))

-- For a file and a number of peers that fit an `int`, and at least one peer, the pieces in their
-- order are the whole file: nothing is left out, nothing is there twice, and no product or cast
-- overflows.
pub flatten-pieces :
    (file : Bytes) (num : ℕ)
    → length file < int_limit
    → num < int_limit
    → 0 < num
    → flatten (map (λ p. slice p file) (pieces (length file) num)) ≡ file
unfolding pieces
flatten-pieces file num small few one =
    flatten-pieces_from (length file) num small few one num 0 file (omega arith) refl
    ∙ ap (λ (n : ℕ). drop n file) (offset-start (length file) num small few one)
