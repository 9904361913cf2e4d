-- ===== src/Scheduling/Slots.antt =====
-- Two pieces with one temporary file are empty.
use native.Mathlib.Nat.{le-div_iff_mul-le, div-mul-le_self}
use networks_dartsync.Base.{ℕ, ◌+◌, ◌*◌, ◌≤◌, ◌<◌, ◌≡◌, ◌≢◌, true, arith, dec_lt}
use networks_dartsync.Pieces.{offset, piece}
use networks_dartsync.Pieces.Tiling.{int_limit, next-eq, offset-le, offset-exact}
use networks_dartsync.Assembly.{same_piece}

module _ (len num : ℕ) (small : len < int_limit) (few : num < int_limit) (one : 0 < num) where
  offset_le_offset : (i j : ℕ) → i ≤ j → j ≤ num → offset len num i ≤ offset len num j
  offset_le_offset i j h l =
      rw
        (offset-exact len num small few one i (omega arith), offset-exact len num small few one j l)
        ((le-div_iff_mul-le one).1 (grind (arith, div-mul-le_self (len * i) num)))

  pub piece-within : (i : ℕ) → i < num → (piece len num i).start + (piece len num i).len ≤ len
  piece-within i h = omega (
    arith,
    next-eq len num small few one i h,
    offset-le len num small few one (i + 1) (omega arith),
  )

  earlier-empty :
      (i j : ℕ)
      → i < j
      → j < num
      → same_piece (piece len num i) (piece len num j) ≡ true
      → (piece len num i).len ≡ 0
  unfolding piece
  earlier-empty i j h l same =
      let a = next-eq len num small few one i (omega arith) in
      let b = offset_le_offset (i + 1) j (omega arith) (omega arith) in
      let c : offset len num i ≡ offset len num j = ground arith in omega (arith, a, b, c)

  pub same_piece-empty :
      (i j : ℕ)
      → i < num
      → j < num
      → i ≢ j
      → same_piece (piece len num i) (piece len num j) ≡ true
      → (piece len num i).len ≡ 0
  same_piece-empty i j hi hj other same = elim (dec_lt i j) [
    | yes before ↦ earlier-empty i j before hj same
    | no not_before ↦
        let back : same_piece (piece len num j) (piece len num i) ≡ true = ground arith in
        let e = earlier-empty j i (omega arith) hi back in ground arith
  ]
