-- ===== src/FileTable/Disconnect/Swap.antt =====
-- Removing an address from an array by moving the last one into its place.
use networks_dartsync.Base.{
  ℕ, zero, suc, ◌<◌, ◌≡◌, refl, ap, List, [], ◌∷◌, ◌++◌, true, false, not, ◌||◌, ◌&&◌, arith, ◌==◌,
  get_or, set, take, length, length-take, ◌∙◌, dec_lt,
}
use networks_dartsync.FileTable.Peers.{has, Distinct, has-append}

take-suc : (m : ℕ) (ps : List ℕ) → m < length ps → take (suc m) ps ≡ take m ps ++ get_or ps m 0 ∷ []
take-suc m [] h = absurd (omega arith)
take-suc zero (p ∷ ps) h = refl
take-suc (suc m) (p ∷ ps) h = ap (λ t. p ∷ t) (take-suc m ps (omega arith))

take-set_same : (m v : ℕ) (ps : List ℕ) → take m (set ps m v) ≡ take m ps
take-set_same m v [] = refl
take-set_same zero v (p ∷ ps) = refl
take-set_same (suc m) v (p ∷ ps) = ap (λ t. p ∷ t) (take-set_same m v ps)

take-set_below : (m i v : ℕ) (ps : List ℕ) → i < m → take m (set ps i v) ≡ set (take m ps) i v
take-set_below zero i v ps h = absurd (omega arith)
take-set_below (suc m) i v [] h = refl
take-set_below (suc m) zero v (p ∷ ps) h = refl
take-set_below (suc m) (suc i) v (p ∷ ps) h =
    ap (λ t. p ∷ t) (take-set_below m i v ps (omega arith))

get_or-take : (m i : ℕ) (ps : List ℕ) → i < m → get_or (take m ps) i 0 ≡ get_or ps i 0
get_or-take zero i ps h = absurd (omega arith)
get_or-take (suc m) i [] h = refl
get_or-take (suc m) zero (p ∷ ps) h = refl
get_or-take (suc m) (suc i) (p ∷ ps) h = get_or-take m i ps (omega arith)

has-get_or : (i : ℕ) (ys : List ℕ) → i < length ys → has (get_or ys i 0) ys ≡ true
unfolding has
has-get_or i [] h = absurd (omega arith)
has-get_or zero (y ∷ ys) h = ground arith
has-get_or (suc i) (y ∷ ys) h = ground (arith, has-get_or i ys (omega arith))

-- Putting `l` in the place of the item at `i`.
has-set :
    (i l j : ℕ) (ys : List ℕ)
    → i < length ys
    → Distinct ys
    → has j (set ys i l) ≡ ((has j ys && not (j == get_or ys i 0)) || l == j)
unfolding has
has-set i l j [] h d = absurd (omega arith)
has-set zero l j (y ∷ ys) h (f, d) = ground (arith, f)
has-set (suc i) l j (y ∷ ys) h (f, d) =
    ground (arith, has-set i l j ys (omega arith) d, has-get_or i ys (omega arith))

Distinct-set :
    (i l : ℕ) (ys : List ℕ) → i < length ys → Distinct ys → has l ys ≡ false → Distinct (set ys i l)
unfolding has
Distinct-set i l [] h d n = absurd (omega arith)
Distinct-set zero l (y ∷ ys) h (f, d) n = (ground arith, d)
Distinct-set (suc i) l (y ∷ ys) h (f, d) n = (
  ground (arith, has-set i l y ys (omega arith) d),
  Distinct-set i l ys (omega arith) d (ground arith),
)

Distinct-init : (l : ℕ) (ys : List ℕ) → Distinct (ys ++ l ∷ []) → Distinct ys × (has l ys ≡ false)
unfolding has
Distinct-init l [] d = (tt, refl)
Distinct-init l (y ∷ ys) (f, d) =
    let (e, n) = Distinct-init l ys d in
    ((ground (arith, has-append y ys (l ∷ [])), e), ground (arith, has-append y ys (l ∷ [])))

-- The list that is left behind, one shorter: the address at `i` is gone, the others stay.
pub record Removed (ip : ℕ) (before after : List ℕ) : Type 0 where
  pub members : (j : ℕ) → has j after ≡ (has j before && not (j == ip))
  pub distinct : Distinct after

module _ (m i ip : ℕ) (ps : List ℕ) (below : m < length ps) (in_range : i < suc m)
    (here : get_or ps i 0 ≡ ip) (d : Distinct (take (suc m) ps)) where
  last : ℕ
  last = get_or ps m 0

  split : take (suc m) ps ≡ take m ps ++ last ∷ []
  unfolding last
  split = take-suc m ps below

  parts : Distinct (take m ps) × (has last (take m ps) ≡ false)
  parts = Distinct-init last (take m ps) (rw split at d)

  Removed-end : i ≡ m → Removed ip (take (suc m) ps) (take m (set ps i last))
  unfolding has last
  Removed-end e = record {
    members = λ j.
        rw (e, take-set_same m last ps, split)
          (ground (arith, has-append j (take m ps) (last ∷ []), parts.1, here));
    distinct = rw (e, take-set_same m last ps) parts.0;
  }

  Removed-inner : i < m → Removed ip (take (suc m) ps) (take m (set ps i last))
  unfolding has
  Removed-inner lt =
      let short : i < length (take m ps) = omega (arith, length-take m ps) in
      let at_i : get_or (take m ps) i 0 ≡ ip = get_or-take m i ps lt ∙ here in
      record {
        members = λ j.
            rw (take-set_below m i last ps lt, split)
              (ground (
                arith,
                has-append j (take m ps) (last ∷ []),
                has-set i last j (take m ps) short parts.0,
                has-get_or i (take m ps) short,
                at_i,
                parts.1,
              ));
        distinct =
            rw (take-set_below m i last ps lt)
              (Distinct-set i last (take m ps) short parts.0 parts.1);
      }

  -- Moving the last address of the listed part into the place of `ip` removes `ip` from it.
  pub Removed-swap : Removed ip (take (suc m) ps) (take m (set ps i (get_or ps m 0)))
  unfolding last
  Removed-swap = elim (dec_lt i m) [ yes lt ↦ Removed-inner lt | no ge ↦ Removed-end (omega arith) ]

pub Removed-swap_of_eq :
    (n m i ip : ℕ) (ps : List ℕ)
    → n ≡ suc m
    → m < length ps
    → i < n
    → get_or ps i 0 ≡ ip
    → Distinct (take n ps)
    → Removed ip (take n ps) (take m (set ps i (get_or ps m 0)))
Removed-swap_of_eq n m i ip ps e below lt here d =
    rw e (Removed-swap m i ip ps below (omega arith) here (rw e at d))
