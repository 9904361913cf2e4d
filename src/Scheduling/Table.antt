-- ===== src/Scheduling/Table.antt =====
-- The table of the flags and the threads is kept where a thread is created, goes on or ends.
use networks_dartsync.Base.{
  ℕ, zero, suc, ◌≤◌, ◌<◌, ◌≡◌, ◌≢◌, refl, ◌∙◌, List, [], ◌∷◌, some, arith, ◌==◌, if◌then◌else◌,
  length, get_or, set, length-set, ℕ_discrete,
}
use networks_dartsync.Scheduling.{Worker, started, over, absent, update}
use networks_dartsync.Scheduling.Invariant.{peer_of, slot_of, Table}

pub get_or-set :
    (xs : List ℕ) (i j v : ℕ)
    → i < length xs
    → get_or (set xs i v) j 0 ≡ (if i == j then v else get_or xs j 0)
get_or-set [] i j v h = absurd (omega arith)
get_or-set (x ∷ xs) zero zero v h = refl
get_or-set (x ∷ xs) zero (suc j) v h = ground arith
get_or-set (x ∷ xs) (suc i) zero v h = ground arith
get_or-set (x ∷ xs) (suc i) (suc j) v h = get_or-set xs i j v (omega arith) ∙ ground arith

pub update-same {ℓ} : {A : Type ℓ} (f : ℕ → A) (i : ℕ) (a : A) → update f i a i ≡ a
update-same f i a = ground arith

module _ {n created : ℕ} {flags : List ℕ} {workers : ℕ → Worker}
    (t : Table n flags created workers) where
  open t use {enough, small, fresh, flagged, busy, one_each, one_piece}

  pub Table-create :
      (peer slot : ℕ)
      → peer < n
      → get_or flags peer 0 ≡ 0
      → ((k : ℕ) → slot_of (workers k) ≢ some slot)
      → Table n (set flags peer 1) (suc created) (update workers created (started peer slot))
  Table-create peer slot h free new = record {
    enough = omega (arith, length-set flags peer 1);
    small = λ i. ground (arith, small i, get_or-set flags peer i 1);
    fresh = λ k l. ground (arith, fresh k);
    flagged = λ i e. elim (ℕ_discrete peer i) [
      | yes same ↦ (created, ground arith)
      | no other ↦
          let old : get_or flags i 0 ≡ 1 = ground (arith, get_or-set flags peer i 1) in
          let (k, e) = flagged i old in (k, ground (arith, fresh k))
    ];
    busy = λ k i e. ground (arith, busy k i, get_or-set flags peer i 1);
    one_each = λ j k i a b. ground (arith, busy j i, busy k i, one_each j k i);
    one_piece = λ j k i a b. ground (arith, new j, new k, one_piece j k i);
  }

  pub Table-update :
      (k : ℕ) (w : Worker)
      → workers k ≢ absent
      → peer_of w ≡ peer_of (workers k)
      → slot_of w ≡ slot_of (workers k)
      → Table n flags created (update workers k w)
  Table-update k w there p s = record {
    enough = enough;
    small = small;
    fresh = λ j l. ground (arith, fresh j, fresh k);
    flagged = λ i e. let (j, e) = flagged i e in (j, ground arith);
    busy = λ j i e. ground (arith, busy j i, busy k i);
    one_each = λ j l i a b. ground (arith, one_each j l i, one_each k l i, one_each j k i);
    one_piece = λ j l i a b. ground (arith, one_piece j l i, one_piece k l i, one_piece j k i);
  }

  pub Table-end :
      (k peer flag : ℕ)
      → peer_of (workers k) ≡ some peer
      → flag ≢ 1
      → flag ≤ 2
      → Table n (set flags peer flag) created (update workers k over)
  Table-end k peer flag e ended le = record {
    enough = omega (arith, length-set flags peer flag);
    small = λ i. ground (arith, small i, get_or-set flags peer i flag, busy k peer e);
    fresh = λ j l. ground (arith, fresh j, fresh k);
    flagged = λ i h.
        let other : peer ≢ i =
          λ same. ground (arith, get_or-set flags peer i flag, busy k peer e) in
        let (j, e') = flagged i (ground (arith, get_or-set flags peer i flag, busy k peer e)) in
        (j, ground arith);
    busy = λ j i h.
        ground (arith, busy j i, get_or-set flags peer i flag, busy k peer e, one_each j k i);
    one_each = λ j l i a b. ground (arith, one_each j l i);
    one_piece = λ j l i a b. ground (arith, one_piece j l i);
  }
