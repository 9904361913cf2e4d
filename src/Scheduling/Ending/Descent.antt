-- ===== src/Scheduling/Ending/Descent.antt =====
-- A step that changes the state of a download lowers its rank.
use networks_dartsync.Base.{
  ℕ, ◌+◌, ◌≤◌, ◌<◌, ◌≡◌, ◌≢◌, refl, sym, ap, ◌∙◌, List, Bool, true, false, none, some, arith, ◌==◌,
  if◌then◌else◌, dec_lt, ℕ_discrete,
}
use networks_dartsync.Assembly.{Temps}
use networks_dartsync.Scheduling.{Job, Worker, absent, update}
use networks_dartsync.Scheduling.Table.{update-same}
use networks_dartsync.Scheduling.Invariant.{slot_of, Table}
use networks_dartsync.Scheduling.Ending.Complete.{short, Kept, Kept-short}
use networks_dartsync.Scheduling.Ending.Sums.{
  sum, sum_eq, sum_change, has, taken, taken-here, taken-eq,
}
use networks_dartsync.Scheduling.Ending.Rank.{worker_rank, round_rank, slot_rank}

-- A thread that runs is one of those that were created.
pub created-lt :
    {n created : ℕ} {flags : List ℕ} {workers : ℕ → Worker}
    → Table n flags created workers
    → (k slot : ℕ) → slot_of (workers k) ≡ some slot
    → k < created
created-lt {created} {workers} t k slot runs = elim (dec_lt k created) [
  | yes l ↦ l
  | no late ↦
      let gone : workers k ≡ absent = t.fresh k (omega arith) in
      absurd (ground (arith, runs, ap slot_of gone))
]

module _ (job : Job) (workers : ℕ → Worker) (created k slot : ℕ) (w : Worker) (l : k < created)
    (runs : slot_of (workers k) ≡ some slot) where
  -- The steps of the threads that are left.
  pub workers-sum :
      sum created (λ j. worker_rank job (update workers k w j)) + worker_rank job (workers k)
      ≡ sum created (λ j. worker_rank job (workers j)) + worker_rank job w
  workers-sum =
      sum_change created k (λ j. worker_rank job (update workers k w j))
        (λ j. worker_rank job (workers j)) l (λ j m other. ground arith)
      ∙ ap (λ x. sum created (λ j. worker_rank job (workers j)) + worker_rank job x)
          (update-same workers k w)

  -- A thread that goes on: no piece counts more than before.
  pub slots-on :
      (temps temps' : Temps)
      → slot_of w ≡ some slot
      → Kept job slot temps temps'
      → sum job.num_tmpt_file (slot_rank job temps' (update workers k w) created)
        ≡ sum job.num_tmpt_file (slot_rank job temps workers created)
  slots-on temps temps' same kept =
      sum_eq job.num_tmpt_file (slot_rank job temps' (update workers k w) created)
        (slot_rank job temps workers created)
        (λ i m.
          let t : taken (update workers k w) created i ≡ taken workers created i =
            taken-eq (update workers k w) workers created i (λ j _. ap (has i) (slots j)) in
          elim (ℕ_discrete slot i) [
            | yes own ↦
                let here : taken workers created i ≡ true =
                  taken-here workers created k i l (runs ∙ ap (λ (n : ℕ). some n) own) in
                rw (t, here) refl
            | no other ↦ rw (t, Kept-short job slot temps temps' kept i m other) refl
          ])
    where
      slots : (j : ℕ) → slot_of (update workers k w j) ≡ slot_of (workers j)
      slots j = elim (ℕ_discrete k j) [
        | yes e ↦ let b : (k == j) ≡ true = ground arith in rw (b, ← e) (same ∙ sym runs)
        | no other ↦ let b : (k == j) ≡ false = ground arith in rw b refl
      ]

  -- A thread that ends: its piece may count again.
  pub slots-over :
      (temps : Temps)
      → slot < job.num_tmpt_file
      → slot_of w ≡ none
      → sum job.num_tmpt_file (slot_rank job temps (update workers k w) created)
        ≤ sum job.num_tmpt_file (slot_rank job temps workers created)
          + (if short job temps slot then round_rank job else 0)
  slots-over temps m gone =
      let f = slot_rank job temps (update workers k w) created in
      let g = slot_rank job temps workers created in
      let here : taken workers created slot ≡ true = taken-here workers created k slot l runs in
      let old : g slot ≡ 0 = rw here refl in
      let change = sum_change job.num_tmpt_file slot f g m (λ i _ other.
        ap (λ b. if b then 0 else (if short job temps i then round_rank job else 0))
          (taken-eq (update workers k w) workers created i (λ j _. others i other j))) in
      omega (arith, change, old, most (taken (update workers k w) created slot))
    where
      most :
          (b : Bool)
          → (if b then 0 else (if short job temps slot then round_rank job else 0))
            ≤ (if short job temps slot then round_rank job else 0)
      most true = omega arith
      most false = omega arith

      others :
          (i : ℕ)
          → slot ≢ i
          → (j : ℕ) → has i (slot_of (update workers k w j)) ≡ has i (slot_of (workers j))
      others i other j = elim (ℕ_discrete k j) [
        | yes e ↦
            let b : (k == j) ≡ true = ground arith in
            let n : (i == slot) ≡ false = ground arith in rw (b, ← e, runs, gone, n) refl
        | no differ ↦ let b : (k == j) ≡ false = ground arith in rw b refl
      ]
