-- ===== src/Scheduling/Ending/Main.antt =====
-- Every step of the main thread that changes the state lowers the rank.
use mathlib.Core.Path.{subst}
use networks_dartsync.Base.{
  ℕ, suc, ◌+◌, ◌-◌, ◌≤◌, ◌<◌, ◌≡◌, ◌≢◌, refl, sym, ap, ◌∙◌, List, Bool, true, false, arith, ltb,
  ◌==◌, if◌then◌else◌, length, get_or, set, Bool-cases, Option-cases, inl, inr, ltb→lt, ℕ_discrete,
}
use networks_dartsync.Base.Bytes.{Bytes}
use networks_dartsync.Assembly.{Temps, get_available_peer_idx, is_all_zero}
use networks_dartsync.Scheduling.{
  Job, Worker, started, Main, starting, waiting, passing, finding, left, State, update, create,
}
use networks_dartsync.Scheduling.Table.{get_or-set, update-same}
use networks_dartsync.Scheduling.Next.{next_move}
use networks_dartsync.Scheduling.Invariant.{slot_of, Inv, Place}
use networks_dartsync.Scheduling.Place.{available-free}
use networks_dartsync.Scheduling.Ending.Complete.{short, Wants, Ready}
use networks_dartsync.Scheduling.Ending.Sums.{
  sum, sum_eq, sum_change, times, has, taken, taken-none, taken-eq,
}
use networks_dartsync.Scheduling.Ending.Rank.{
  worker_rank, round_rank, main_rank, slot_rank, peer_rank, rank,
}
use networks_dartsync.Scheduling.Ending.Threads.{Lowers}

created-sum :
    (job : Job) (workers : ℕ → Worker) (created peer slot : ℕ)
    → sum (suc created) (λ k. worker_rank job (update workers created (started peer slot) k))
      ≡ sum created (λ k. worker_rank job (workers k)) + (job.size + 2)
created-sum job workers created peer slot =
    let rest =
      sum_eq created (λ k. worker_rank job (update workers created (started peer slot) k))
        (λ k. worker_rank job (workers k)) (λ k l. ground arith) in
    let new = ap (worker_rank job) (update-same workers created (started peer slot)) in
    omega (arith, rest, new)

module _ (job : Job) (temps : Temps) (workers : ℕ → Worker) (created peer slot : ℕ) where
  -- The piece of a new thread counts no longer, and the others as before.
  created-slot :
      (i : ℕ)
      → i ≢ slot
      → slot_rank job temps (update workers created (started peer slot)) (suc created) i
        ≡ slot_rank job temps workers created i
  created-slot i other =
      ap (λ b. if b then 0 else (if short job temps i then round_rank job else 0))
        (new ∙ taken-eq (update workers created (started peer slot)) workers created i before)
    where
      new :
          taken (update workers created (started peer slot)) (suc created) i
          ≡ taken (update workers created (started peer slot)) created i
      new =
          let b : (created == created) ≡ true = ground arith in
          let c : (i == slot) ≡ false = ground arith in rw (b, c) refl

      before :
          (k : ℕ)
          → k < created
          → has i (slot_of (update workers created (started peer slot) k))
            ≡ has i (slot_of (workers k))
      before k l = let b : (created == k) ≡ false = ground arith in rw b refl

  created-own :
      slot_rank job temps (update workers created (started peer slot)) (suc created) slot ≡ 0
  created-own =
      let b : (created == created) ≡ true = ground arith in
      let c : (slot == slot) ≡ true = ground arith in rw (b, c) refl

  created-slots :
      slot < job.num_tmpt_file
      → sum job.num_tmpt_file
            (slot_rank job temps (update workers created (started peer slot)) (suc created))
          + slot_rank job temps workers created slot
        ≡ sum job.num_tmpt_file (slot_rank job temps workers created)
  created-slots l =
      let change =
        sum_change job.num_tmpt_file slot
          (slot_rank job temps (update workers created (started peer slot)) (suc created))
          (slot_rank job temps workers created) l
          (λ j _ other. created-slot j (λ e. other (sym e))) in
      omega (arith, change, created-own)

created-peers :
    (job : Job) (flags : List ℕ) (peer : ℕ)
    → peer < job.num_peers
    → job.num_peers ≤ length flags
    → get_or flags peer 0 ≡ 0
    → sum job.num_peers (peer_rank job (set flags peer 1)) ≡ sum job.num_peers (peer_rank job flags)
created-peers job flags peer l enough was =
    sum_eq job.num_peers (peer_rank job (set flags peer 1)) (peer_rank job flags) (λ i m.
      elim (ℕ_discrete peer i) [
        | yes same ↦
            let b : (peer == i) ≡ true = ground arith in
            rw (get_or-set flags peer i 1 (omega arith), b, ← same, was) refl
        | no other ↦
            let b : (peer == i) ≡ false = ground arith in
            rw (get_or-set flags peer i 1 (omega arith), b) refl
      ])

module _ (job : Job) (content : Bytes) where
  at-Lowers :
      (m m' : Main) (s : State)
      → s.main ≡ m
      → main_rank job m' < main_rank job m
      → Lowers job s (record s { main = m' })
  unfolding rank
  at-Lowers m m' s e less = inr (omega (arith, less, ap (main_rank job) e))

  create-Lowers :
      (m m' : Main) (s : State) (peer slot : ℕ)
      → s.main ≡ m
      → Inv job content s
      → slot < job.num_tmpt_file
      → peer < job.num_peers
      → get_or s.peer_flag peer 0 ≡ 0
      → main_rank job m' + (job.size + 2)
        < main_rank job m + slot_rank job s.temps s.workers s.created slot
      → Lowers job s (create peer slot (record s { main = m' }))
  unfolding rank create
  create-Lowers m m' s peer slot e h l p free less =
      let a = created-slots job s.temps s.workers s.created peer slot l in
      let b = created-peers job s.peer_flag peer p h.table.enough free in
      let c = created-sum job s.workers s.created peer slot in
      inr (omega (arith, a, b, c, less, ap (main_rank job) e))

  pub next_move-Lowers :
      (m : Main) (s : State)
      → s.main ≡ m
      → Inv job content s
      → Ready job s.main s.temps s.workers
      → Lowers job s (next_move job m s)
  unfolding next_move
  next_move-Lowers (starting i) s e h r = elim (Bool-cases (ltb i job.num_peers)) [
    | inl more ↦
        let l = ltb→lt i job.num_peers more in
        let p = subst (λ m. Place job m s.peer_flag s.temps s.workers) e h.place in
        let (same, _, free) = p.fits in
        let split : job.num_peers - i ≡ suc (job.num_peers - (i + 1)) = omega arith in
        let step = ap (λ n. times n (job.size + 3)) split in
        rw more (
          create-Lowers (starting i) (starting (i + 1)) s i i e h (omega (arith, same)) l
            (free i (omega arith)) (omega (arith, step)))
    | inr past ↦ rw past (at-Lowers (starting i) waiting s e (omega arith))
  ]
  next_move-Lowers waiting s e h r = elim (Bool-cases (is_all_zero job.num_peers s.peer_flag)) [
    | inl z ↦ rw z (at-Lowers waiting (passing 0 false) s e (omega arith))
    | inr busy ↦ rw busy (inl refl)
  ]
  next_move-Lowers (passing i mark) s e h r = elim (Bool-cases (ltb i job.num_tmpt_file)) [
    | inl more ↦
        let l = ltb→lt i job.num_tmpt_file more in
        elim (Bool-cases (short job s.temps i)) [
          | inl is_short ↦
              rw (more, is_short) (at-Lowers (passing i mark) (finding i) s e (finds i mark l))
          | inr long ↦
              rw (more, long)
                (at-Lowers (passing i mark) (passing (i + 1) mark) s e (passes i mark l))
        ]
    | inr past ↦
        rw past (at-Lowers (passing i mark) (if mark then waiting else left) s e (behind i mark))
  ]
    where
      finds :
          (i : ℕ) (mark : Bool)
          → i < job.num_tmpt_file
          → main_rank job (finding i) < main_rank job (passing i mark)
      finds i true l = omega arith
      finds i false l = omega arith

      passes :
          (i : ℕ) (mark : Bool)
          → i < job.num_tmpt_file
          → main_rank job (passing (i + 1) mark) < main_rank job (passing i mark)
      passes i true l = omega arith
      passes i false l = omega arith

      behind :
          (i : ℕ) (mark : Bool)
          → main_rank job (if mark then waiting else left) < main_rank job (passing i mark)
      behind i true = omega arith
      behind i false = omega arith
  next_move-Lowers (finding i) s e h r =
      elim (Option-cases (get_available_peer_idx job.num_peers s.peer_flag)) [
        | inl nobody ↦ rw (next_move, nobody) (inl refl)
        | inr (peer, found) ↦
            let (p, free) = available-free job.num_peers s.peer_flag peer found in
            let q = subst (λ m. Place job m s.peer_flag s.temps s.workers) e h.place in
            let l = q.fits in
            let is_short : short job s.temps i ≡ true =
              subst (λ m. Wants job m s.temps) e r.wants in
            let idle = taken-none s.workers s.created i (λ k t. omega (arith, q.below k i t)) in
            let costs : slot_rank job s.temps s.workers s.created i ≡ round_rank job =
              rw (idle, is_short) refl in
            rw (next_move, found)
              (create-Lowers (finding i) (passing (i + 1) true) s peer i e h l p free
                (omega (arith, costs, l)))
      ]
  next_move-Lowers left s e h r = inl refl
