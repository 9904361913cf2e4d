-- ===== src/Scheduling/Ending/Threads.antt =====
-- Every step of a thread of `download_handler` that changes the state lowers the rank.
use mathlib.Core.Path.{subst}
use networks_dartsync.Base.{
  ℕ, ◌+◌, ◌≤◌, ◌<◌, ◌≡◌, ◌⊎◌, refl, ap, ◌∙◌, List, [], ◌∷◌, Bool, true, false, some, arith, ◌==◌,
  if◌then◌else◌, length, get_or, set, drop, length-append, length-take, length-drop, inl, inr,
  ℕ_discrete,
}
use networks_dartsync.Base.Bytes.{Bytes}
use networks_dartsync.Pieces.{slice}
use networks_dartsync.Pieces.Tiling.{int_limit}
use networks_dartsync.Transfer.{Verdict, finished, failed, stalled, out_of_fuel}
use networks_dartsync.Assembly.{Temps}
use networks_dartsync.Scheduling.{
  Job, Worker, absent, started, working, over, State, bytes_of, opens, piece_at, outcome, update,
  worker_move, request, end_thread, flag_of,
}
use networks_dartsync.Scheduling.Table.{get_or-set, update-same}
use networks_dartsync.Scheduling.Invariant.{peer_of, slot_of, Due, Inv}
use networks_dartsync.Scheduling.Moves.{slot-lt}
use networks_dartsync.Scheduling.Ending.Complete.{short, Fills, Ready, Kept}
use networks_dartsync.Scheduling.Ending.Sums.{sum, sum_eq, sum_change}
use networks_dartsync.Scheduling.Ending.Rank.{worker_rank, round_rank, peer_rank, rank}
use networks_dartsync.Scheduling.Ending.Ready.{Kept-write, Kept-open}
use networks_dartsync.Scheduling.Ending.Descent.{created-lt, workers-sum, slots-on, slots-over}

-- What a step does to the rank.
abbrev pub Lowers : Job → State → State → Type 0
Lowers job s t = (t ≡ s) ⊎ (rank job t < rank job s)

module _ (job : Job) (flags : List ℕ) (peer : ℕ) (l : peer < job.num_peers)
    (enough : job.num_peers ≤ length flags) (was : get_or flags peer 0 ≡ 1) where
  peers-freed :
      sum job.num_peers (peer_rank job (set flags peer 0)) ≡ sum job.num_peers (peer_rank job flags)
  peers-freed =
      sum_eq job.num_peers (peer_rank job (set flags peer 0)) (peer_rank job flags) (λ i m.
        elim (ℕ_discrete peer i) [
          | yes same ↦
              let b : (peer == i) ≡ true = ground arith in
              rw (get_or-set flags peer i 0 (omega arith), b, ← same, was) refl
          | no other ↦
              let b : (peer == i) ≡ false = ground arith in
              rw (get_or-set flags peer i 0 (omega arith), b) refl
        ])

  peers-failed :
      sum job.num_peers (peer_rank job (set flags peer 2)) + round_rank job
      ≡ sum job.num_peers (peer_rank job flags)
  peers-failed =
      let f = peer_rank job (set flags peer 2) in
      let g = peer_rank job flags in
      let b : (peer == peer) ≡ true = ground arith in
      let new : f peer ≡ 0 = rw (get_or-set flags peer peer 2 (omega arith), b) refl in
      let old : g peer ≡ round_rank job = rw was refl in
      let change = sum_change job.num_peers peer f g l (λ i m other.
        let c : (peer == i) ≡ false = ground arith in
        rw (get_or-set flags peer i 2 (omega arith), c) refl) in
      omega (arith, change, new, old)

module _ (job : Job) (content : Bytes) (whole : length content ≡ job.size)
    (small : job.size < int_limit) (few : job.num_tmpt_file < int_limit)
    (one : 0 < job.num_tmpt_file) where
  -- A thread that runs and goes on with fewer steps left.
  going-Lowers :
      (s : State) (k slot : ℕ) (w : Worker) (temps' : Temps)
      → Inv job content s
      → slot_of (s.workers k) ≡ some slot
      → slot_of w ≡ some slot
      → Kept job slot s.temps temps'
      → worker_rank job w < worker_rank job (s.workers k)
      → Lowers job s (record s { temps = temps'; workers = update s.workers k w })
  unfolding rank
  going-Lowers s k slot w temps' h runs same kept less =
      let l = created-lt h.table k slot runs in
      let a = workers-sum job s.workers s.created k slot w l runs in
      let b = slots-on job s.workers s.created k slot w l runs s.temps temps' same kept in
      inr (omega (arith, a, b, less))

  ending-Lowers :
      (s : State) (k peer slot : ℕ) (v : Verdict)
      → s.workers k ≡ working peer slot [] v
      → Inv job content s
      → Ready job s.main s.temps s.workers
      → Lowers job s (end_thread k peer (flag_of v) s)
  unfolding rank end_thread
  ending-Lowers s k peer slot stalled e h r = inl refl
  ending-Lowers s k peer slot out_of_fuel e h r = inl refl
  ending-Lowers s k peer slot finished e h r =
      let runs : slot_of (s.workers k) ≡ some slot = ap slot_of e in
      let l = created-lt h.table k slot runs in
      let (p, was) = h.table.busy k peer (ap peer_of e) in
      let a = workers-sum job s.workers s.created k slot over l runs in
      let b =
        slots-over job s.workers s.created k slot over l runs s.temps
          (slot-lt job content s h k slot runs) refl in
      let full = (subst (Fills job s.temps) e (r.fills k)) refl in
      let long : short job s.temps slot ≡ false = ground (arith, full) in
      let c : (if short job s.temps slot then round_rank job else 0) ≡ 0 = rw long refl in
      let d = peers-freed job s.peer_flag peer p h.table.enough was in
      let old : worker_rank job (s.workers k) ≡ 1 = ap (worker_rank job) e in
      inr (omega (arith, a, b, c, d, old))
  ending-Lowers s k peer slot failed e h r =
      let runs : slot_of (s.workers k) ≡ some slot = ap slot_of e in
      let l = created-lt h.table k slot runs in
      let (p, was) = h.table.busy k peer (ap peer_of e) in
      let a = workers-sum job s.workers s.created k slot over l runs in
      let b =
        slots-over job s.workers s.created k slot over l runs s.temps
          (slot-lt job content s h k slot runs) refl in
      let c : (if short job s.temps slot then round_rank job else 0) ≤ round_rank job =
        at_most (short job s.temps slot) in
      let d = peers-failed job s.peer_flag peer p h.table.enough was in
      let old : worker_rank job (s.workers k) ≡ 1 = ap (worker_rank job) e in
      inr (omega (arith, a, b, c, d, old))
    where
      at_most : (b : Bool) → (if b then round_rank job else 0) ≤ round_rank job
      at_most true = omega arith
      at_most false = omega arith

  -- A thread has no more bytes to append than the file has.
  todo-le :
      (s : State) (peer slot : ℕ) (todo : Bytes) (v : Verdict) (temps : Temps)
      → slot < job.num_tmpt_file
      → Due job content temps (working peer slot todo v)
      → length todo ≤ job.size
  todo-le s peer slot todo v temps l (fueled, inl done) = omega (arith, ap length done)
  todo-le s peer slot todo v temps l (fueled, inr (bytes, there, (n, e))) = omega (
    arith,
    ap length e,
    length-append bytes todo,
    length-take n (slice (piece_at job slot) content),
    length-take (piece_at job slot).len (drop (piece_at job slot).start content),
    length-drop (piece_at job slot).start content,
    whole,
  )

  pub worker_move-Lowers :
      (w : Worker) (k more : ℕ) (s : State)
      → s.workers k ≡ w
      → Inv job content s
      → Inv job content (worker_move job w k more s)
      → Ready job s.main s.temps s.workers
      → Lowers job s (worker_move job w k more s)
  unfolding worker_move request
  worker_move-Lowers absent k more s e h h' r = inl refl
  worker_move-Lowers over k more s e h h' r = inl refl
  worker_move-Lowers (started peer slot) k more s e h h' r =
      let runs : slot_of (s.workers k) ≡ some slot = ap slot_of e in
      let p = piece_at job slot in
      let before = bytes_of (s.temps p) in
      let m = job.meets k p before in
      let b = opens m.socket m.opened in
      let l = slot-lt job content s h k slot runs in
      let d = outcome job k p before in
      let w = working peer slot (drop (length before) d.temp) d.verdict in
      let temps' = (worker_move job (started peer slot) k more s).temps in
      let due = subst (Due job content temps') (update-same s.workers k w) (h'.files.due k) in
      let fewer = todo-le s peer slot (drop (length before) d.temp) d.verdict temps' l due in
      let old : worker_rank job (s.workers k) ≡ job.size + 2 = ap (worker_rank job) e in
      going-Lowers s k slot w _ h runs refl (Kept-open job small few one slot before s.temps b l)
        (omega (arith, fewer, old))
  worker_move-Lowers (working peer slot (c ∷ todo) v) k more s e h h' r =
      let runs : slot_of (s.workers k) ≡ some slot = ap slot_of e in
      let l = slot-lt job content s h k slot runs in
      let old : worker_rank job (s.workers k) ≡ length todo + 2 =
        ap (worker_rank job) e ∙ omega arith in
      going-Lowers s k slot (working peer slot (drop more todo) v) _ h runs refl
        (Kept-write job small few one slot _ s.temps l) (omega (arith, length-drop more todo, old))
  worker_move-Lowers (working peer slot [] v) k more s e h h' r =
      ending-Lowers s k peer slot v e h r
