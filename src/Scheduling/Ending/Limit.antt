-- ===== src/Scheduling/Ending/Limit.antt =====
-- The number of the steps of a download that change the state is limited.
use mathlib.Core.Path.{subst}
use networks_dartsync.Base.{
  ℕ, zero, suc, ◌+◌, ◌-◌, ◌*◌, ◌≤◌, ◌≡◌, ◌≢◌, ◌⊎◌, refl, sym, ap, Bool, true, false, Option, arith,
  ◌==◌, if◌then◌else◌, inl, inr, if_cases,
}
use networks_dartsync.Base.Bytes.{Bytes}
use networks_dartsync.Compression.{Zlib, IsLawful}
use networks_dartsync.Pieces.{Piece}
use networks_dartsync.FileTable.{FileNode, max_peers}
use networks_dartsync.Assembly.{Temps, get_file_size}
use networks_dartsync.Assembly.Download.{AllHold}
use networks_dartsync.Assembly.Begin.Finish.{CanBegin, begun-bounds}
use networks_dartsync.Scheduling.{
  Meeting, Job, Main, left, State, Step, Reach, start, later, download_job, download_start,
}
use networks_dartsync.Scheduling.Invariant.{Inv}
use networks_dartsync.Scheduling.Files.{Answers}
use networks_dartsync.Scheduling.Named.{Named, Step-next}
use networks_dartsync.Scheduling.Safety.{names, Reach-Inv}
use networks_dartsync.Scheduling.Progress.{
  AllFailed, Waits, MovesOn, download_file_multi_thread-MovesOn,
}
use networks_dartsync.Scheduling.Ending.Complete.{Wants, Ready, short}
use networks_dartsync.Scheduling.Ending.Passes.{next_move-Ready}
use networks_dartsync.Scheduling.Ending.Ready.{Takes, worker_move-Ready}
use networks_dartsync.Scheduling.Ending.Sums.{sum, sum_le, times}
use networks_dartsync.Scheduling.Ending.Rank.{round_rank, main_rank, slot_rank, peer_rank, rank}
use networks_dartsync.Scheduling.Ending.Threads.{Lowers, worker_move-Lowers}
use networks_dartsync.Scheduling.Ending.Main.{next_move-Lowers}

-- So many steps that each change the state.
pub data Moving (job : Job) (s : State) : ℕ → State → Type 0 where
  still : Moving job s 0 s
  moved : {n : ℕ} {t u : State} → Moving job s n t → Step job t u → u ≢ t → Moving job s (suc n) u

-- A round for each piece and each peer, and what comes before the first one.
abbrev pub step_limit : Job → ℕ
step_limit job =
    2 * job.num_tmpt_file
    + 3
    + job.num_peers * (job.size + 3)
    + (job.num_tmpt_file + job.num_peers) * (2 * job.num_tmpt_file + job.size + 8)

sum_const : (n c : ℕ) → sum n (λ i. c) ≡ n * c
sum_const zero c = omega arith
sum_const (suc n) c = grind (arith, sum_const n c)

times_eq : (n q : ℕ) → times n q ≡ n * q
times_eq zero q = omega arith
times_eq (suc n) q = grind (arith, times_eq n q)

if_le : (b : Bool) (c : ℕ) → (if b then 0 else c) ≤ c
if_le true c = omega arith
if_le false c = omega arith

if_else_le : (b : Bool) (c : ℕ) → (if b then c else 0) ≤ c
if_else_le true c = omega arith
if_else_le false c = omega arith

start-rank :
    (job : Job) (found : Option Bytes) (temps : Temps)
    → rank job (download_start found temps) ≤ step_limit job
unfolding rank download_start
start-rank job found temps =
    let s = download_start found temps in
    let none_yet : job.num_peers - 0 ≡ job.num_peers = omega arith in
    let all = ap (λ n. times n (job.size + 3)) none_yet in
    let main : main_rank job s.main ≤ 2 * job.num_tmpt_file + 3 + job.num_peers * (job.size + 3) =
      if_cases
        (λ (m : Main). main_rank job m ≤ 2 * job.num_tmpt_file + 3 + job.num_peers * (job.size + 3))
        (get_file_size found == 0) (omega (arith, all, times_eq job.num_peers (job.size + 3)))
        (omega arith) in
    let slots =
      sum_le job.num_tmpt_file (slot_rank job temps s.workers 0) (λ i. round_rank job)
        (λ i l. if_else_le (short job temps i) (round_rank job)) in
    let peers =
      sum_le job.num_peers (peer_rank job s.peer_flag) (λ i. round_rank job)
        (λ i l. if_le _ (round_rank job)) in
    grind (
      arith,
      main,
      slots,
      peers,
      sum_const job.num_tmpt_file (round_rank job),
      sum_const job.num_peers (round_rank job),
    )

module _ (z : Zlib) (meets : ℕ → Piece → Bytes → Meeting) (f : FileNode) (found : Option Bytes)
    (content : Bytes) (temps : Temps) (lawful : IsLawful z) (v : CanBegin f found content)
    (peers : f.num_peers ≤ max_peers) (held : AllHold content temps)
    (answers : Answers (download_job z meets f found) content)
    (takes : Takes (download_job z meets f found)) where
  abbrev job : Job
  job = download_job z meets f found

  abbrev first : State
  first = download_start found temps

  job_names : Named job
  job_names = names z meets f found content temps lawful v peers held answers

  Moving-Reach : {n : ℕ} {s : State} → Moving job first n s → Reach job first s
  Moving-Reach still = start
  Moving-Reach (moved m step other) = later (Moving-Reach m) step

  Moving-Inv : {n : ℕ} {s : State} → Moving job first n s → Inv job content s
  Moving-Inv m =
      Reach-Inv z meets f found content temps lawful v peers held answers (Moving-Reach m)

  ReadyIn : State → Type 0
  ReadyIn s = Ready job s.main s.temps s.workers

  Moving-Ready : {n : ℕ} {s : State} → Moving job first n s → Ready job s.main s.temps s.workers
  unfolding download_start download_job ReadyIn
  Moving-Ready still = record {
    fills = λ k. tt;
    wants = if_cases (λ m. Wants job m temps) (get_file_size found == 0) tt tt;
  }
  Moving-Ready (moved {t = t} m step other) =
      elim (Step-next job job_names content t (Moving-Inv m) step) [
        | inl e ↦ subst ReadyIn (sym e) (next_move-Ready job t.main t refl (Moving-Ready m))
        | inr (k, more, e) ↦
            let (one, few) = begun-bounds f found content v in
            subst ReadyIn (sym e) (
              worker_move-Ready job content (omega (arith, v.size, v.small)) few one takes
                (t.workers k) k more t refl (Moving-Inv m) (Moving-Ready m))
      ]

  Step-Lowers :
      {n : ℕ} {s t : State}
      → Moving job first n s
      → Step job s t
      → Inv job content t
      → Lowers job s t
  unfolding download_job
  Step-Lowers {s = s} m step h = elim (Step-next job job_names content s (Moving-Inv m) step) [
    | inl e ↦
        subst (Lowers job s) (sym e)
          (next_move-Lowers job content s.main s refl (Moving-Inv m) (Moving-Ready m))
    | inr (k, more, e) ↦
        let (one, few) = begun-bounds f found content v in
        subst (Lowers job s) (sym e) (
          worker_move-Lowers job content (sym v.size) (omega (arith, v.size, v.small)) few one
            (s.workers k) k more s refl (Moving-Inv m) (subst (Inv job content) e h)
            (Moving-Ready m))
  ]

  Moving-rank : {n : ℕ} {s : State} → Moving job first n s → n + rank job s ≤ rank job first
  Moving-rank still = omega arith
  Moving-rank (moved {n} {t} {u} m step other) =
      elim (Step-Lowers m step (Moving-Inv (moved m step other))) [
        | inl same ↦ absurd (other same)
        | inr less ↦ omega (arith, less, Moving-rank m)
      ]

  -- A download of a file whose name has no "__", does not end in "_" and has fewer than 125
  -- characters ends, with one of three results. If the disk takes what arrives, there is a limit to
  -- the number of steps that change the state, in any order of the threads. After any number of
  -- them, the main thread is behind its loop; or it looks for a peer while every peer has failed; or
  -- a thread waits in `recv` for ever; or there is a further step that changes the state.
  pub download_file_multi_thread-ends :
      (n : ℕ) (s : State)
      → Moving job first n s
      → (n ≤ step_limit job) × ((s.main ≡ left) ⊎ (AllFailed job s ⊎ (Waits s ⊎ MovesOn job s)))
  download_file_multi_thread-ends n s m = (
    omega (arith, Moving-rank m, start-rank job found temps),
    download_file_multi_thread-MovesOn z meets f found content temps lawful v peers held answers s
        (Moving-Reach m),
  )
