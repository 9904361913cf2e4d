-- ===== src/Scheduling/Ending/Passes.antt =====
-- What is complete stays so with every step of the main thread.
use networks_dartsync.Base.{
  ℕ, ◌+◌, ◌≡◌, Bool, true, false, ltb, if◌then◌else◌, Bool-cases, Option-cases, inl, inr,
}
use networks_dartsync.Assembly.{get_available_peer_idx, is_all_zero}
use networks_dartsync.Scheduling.{
  Job, started, Main, starting, waiting, passing, finding, left, State, update, create,
}
use networks_dartsync.Scheduling.Next.{next_move}
use networks_dartsync.Scheduling.Ending.Complete.{short, Wants, Ready}
use networks_dartsync.Scheduling.Ending.Ready.{update-Fills}

main-Ready :
    (job : Job) (m : Main) (s : State)
    → Wants job m s.temps
    → Ready job s.main s.temps s.workers
    → Ready job m s.temps s.workers
main-Ready job m s w r = record { fills = r.fills; wants = w }

create-Ready :
    (job : Job) (m : Main) (s : State) (peer slot : ℕ)
    → Wants job m s.temps
    → Ready job s.main s.temps s.workers
    → Ready job m s.temps (update s.workers s.created (started peer slot))
create-Ready job m s peer slot w r = record {
  fills =
      update-Fills job s.temps s.workers s.created (started peer slot) tt (λ j other. r.fills j);
  wants = w;
}

pub next_move-Ready :
    (job : Job) (m : Main) (s : State)
    → s.main ≡ m
    → Ready job s.main s.temps s.workers
    → Ready job (next_move job m s).main (next_move job m s).temps (next_move job m s).workers
unfolding next_move create
next_move-Ready job (starting i) s e r = elim (Bool-cases (ltb i job.num_peers)) [
  | inl more ↦ rw more (create-Ready job (starting (i + 1)) s i i tt r)
  | inr past ↦ rw past (main-Ready job waiting s tt r)
]
next_move-Ready job waiting s e r = elim (Bool-cases (is_all_zero job.num_peers s.peer_flag)) [
  | inl z ↦ rw z (main-Ready job (passing 0 false) s tt r)
  | inr busy ↦ rw busy r
]
next_move-Ready job (passing i mark) s e r = elim (Bool-cases (ltb i job.num_tmpt_file)) [
  | inl more ↦ elim (Bool-cases (short job s.temps i)) [
    | inl is_short ↦ rw (more, is_short) (main-Ready job (finding i) s is_short r)
    | inr long ↦ rw (more, long) (main-Ready job (passing (i + 1) mark) s tt r)
  ]
  | inr past ↦ rw past (behind mark)
]
  where
    behind : (mark : Bool) → Ready job (if mark then waiting else left) s.temps s.workers
    behind true = main-Ready job waiting s tt r
    behind false = main-Ready job left s tt r
next_move-Ready job (finding i) s e r =
    elim (Option-cases (get_available_peer_idx job.num_peers s.peer_flag)) [
      | inl nobody ↦ rw (next_move, nobody) r
      | inr (peer, found) ↦
          rw (next_move, found) (create-Ready job (passing (i + 1) true) s peer i tt r)
    ]
next_move-Ready job left s e r = r
