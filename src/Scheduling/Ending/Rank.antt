-- ===== src/Scheduling/Ending/Rank.antt =====
-- How many steps a download has before it at most, as long as they change the state.
use networks_dartsync.Base.{
  ℕ, ◌+◌, ◌-◌, ◌*◌, List, true, false, ◌==◌, if◌then◌else◌, length, get_or,
}
use networks_dartsync.Assembly.{Temps}
use networks_dartsync.Scheduling.{
  Job, Worker, absent, started, working, over, Main, starting, waiting, passing, finding, left,
  State,
}
use networks_dartsync.Scheduling.Ending.Complete.{short}
use networks_dartsync.Scheduling.Ending.Sums.{sum, times, taken}

-- The steps of a thread that are left: its request, a write for each byte, and its end.
abbrev pub worker_rank : Job → Worker → ℕ
worker_rank job absent = 0
worker_rank job (started peer slot) = job.size + 2
worker_rank job (working peer slot todo v) = length todo + 1
worker_rank job over = 0

-- A round of the main thread: the test, two steps for each piece, and back; and a thread.
abbrev pub round_rank : Job → ℕ
round_rank job = 2 * job.num_tmpt_file + job.size + 8

abbrev pub main_rank : Job → Main → ℕ
main_rank job (starting i) = 2 * job.num_tmpt_file + 3 + times (job.num_peers - i) (job.size + 3)
main_rank job waiting = 2 * job.num_tmpt_file + 2
main_rank job (passing i true) = 2 * (job.num_tmpt_file - i) + 2 * job.num_tmpt_file + 3
main_rank job (passing i false) = 2 * (job.num_tmpt_file - i) + 1
main_rank job (finding i) = 2 * (job.num_tmpt_file - i)
main_rank job left = 0

-- A piece that is too short and has no thread may take a round yet, and so may a peer that has not
-- failed.
abbrev pub slot_rank : Job → Temps → (ℕ → Worker) → ℕ → ℕ → ℕ
slot_rank job temps workers created i =
    if taken workers created i then 0 else (if short job temps i then round_rank job else 0)

abbrev pub peer_rank : Job → List ℕ → ℕ → ℕ
peer_rank job flags i = if get_or flags i 0 == 2 then 0 else round_rank job

unfoldable pub rank : Job → State → ℕ
rank job s =
    main_rank job s.main
    + sum job.num_tmpt_file (slot_rank job s.temps s.workers s.created)
    + sum job.num_peers (peer_rank job s.peer_flag)
    + sum s.created (λ k. worker_rank job (s.workers k))
