-- ===== src/Scheduling/Next.antt =====
-- The step of the main thread of `download_file_multi_thread` (utils/peer2peer.c) for a file whose
-- names are read back.
use networks_dartsync.Base.{◌+◌, false, true, none, some, ltb, if◌then◌else◌}
use networks_dartsync.Assembly.{get_file_size, get_available_peer_idx, is_all_zero}
use networks_dartsync.Scheduling.{
  Job, Main, starting, waiting, passing, finding, left, State, at, create, piece_at,
}

module _ (job : Job) where
  unfoldable pub next_move : Main → State → State
  next_move (starting i) s =
      if ltb i job.num_peers then create i i (at (starting (i + 1)) s) else at waiting s
  next_move waiting s = if is_all_zero job.num_peers s.peer_flag then at (passing 0 false) s else s
  next_move (passing i mark) s =
      let next =
        if ltb (get_file_size (s.temps (piece_at job i))) (piece_at job i).len
        then at (finding i) s
        else at (passing (i + 1) mark) s in
      if ltb i job.num_tmpt_file then next else at (if mark then waiting else left) s
  next_move (finding i) s = elim (get_available_peer_idx job.num_peers s.peer_flag) [
    | none ↦ s
    | some peer ↦ create peer i (at (passing (i + 1) true) s)
  ]
  next_move left s = s
