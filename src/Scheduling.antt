-- ===== src/Scheduling.antt =====
-- The threads of a download while they run, utils/peer2peer.c: `download_file_multi_thread` is in
-- its loops, and the threads of `download_handler` read from their peers and append to their
-- temporary files, in any order. The main thread alone creates threads. It reads the flags one by
-- one, while threads only take a 1 away; so a test of all the flags is one step here. The pieces
-- of the threads of a pass are those that `parse_tmpt_file_name` reads back from the names.
pub mod Invariant
pub mod Table
pub mod Place
pub mod Slots
pub mod Growth
pub mod Writes
pub mod Files
pub mod Next
pub mod Moves
pub mod Named
pub mod Refused
pub mod Safety
pub mod Progress
pub mod Ending
mod Tests
use networks_dartsync.Base.{
  ℕ, zero, suc, ◌+◌, ◌-◌, List, [], ◌∷◌, ◌++◌, Bool, true, false, Option, none, some, ltb, leb,
  ◌==◌, ◌≡◌, if◌then◌else◌, length, take, drop, set,
}
use networks_dartsync.Base.Bytes.{Bytes}
use networks_dartsync.Compression.{Zlib}
use networks_dartsync.Wire.{Socket}
use networks_dartsync.FileTable.{FileNode, zero_peers}
use networks_dartsync.Pieces.{Piece, piece}
use networks_dartsync.Transfer.{
  Verdict, finished, failed, stalled, out_of_fuel, Download, download_handler,
}
use networks_dartsync.Assembly.{
  Temps, get_file_size, same_piece, get_available_peer_idx, is_all_zero,
}
use networks_dartsync.TempName.{name_size}
use networks_dartsync.Assembly.Names.{tempfilename, resumed_piece}
use networks_dartsync.Assembly.Begin.{begun}

abbrev pub update {ℓ} : {A : Type ℓ} → (ℕ → A) → ℕ → A → ℕ → A
update f i a j = if i == j then a else f j

-- What a thread meets: its connection, if there is one, how many sends of the other peer succeed
-- and how many bytes of them arrive, and what the local disk does.
pub record Meeting : Type 0 where
  pub socket : Option Socket
  pub sends : ℕ
  pub arrived : ℕ
  pub opened : Bool
  pub room : ℕ

-- A download: the name, the time stamp and the size of the file, `num_peers`, `num_tmpt_file`, and what the k-th thread meets if
-- its temporary file then holds these bytes of its piece.
pub record Job : Type 0 where
  pub z : Zlib
  pub name : Bytes
  pub timestamp : ℕ
  pub size : ℕ
  pub num_peers : ℕ
  pub num_tmpt_file : ℕ
  pub meets : ℕ → Piece → Bytes → Meeting

-- A thread of `download_handler`, for the peer of the first number and the piece of the second one:
-- before it asks for the size of its temporary file; or with the bytes that it will still append.
pub data Worker : Type 0 where
  absent : Worker
  started : ℕ → ℕ → Worker
  working : ℕ → ℕ → Bytes → Verdict → Worker
  over : Worker

-- Where the main thread is: in the loop over the peers, at `is_all_zero`, in the pass at a piece
-- with that `mark`, in the loop that waits for a peer for a piece, or behind the loop.
pub data Main : Type 0 where
  starting : ℕ → Main
  waiting : Main
  passing : ℕ → Bool → Main
  finding : ℕ → Main
  left : Main

-- The threads are numbered as they are created.
pub record State : Type 0 where
  pub main : Main
  pub temps : Temps
  pub peer_flag : List ℕ
  pub created : ℕ
  pub workers : ℕ → Worker

-- The flag that a thread ends with. One that stays in `recv` does not end.
abbrev pub flag_of : Verdict → Option ℕ
flag_of finished = some 0
flag_of failed = some 2
flag_of stalled = none
flag_of out_of_fuel = none

-- The end of the k-th thread, if it ends.
unfoldable pub end_thread : ℕ → ℕ → Option ℕ → State → State
end_thread k peer none s = s
end_thread k peer (some flag) s = record s {
  peer_flag = set s.peer_flag peer flag;
  workers = update s.workers k over;
}

abbrev pub at : Main → State → State
at m s = record s { main = m }

-- `peer_flag[i] = 1` and `pthread_create`
unfoldable pub create : ℕ → ℕ → State → State
create peer slot s = record s {
  peer_flag = set s.peer_flag peer 1;
  created = suc s.created;
  workers = update s.workers s.created (started peer slot);
}

-- The bytes of a temporary file; none if it does not exist.
abbrev pub bytes_of : Option Bytes → Bytes
bytes_of none = []
bytes_of (some bytes) = bytes

abbrev pub write : Piece → Bytes → Temps → Temps
write p bytes temps = λ q. if same_piece p q then some bytes else temps q

-- Whether the temporary file is opened: not without a connection.
abbrev pub opens : Option Socket → Bool → Bool
opens none opened = false
opens (some s) opened = opened

module _ (job : Job) where
  unfoldable pub piece_at : ℕ → Piece
  piece_at slot = piece job.size job.num_tmpt_file slot

  -- One step of the main thread. There is none where a buffer is overrun, or where the thread to be
  -- started would work for another file than that of the download.
  unfoldable pub main_move : Main → State → Option State
  main_move (starting i) s =
      let begins =
        if ltb (length job.name) name_size
        then some (create i i (at (starting (i + 1)) s))
        else none in
      if ltb i job.num_peers then begins else some (at waiting s)
  main_move waiting s =
      some (if is_all_zero job.num_peers s.peer_flag then at (passing 0 false) s else s)
  main_move (passing i mark) s =
      let next =
        if ltb (get_file_size (s.temps (piece_at i))) (piece_at i).len
        then at (finding i) s
        else at (passing (i + 1) mark) s in
      let named : Option State = elim (tempfilename job.name job.timestamp (piece_at i)) [
        | none ↦ none
        | some _ ↦ some next
      ] in
      if ltb i job.num_tmpt_file then named else some (at (if mark then waiting else left) s)
  main_move (finding i) s = elim (get_available_peer_idx job.num_peers s.peer_flag) [
    | none ↦ some s
    | some peer ↦ elim (resumed_piece job.name job.timestamp (piece_at i)) [
      | none ↦ none
      | some p ↦
          if same_piece p (piece_at i)
          then some (create peer i (at (passing (i + 1) true) s))
          else none
    ]
  ]
  main_move left s = some s

  unfoldable pub main_step : State → Option State
  main_step s = main_move s.main s

  -- How `download_handler` ends in the k-th thread, for a temporary file with these bytes.
  unfoldable pub outcome : ℕ → Piece → Bytes → Download
  outcome k p before =
      let m = job.meets k p before in
      download_handler job.z m.opened m.room p.start p.len before m.socket

  -- The thread with its request sent and its temporary file open, with what it will append and the
  -- verdict.
  unfoldable pub request : ℕ → ℕ → ℕ → State → State
  request k peer slot s =
      let p = piece_at slot in
      let before = bytes_of (s.temps p) in
      let m = job.meets k p before in
      let d = outcome k p before in
      record s {
        temps = if opens m.socket m.opened then write p before s.temps else s.temps;
        workers = update s.workers k (working peer slot (drop (length before) d.temp) d.verdict);
      }

  -- One step of the k-th thread, which appends at least a byte and at most `suc more`, as long as
  -- there is one, and then sets its flag.
  unfoldable pub worker_move : Worker → ℕ → ℕ → State → State
  worker_move absent k more s = s
  worker_move (started peer slot) k more s = request k peer slot s
  worker_move (working peer slot (c ∷ todo) v) k more s =
      let p = piece_at slot in
      let before = bytes_of (s.temps p) in
      record s {
        temps = write p (before ++ c ∷ take more todo) s.temps;
        workers = update s.workers k (working peer slot (drop more todo) v);
      }
  worker_move (working peer slot [] v) k more s = end_thread k peer (flag_of v) s
  worker_move over k more s = s

  -- Whether the thread overruns `tempfilename`, where it is connected.
  unfoldable pub overruns : Worker → ℕ → State → Bool
  overruns (started peer slot) k s =
      let p = piece_at slot in
      elim (job.meets k p (bytes_of (s.temps p))).socket [
        | none ↦ false
        | some _ ↦ elim (tempfilename job.name job.timestamp p) [ none ↦ true | some _ ↦ false ]
      ]
  overruns absent k s = false
  overruns (working peer slot todo v) k s = false
  overruns over k s = false

  unfoldable pub worker_step : ℕ → ℕ → State → Option State
  worker_step k more s =
      if overruns (s.workers k) k s then none else some (worker_move (s.workers k) k more s)

  pub data Step (s : State) : State → Type 0 where
    main_moves : {t : State} → main_step s ≡ some t → Step s t
    worker_moves : {t : State} (k more : ℕ) → worker_step k more s ≡ some t → Step s t

  pub data Reach (s : State) : State → Type 0 where
    start : Reach s s
    later : {t u : State} → Reach s t → Step t u → Reach s u

-- A download of the file of a table entry, where `found` is what is in `tmpt_file~`: its numbers,
-- and the state behind `bzero(peer_flag, sizeof(int) * 200)`.
unfoldable pub download_job : Zlib → (ℕ → Piece → Bytes → Meeting) → FileNode → Option Bytes → Job
download_job z meets f found = record {
  z = z;
  name = f.name;
  timestamp = f.timestamp;
  size = f.size;
  num_peers = f.num_peers;
  num_tmpt_file = (begun f found).num_tmpt_file;
  meets = meets;
}

unfoldable pub download_start : Option Bytes → Temps → State
download_start found temps = record {
  main = if get_file_size found == 0 then starting 0 else waiting;
  temps = temps;
  peer_flag = zero_peers;
  created = 0;
  workers = λ k. absent;
}
