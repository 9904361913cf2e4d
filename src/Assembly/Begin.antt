-- ===== src/Assembly/Begin.antt =====
-- How `download_file_multi_thread` (utils/peer2peer.c) begins: a new download with a piece for each
-- peer, or one that goes on with the temporary files that `find` has listed in `tmpt_file~`.
pub mod Finish
mod Tests
use networks_dartsync.Base.{
  ℕ, zero, suc, ◌+◌, List, [], ◌∷◌, ◌||◌, Option, none, some, ◌==◌, if◌then◌else◌, map, get_or, set,
}
use networks_dartsync.Base.Bytes.{Bytes}
use networks_dartsync.FileTable.{FileNode, zero_peers}
use networks_dartsync.Pieces.{Piece, piece, pieces}
use networks_dartsync.Assembly.{Temps, get_file_size, unfinished}
use networks_dartsync.Assembly.Names.{resumed_pieces}

-- `fgets` with a buffer of 256 characters reads 255 at most, up to a newline. `k` have been read.
unfoldable pub lines_from : ℕ → Bytes → ℕ
lines_from k [] = if k == 0 then 0 else 1
lines_from k (c ∷ s) =
    let next = lines_from 0 s in
    let same = lines_from (suc k) s in if c == b'\n' || k == 254 then suc next else same

-- `get_file_line_num` of utils/file_monitor.c for a file that can be opened.
abbrev pub get_file_line_num : Bytes → ℕ
get_file_line_num s = lines_from 0 s

-- A thread that is started: the address and the number of its peer, and its piece.
pub record Task : Type 0 where
  pub ip : ℕ
  pub idx_of_this_peer : ℕ
  pub piece : Piece

-- The loop that starts the threads, from the i-th peer on.
unfoldable pub tasks_from : ℕ → FileNode → ℕ → List Task
tasks_from zero s i = []
tasks_from (suc k) s i =
    record { ip = get_or s.peers i 0; idx_of_this_peer = i; piece = piece s.size s.num_peers i }
    ∷ tasks_from k s (i + 1)

-- The flags of the peers that have a thread.
unfoldable pub set_flags : List Task → List ℕ → List ℕ
set_flags [] flags = flags
set_flags (t ∷ tasks) flags = set_flags tasks (set flags t.idx_of_this_peer 1)

pub record Begun : Type 0 where
  pub num_tmpt_file : ℕ
  pub tasks : List Task
  pub peer_flag : List ℕ

-- `found` is what is in `tmpt_file~`.
unfoldable pub begun : FileNode → Option Bytes → Begun
begun s found =
    let tasks = tasks_from s.num_peers s 0 in
    let fresh : Begun = record {
      num_tmpt_file = s.num_peers;
      tasks = tasks;
      peer_flag = set_flags tasks zero_peers;
    } in
    let resumed : Begun = record {
      num_tmpt_file = elim found [ none ↦ 0 | some text ↦ get_file_line_num text ];
      tasks = [];
      peer_flag = zero_peers;
    } in
    if get_file_size found == 0 then fresh else resumed

-- Without a peer there is no download.
unfoldable pub begin_download : FileNode → Option Bytes → Option Begun
begin_download s found = if s.num_peers == 0 then none else some (begun s found)

-- The pieces of the threads that are started first: those of the tasks, or, if there are none, those
-- of the names that the pass gives to `parse_tmpt_file_name`.
unfoldable pub first_round : FileNode → Temps → Begun → Option (List Piece)
first_round s temps b = elim b.tasks [
  | [] ↦ resumed_pieces s.name s.timestamp (unfinished temps (pieces s.size b.num_tmpt_file))
  | t ∷ tasks ↦ some (map (λ u. u.piece) (t ∷ tasks))
]
