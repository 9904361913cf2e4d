-- ===== src/Scheduling/Invariant.antt =====
-- What holds while the threads of a download run, in three parts: the table of the flags and the
-- threads, the temporary files, and the main thread.
use networks_dartsync.Base.{
  ℕ, ◌≤◌, ◌<◌, ◌≡◌, ◌≢◌, ◌⊎◌, List, [], ◌++◌, Bool, true, false, Option, none, some, ltb, length,
  get_or,
}
use networks_dartsync.Base.Bytes.{Bytes}
use networks_dartsync.Pieces.{slice}
use networks_dartsync.Transfer.{out_of_fuel}
use networks_dartsync.Transfer.Piecewise.{IsPart}
use networks_dartsync.Assembly.{Temps, get_file_size}
use networks_dartsync.Assembly.Download.{AllHold}
use networks_dartsync.Scheduling.{
  Job, Worker, absent, started, working, over, Main, starting, waiting, passing, finding, left,
  State, piece_at,
}

-- The peer of a thread that runs, and its piece.
abbrev pub peer_of : Worker → Option ℕ
peer_of absent = none
peer_of (started peer slot) = some peer
peer_of (working peer slot todo v) = some peer
peer_of over = none

abbrev pub slot_of : Worker → Option ℕ
slot_of absent = none
slot_of (started peer slot) = some slot
slot_of (working peer slot todo v) = some slot
slot_of over = none

-- The flags of the first peers are 1 for exactly the peers of the threads that run; a peer has one
-- thread at most, and a piece too.
pub record Table (n : ℕ) (flags : List ℕ) (created : ℕ) (workers : ℕ → Worker) : Type 0 where
  pub enough : n ≤ length flags
  pub small : (i : ℕ) → get_or flags i 0 ≤ 2
  pub fresh : (k : ℕ) → created ≤ k → workers k ≡ absent
  pub flagged : (i : ℕ) → get_or flags i 0 ≡ 1 → (k : ℕ) × (peer_of (workers k) ≡ some i)
  pub busy : (k i : ℕ) → peer_of (workers k) ≡ some i → (i < n) × (get_or flags i 0 ≡ 1)
  pub one_each : (j k i : ℕ) → peer_of (workers j) ≡ some i → peer_of (workers k) ≡ some i → j ≡ k
  pub one_piece : (j k i : ℕ) → slot_of (workers j) ≡ some i → slot_of (workers k) ≡ some i → j ≡ k

-- With what it will append, the temporary file of a thread is a first part of its piece.
abbrev pub Due : Job → Bytes → Temps → Worker → Type 0
Due job content temps absent = Unit
Due job content temps (started peer slot) = Unit
Due job content temps (working peer slot todo v) =
    (v ≢ out_of_fuel)
    × ((todo ≡ [])
        ⊎ ((bytes : Bytes) × (temps (piece_at job slot) ≡ some bytes)
            × IsPart (bytes ++ todo) (slice (piece_at job slot) content)))
Due job content temps over = Unit

pub record Files (job : Job) (content : Bytes) (temps : Temps) (workers : ℕ → Worker) : Type 0 where
  pub held : AllHold content temps
  pub due : (k : ℕ) → Due job content temps (workers k)

-- The pieces that threads may run for, where no thread runs, and the pieces that the pass has found
-- to be long enough.
abbrev pub reached : Job → Main → ℕ
reached job (starting i) = i
reached job waiting = job.num_tmpt_file
reached job (passing i mark) = i
reached job (finding i) = i
reached job left = job.num_tmpt_file

abbrev pub is_quiet : Main → Bool
is_quiet (starting i) = false
is_quiet waiting = false
is_quiet (passing i true) = false
is_quiet (passing i false) = true
is_quiet (finding i) = false
is_quiet left = true

abbrev pub checked : Job → Main → ℕ
checked job (starting i) = 0
checked job waiting = 0
checked job (passing i true) = 0
checked job (passing i false) = i
checked job (finding i) = 0
checked job left = job.num_tmpt_file

-- Where the loop over the peers is, there is a temporary file for each peer, and the peers from
-- here on have no thread.
abbrev pub Fits : Job → Main → List ℕ → Type 0
Fits job (starting i) flags =
    (job.num_tmpt_file ≡ job.num_peers)
    × (i ≤ job.num_peers)
    × ((j : ℕ) → i ≤ j → get_or flags j 0 ≡ 0)
Fits job waiting flags = Unit
Fits job (passing i mark) flags = i ≤ job.num_tmpt_file
Fits job (finding i) flags = i < job.num_tmpt_file
Fits job left flags = Unit

pub record Place (job : Job) (m : Main) (flags : List ℕ) (temps : Temps) (workers : ℕ → Worker)
    : Type 0 where
  pub fits : Fits job m flags
  pub below : (k i : ℕ) → slot_of (workers k) ≡ some i → i < reached job m
  pub quiet : is_quiet m ≡ true → (k : ℕ) → peer_of (workers k) ≡ none
  pub long :
      (i : ℕ)
      → i < checked job m
      → ltb (get_file_size (temps (piece_at job i))) (piece_at job i).len ≡ false

pub record Inv (job : Job) (content : Bytes) (s : State) : Type 0 where
  pub table : Table job.num_peers s.peer_flag s.created s.workers
  pub files : Files job content s.temps s.workers
  pub place : Place job s.main s.peer_flag s.temps s.workers
