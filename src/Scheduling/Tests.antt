-- ===== src/Scheduling/Tests.antt =====
-- A download of five bytes from two peers, thread by thread.
use mathlib.Core.List.{foldl}
use networks_dartsync.Base.{
  dec_lt, ◌≤◌, ◌<◌, zero, ltb, if_cases, suc, ℕ, ◌≡◌, ◌≢◌, ◌⊎◌, refl, sym, ap, List, [], ◌∷◌,
  Option, some, none, true, false, arith, inl, ◌==◌, if◌then◌else◌, get_or, take,
}
use networks_dartsync.Base.Bytes.{Bytes, bytes_eq}
use networks_dartsync.Compression.{compress_stream, decompress_stream, result}
use networks_dartsync.Compression.Stored.{stored, stored-IsLawful}
use networks_dartsync.Wire.{Socket, closed, to_bytes, from_bytes, recv, recv_loop, recv_exact}
use networks_dartsync.FileTable.{FileNode, zero_peers}
use networks_dartsync.Pieces.{Piece, offset, piece, pieces}
use networks_dartsync.Transfer.{
  send, read_block, upload_loop, upload_handler, download_loop, download_handler, request_for,
}
use networks_dartsync.Transfer.Exchange.{answer}
use networks_dartsync.Assembly.{Temps, same_piece, merge_temps, get_available_peer_idx, is_all_zero}
use networks_dartsync.TempName.{
  strip_prefix, strstr, copy_to_buffer, temp_name_text, temp_file_name, parse_number,
  parse_tmpt_file_name,
}
use networks_dartsync.TempName.Decimal.{
  decimal, signed_decimal, ascii_to_signed, signed_number, skip_space, number,
}
use networks_dartsync.Assembly.Names.{tempfilename, resumed_piece}
use networks_dartsync.Assembly.Begin.{begun, tasks_from, set_flags}
use networks_dartsync.Assembly.Begin.Finish.{CanBegin}
use networks_dartsync.Scheduling.{
  Meeting, Job, absent, over, waiting, passing, left, State, piece_at, main_move, main_step,
  outcome, request, create, end_thread, worker_move, worker_step, overruns, Reach, start, later,
  Step, main_moves, worker_moves, download_job, download_start,
}
use networks_dartsync.Scheduling.Invariant.{peer_of, slot_of}
use networks_dartsync.Scheduling.Files.{Answers}
use networks_dartsync.Scheduling.Safety.{download_handler-apart, download_file_multi_thread-whole}
use networks_dartsync.Scheduling.Refused.{Refused, download_file_multi_thread-refused}
use networks_dartsync.Scheduling.Progress.{AllFailed, Waits, MovesOn}
use networks_dartsync.Scheduling.Ending.Ready.{Takes}
use networks_dartsync.Scheduling.Ending.Rank.{rank}
use networks_dartsync.Scheduling.Ending.Limit.{
  Moving, still, moved, step_limit, download_file_multi_thread-ends,
}

abbrev content : Bytes
content = 10 ∷ 11 ∷ 12 ∷ 13 ∷ 14 ∷ []

abbrev file : FileNode
file = record {
  size = 5;
  name = 47 ∷ [];
  type = 0;
  timestamp = 9;
  num_peers = 2;
  peers = zero_peers;
}

-- Each thread is connected to a peer with the content; of what the first one is sent, nine bytes
-- arrive.
abbrev meets : ℕ → Piece → Bytes → Meeting
meets k p before =
    let n = if k == 0 then 9 else 99 in
    record {
      socket = some (record {
        bytes = take n (answer stored content p.start p.len before 9).sent;
        cuts = [];
        ending = closed;
      });
      sends = 9;
      arrived = n;
      opened = true;
      room = p.len;
    }

abbrev job : Job
job = download_job stored meets file none

abbrev no_temps : Temps
no_temps p = none

abbrev state : State
state = download_start none no_temps

-- A run: `none` for a step of the main thread.
record Run : Type 0 where
  last : State
  reach : Reach job state last

seen : (o : Option State) → Option ((t : State) × (o ≡ some t))
seen none = none
seen (some t) = some (t, refl)

turn : Run → Option (ℕ × ℕ) → Run
turn r none = elim (seen (main_step job r.last)) [
  | none ↦ r
  | some (t, e) ↦ record { last = t; reach = later r.reach (main_moves e) }
]
turn r (some (k, more)) = elim (seen (worker_step job k more r.last)) [
  | none ↦ r
  | some (t, e) ↦ record { last = t; reach = later r.reach (worker_moves k more e) }
]

unfoldable run : List (Option (ℕ × ℕ)) → Run
unfolding turn seen
run actions = foldl turn (record { last = state; reach = start }) actions

abbrev begins : Run
begins = run (none ∷ none ∷ some (1, 0) ∷ some (0, 0) ∷ some (1, 1) ∷ [])

-- The first thread fails, and the second one goes on with its piece.
abbrev actions : List (Option (ℕ × ℕ))
actions =
    none
    ∷ none
    ∷ some (1, 0)
    ∷ some (0, 0)
    ∷ some (1, 1)
    ∷ some (1, 0)
    ∷ some (1, 0)
    ∷ some (0, 0)
    ∷ none
    ∷ none
    ∷ none
    ∷ none
    ∷ some (2, 0)
    ∷ none
    ∷ some (2, 9)
    ∷ none
    ∷ some (2, 0)
    ∷ none
    ∷ none
    ∷ none
    ∷ none
    ∷ []

abbrev ends : Run
ends = run actions

begins_slots :
    (slot_of (begins.last.workers 0) ≡ some 0) × (slot_of (begins.last.workers 1) ≡ some 1)
unfolding run main_step main_move create worker_step worker_move request end_thread outcome piece_at
    download_job download_start begun tasks_from set_flags zero_peers answer upload_handler
    upload_loop request_for send read_block compress_stream result to_bytes download_handler
    download_loop decompress_stream recv_exact recv_loop recv from_bytes piece offset is_all_zero
    get_available_peer_idx overruns tempfilename temp_file_name temp_name_text copy_to_buffer
    decimal signed_decimal resumed_piece parse_tmpt_file_name parse_number strstr strip_prefix
    ascii_to_signed signed_number skip_space number bytes_eq seen
begins_slots = (refl, refl)

ends_left : ends.last.main ≡ left
unfolding run main_step main_move create worker_step worker_move request end_thread outcome piece_at
    download_job download_start begun tasks_from set_flags zero_peers answer upload_handler
    upload_loop request_for send read_block compress_stream result to_bytes download_handler
    download_loop decompress_stream recv_exact recv_loop recv from_bytes piece offset is_all_zero
    get_available_peer_idx overruns tempfilename temp_file_name temp_name_text copy_to_buffer
    decimal signed_decimal resumed_piece parse_tmpt_file_name parse_number strstr strip_prefix
    ascii_to_signed signed_number skip_space number bytes_eq seen
ends_left = refl

ends_flags : (get_or ends.last.peer_flag 0 9 ≡ 2) × (get_or ends.last.peer_flag 1 9 ≡ 0)
unfolding run main_step main_move create worker_step worker_move request end_thread outcome piece_at
    download_job download_start begun tasks_from set_flags zero_peers answer upload_handler
    upload_loop request_for send read_block compress_stream result to_bytes download_handler
    download_loop decompress_stream recv_exact recv_loop recv from_bytes piece offset is_all_zero
    get_available_peer_idx overruns tempfilename temp_file_name temp_name_text copy_to_buffer
    decimal signed_decimal resumed_piece parse_tmpt_file_name parse_number strstr strip_prefix
    ascii_to_signed signed_number skip_space number bytes_eq seen
ends_flags = (refl, refl)

file-CanBegin : CanBegin file none content
file-CanBegin = record {
  size = refl;
  small = omega arith;
  some_peer = omega arith;
  peers = omega arith;
  readable = record { clear = refl; short = omega arith; stamp_lt = omega arith };
  listing = λ text e. absurd (cc);
}

arrived_of : Option Socket → Bytes
arrived_of none = []
arrived_of (some s) = s.bytes

meets-Answers : Answers job content
unfolding download_job arrived_of
meets-Answers k p before s e = sym (ap arrived_of e)

download_handler-apart_example :
    (peer_of (begins.last.workers 0) ≢ peer_of (begins.last.workers 1))
    × ((same_piece (piece_at job 0) (piece_at job 1) ≡ false) ⊎ ((piece_at job 1).len ≡ 0))
download_handler-apart_example =
    download_handler-apart stored meets file none content no_temps stored-IsLawful file-CanBegin
      (omega arith) (λ p h. inl refl) meets-Answers begins.last begins.reach 0 1 0 1
      (λ (e : ◌≡◌ {A = ℕ} 0 1). omega (arith, e)) begins_slots.0 begins_slots.1

download_file_multi_thread-whole_example :
    ((k : ℕ) → peer_of (ends.last.workers k) ≡ none)
    × ((merge_temps ends.last.temps (pieces job.size job.num_tmpt_file) []).written ≡ content)
download_file_multi_thread-whole_example =
    download_file_multi_thread-whole stored meets file none content no_temps stored-IsLawful
      file-CanBegin (omega arith) (λ p h. inl refl) meets-Answers ends.last ends.reach ends_left

-- The same run, as steps that each lower the rank and so change the state.
record Turns : Type 0 where
  count : ℕ
  reached : State
  moving : Moving job state count reached

go_on : (r : Turns) (t : State) → Step job r.reached t → Turns
unfolding dec_lt
go_on r t step = elim (dec_lt (rank job t) (rank job r.reached)) [
  | yes l ↦ record {
    count = suc r.count;
    reached = t;
    moving = moved r.moving step (λ same. omega (arith, l, ap (rank job) same));
  }
  | no _ ↦ r
]

another : Turns → Option (ℕ × ℕ) → Turns
another r none = elim (seen (main_step job r.reached)) [
  | none ↦ r
  | some (t, e) ↦ go_on r t (main_moves e)
]
another r (some (k, more)) = elim (seen (worker_step job k more r.reached)) [
  | none ↦ r
  | some (t, e) ↦ go_on r t (worker_moves k more e)
]

unfoldable turns : List (Option (ℕ × ℕ)) → Turns
unfolding another go_on seen
turns actions = foldl another (record { count = 0; reached = state; moving = still }) actions

abbrev all_turns : Turns
all_turns = turns actions

turns_run : (all_turns.count ≡ 21) × (all_turns.reached.main ≡ left)
unfolding turns rank run main_step main_move create worker_step worker_move request end_thread
    outcome piece_at download_job download_start begun tasks_from set_flags zero_peers answer
    upload_handler upload_loop request_for send read_block compress_stream result to_bytes
    download_handler download_loop decompress_stream recv_exact recv_loop recv from_bytes piece
    offset is_all_zero get_available_peer_idx overruns tempfilename temp_file_name temp_name_text
    copy_to_buffer decimal signed_decimal resumed_piece parse_tmpt_file_name parse_number strstr
    strip_prefix ascii_to_signed signed_number skip_space number bytes_eq seen
turns_run = (refl, refl)

meets-Takes : Takes job
unfolding download_job
meets-Takes k p before = (refl, omega arith)

download_file_multi_thread-ends_example :
    (all_turns.count ≤ step_limit job)
    × ((all_turns.reached.main ≡ left)
        ⊎ (AllFailed job all_turns.reached
            ⊎ (Waits all_turns.reached ⊎ MovesOn job all_turns.reached)))
download_file_multi_thread-ends_example =
    download_file_multi_thread-ends stored meets file none content no_temps stored-IsLawful
      file-CanBegin (omega arith) (λ p h. inl refl) meets-Answers meets-Takes all_turns.count
      all_turns.reached all_turns.moving

-- The state behind two threads that had no connection.
abbrev refused : State
refused = record {
  main = waiting;
  temps = no_temps;
  peer_flag = 2 ∷ 2 ∷ [];
  created = 2;
  workers = λ k. if ltb k 2 then over else absent;
}

refused-Refused : Refused job 1 refused
unfolding download_job piece_at piece offset begun
refused-Refused = record {
  failed = λ j l. two j l;
  idle = λ k. if_cases (λ w. peer_of w ≡ none) (ltb k 2) refl refl;
  piece_lt = omega arith;
  short = refl;
}
  where
    two : (j : ℕ) → j < 2 → ◌≡◌ {A = ℕ} (get_or (2 ∷ 2 ∷ []) j 0) 2
    two zero l = refl
    two (suc zero) l = refl
    two (suc (suc j)) l = absurd (omega arith)

-- The pass begins, and looks for a peer.
pass_begins : main_step job refused ≡ some (record refused { main = passing 0 false })
unfolding main_step main_move is_all_zero download_job
pass_begins = refl

download_file_multi_thread-refused_example :
    (passing 0 false ≢ left) × (no_temps ≡ refused.temps) × (refused.peer_flag ≡ 2 ∷ 2 ∷ [])
download_file_multi_thread-refused_example =
    download_file_multi_thread-refused job 1 refused refused-Refused refl
      (record refused { main = passing 0 false }) (later start (main_moves pass_begins))
