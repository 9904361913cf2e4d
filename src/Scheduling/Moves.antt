-- ===== src/Scheduling/Moves.antt =====
-- Every step of the main thread and of the other threads keeps what holds of a download.
use mathlib.Core.Path.{subst}
use networks_dartsync.Base.{
  ℕ, ◌+◌, ◌≤◌, ◌<◌, ◌≡◌, ◌≢◌, ◌⊎◌, refl, sym, ap, ◌∙◌, List, [], ◌∷◌, true, false, Option, none,
  some, arith, ltb, ◌==◌, if◌then◌else◌, length, get_or, set, Bool-cases, Option-cases, inl, inr,
  ltb→lt, if_cases,
}
use networks_dartsync.Base.Bytes.{Bytes}
use networks_dartsync.Compression.{IsLawful}
use networks_dartsync.Pieces.Tiling.{int_limit}
use networks_dartsync.Transfer.{Verdict, finished, failed, stalled, out_of_fuel}
use networks_dartsync.Assembly.{
  Temps, get_file_size, same_piece, get_available_peer_idx, is_all_zero,
}
use networks_dartsync.Scheduling.{
  Job, Worker, absent, started, working, over, Main, starting, waiting, passing, finding, left,
  State, flag_of, end_thread, at, create, piece_at, request, worker_move, update,
}
use networks_dartsync.Scheduling.Next.{next_move}
use networks_dartsync.Scheduling.Invariant.{peer_of, slot_of, Due, Files, reached, Fits, Place, Inv}
use networks_dartsync.Scheduling.Table.{Table-create, Table-update, Table-end}
use networks_dartsync.Scheduling.Files.{Answers, request-Files, write-Files}
use networks_dartsync.Scheduling.Slots.{piece-within, same_piece-empty}
use networks_dartsync.Scheduling.Place.{
  available-free, Place-busy, Fits-end, Place-all_started, Place-all_zero, Place-short, Place-long,
  Place-over, Place-started, Place-found,
}

Files-update :
    {job : Job} {content : Bytes} {temps : Temps} {workers : ℕ → Worker} (k : ℕ) (w : Worker)
    → Due job content temps w
    → Files job content temps workers
    → Files job content temps (update workers k w)
Files-update {job} {content} {temps} k w due h = record {
  held = h.held;
  due = λ j. if_cases (Due job content temps) (k == j) due (h.due j);
}

module _ (job : Job) (content : Bytes) where
  -- The main thread goes on, and nothing else changes.
  Inv-at :
      (m : Main) (s : State)
      → Inv job content s
      → Place job m s.peer_flag s.temps s.workers
      → Inv job content (at m s)
  Inv-at m s h p = record { table = h.table; files = h.files; place = p }

  Inv-create :
      (peer slot : ℕ) (m : Main) (s : State)
      → Inv job content s
      → peer < job.num_peers
      → get_or s.peer_flag peer 0 ≡ 0
      → ((k : ℕ) → slot_of (s.workers k) ≢ some slot)
      → Place job m
          (set s.peer_flag peer 1)
          s.temps
          (update s.workers s.created (started peer slot))
      → Inv job content (create peer slot (at m s))
  unfolding create
  Inv-create peer slot m s h l free new p = record {
    table = Table-create h.table peer slot l free new;
    files = Files-update s.created (started peer slot) tt h.files;
    place = p;
  }

  pub next_move-Inv :
      (m : Main) (s : State) → s.main ≡ m → Inv job content s → Inv job content (next_move job m s)
  unfolding next_move
  next_move-Inv (starting i) s e h =
      let p = subst (λ m. Place job m s.peer_flag s.temps s.workers) e h.place in
      let (_, _, free) = p.fits in
      elim (Bool-cases (ltb i job.num_peers)) [
        | inl more ↦
            let l = ltb→lt i job.num_peers more in
            rw more (
              Inv-create i i (starting (i + 1)) s h l (free i (omega arith))
                (λ k r. omega (arith, p.below k i r))
                (Place-started job s.peer_flag s.temps s.workers s.created i l
                  (omega (arith, h.table.enough)) p))
        | inr past ↦
            rw past
              (Inv-at waiting s h (Place-all_started job s.peer_flag s.temps s.workers i past p))
      ]
  next_move-Inv waiting s e h = elim (Bool-cases (is_all_zero job.num_peers s.peer_flag)) [
    | inl z ↦
        rw z (
          Inv-at (passing 0 false) s h (Place-all_zero job s.peer_flag s.temps s.workers h.table z))
    | inr some_one ↦ rw some_one h
  ]
  next_move-Inv (passing i mark) s e h =
      let p = subst (λ m. Place job m s.peer_flag s.temps s.workers) e h.place in
      elim (Bool-cases (ltb i job.num_tmpt_file)) [
        | inl more ↦
            let l = ltb→lt i job.num_tmpt_file more in
            elim (Bool-cases
              (ltb (get_file_size (s.temps (piece_at job i))) (piece_at job i).len)) [
                | inl short ↦
                    rw (more, short)
                      (Inv-at (finding i) s h
                        (Place-short job s.peer_flag s.temps s.workers i mark l p))
                | inr long ↦
                    rw (more, long)
                      (Inv-at (passing (i + 1) mark) s h
                        (Place-long job s.peer_flag s.temps s.workers i mark l long p))
              ]
        | inr past ↦ rw past (
            Inv-at (if mark then waiting else left) s h
              (Place-over job s.peer_flag s.temps s.workers i mark past p))
      ]
  next_move-Inv (finding i) s e h =
      let p = subst (λ m. Place job m s.peer_flag s.temps s.workers) e h.place in
      elim (Option-cases (get_available_peer_idx job.num_peers s.peer_flag)) [
        | inl nobody ↦ rw (next_move, nobody) h
        | inr (peer, found) ↦
            let (l, free) = available-free job.num_peers s.peer_flag peer found in
            rw (next_move, found)
              (Inv-create peer i (passing (i + 1) true) s h l free
                (λ k r. omega (arith, p.below k i r))
                (Place-found job s.peer_flag s.temps s.workers s.created peer i p))
      ]
  next_move-Inv left s e h = h

small_flag : (v : Verdict) (flag : ℕ) → flag_of v ≡ some flag → (flag ≢ 1) × (flag ≤ 2)
small_flag finished flag q = ground arith
small_flag failed flag q = ground arith
small_flag stalled flag q = absurd (cc)
small_flag out_of_fuel flag q = absurd (cc)

absent-idle : (w : Worker) (i : ℕ) → peer_of w ≡ some i → w ≢ absent
absent-idle w i runs gone = absurd (cc)

update-slots :
    (workers : ℕ → Worker) (k : ℕ) (w : Worker)
    → ((l : ℕ) → slot_of w ≡ some l → slot_of (workers k) ≡ some l)
    → (j l : ℕ) → slot_of (update workers k w j) ≡ some l
    → slot_of (workers j) ≡ some l
update-slots workers k w same j l e = ground (arith, same l)

end_thread-Inv :
    (job : Job) (content : Bytes) (k peer : ℕ) (end : Option ℕ) (s : State)
    → peer_of (s.workers k) ≡ some peer
    → ((flag : ℕ) → end ≡ some flag → (flag ≢ 1) × (flag ≤ 2))
    → Inv job content s
    → Inv job content (end_thread k peer end s)
unfolding end_thread
end_thread-Inv job content k peer none s runs fine h = h
end_thread-Inv job content k peer (some flag) s runs fine h =
    let (other, le) = fine flag refl in
    let (l, was) = h.table.busy k peer runs in
    record {
      table = Table-end h.table k peer flag runs other le;
      files = Files-update k over tt h.files;
      place =
          Place-busy job s.main s.peer_flag _ s.temps s.temps s.workers _ k peer runs
            (Fits-end job s.main s.peer_flag peer flag (omega (arith, l, h.table.enough)) was
              h.place.fits)
            (update-slots s.workers k over (λ l q. absurd (cc))) h.place;
    }

pub reached-le :
    (job : Job) (m : Main) (flags : List ℕ) → Fits job m flags → reached job m ≤ job.num_tmpt_file
reached-le job (starting i) flags (e, l, free) = omega arith
reached-le job waiting flags h = omega arith
reached-le job (passing i mark) flags h = h
reached-le job (finding i) flags h = omega arith
reached-le job left flags h = omega arith

pub slot-lt :
    (job : Job) (content : Bytes) (s : State)
    → Inv job content s
    → (k i : ℕ) → slot_of (s.workers k) ≡ some i
    → i < job.num_tmpt_file
slot-lt job content s h k i e =
    omega (arith, h.place.below k i e, reached-le job s.main s.peer_flag h.place.fits)

module _ (job : Job) (content : Bytes) (whole : length content ≡ job.size)
    (small : job.size < int_limit) (few : job.num_tmpt_file < int_limit)
    (one : 0 < job.num_tmpt_file) (lawful : IsLawful job.z) (answers : Answers job content) where
  within :
      (i : ℕ)
      → i < job.num_tmpt_file
      → (piece_at job i).start + (piece_at job i).len ≤ length content
  unfolding piece_at
  within i l = omega (arith, piece-within job.size job.num_tmpt_file small few one i l, whole)

  -- No other thread appends to the same temporary file.
  pub other_file :
      (s : State)
      → Inv job content s
      → (j k a b : ℕ) → k ≢ j
      → slot_of (s.workers k) ≡ some a
      → slot_of (s.workers j) ≡ some b
      → (same_piece (piece_at job a) (piece_at job b) ≡ false) ⊎ ((piece_at job b).len ≡ 0)
  unfolding piece_at
  other_file s h j k a b other ea eb =
      let la = slot-lt job content s h k a ea in
      let lb = slot-lt job content s h j b eb in
      elim (Bool-cases (same_piece (piece_at job b) (piece_at job a))) [
        | inl same ↦ inr (
            same_piece-empty job.size job.num_tmpt_file small few one b a lb la
              (λ e. other (h.table.one_piece k j a ea (eb ∙ ap some e))) same)
        | inr differ ↦ inl (ground arith)
      ]

  pub worker_move-Inv :
      (w : Worker) (k more : ℕ) (s : State)
      → s.workers k ≡ w
      → Inv job content s
      → Inv job content (worker_move job w k more s)
  unfolding worker_move request
  worker_move-Inv absent k more s e h = h
  worker_move-Inv over k more s e h = h
  worker_move-Inv (started peer slot) k more s e h =
      let runs : peer_of (s.workers k) ≡ some peer = ap peer_of e in
      let has : slot_of (s.workers k) ≡ some slot = ap slot_of e in
      record {
        table = Table-update h.table k _ (absent-idle (s.workers k) peer runs) (sym runs) (sym has);
        files =
            request-Files job content lawful answers k peer slot s.temps s.workers
              (within slot (slot-lt job content s h k slot has)) h.files;
        place =
            Place-busy job s.main s.peer_flag s.peer_flag s.temps _ s.workers _ k peer runs
              h.place.fits (update-slots s.workers k _ (λ l q. has ∙ q)) h.place;
      }
  worker_move-Inv (working peer slot (c ∷ todo) v) k more s e h =
      let runs : peer_of (s.workers k) ≡ some peer = ap peer_of e in
      let has : slot_of (s.workers k) ≡ some slot = ap slot_of e in
      record {
        table = Table-update h.table k _ (absent-idle (s.workers k) peer runs) (sym runs) (sym has);
        files =
            write-Files job content peer slot todo v more s.temps k c s.workers e
              (within slot (slot-lt job content s h k slot has))
              (λ j i other r. other_file s h j k slot i other has r) h.files;
        place =
            Place-busy job s.main s.peer_flag s.peer_flag s.temps _ s.workers _ k peer runs
              h.place.fits (update-slots s.workers k _ (λ l q. has ∙ q)) h.place;
      }
  worker_move-Inv (working peer slot [] v) k more s e h =
      end_thread-Inv job content k peer (flag_of v) s (ap peer_of e) (small_flag v) h
