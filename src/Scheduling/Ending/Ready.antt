-- ===== src/Scheduling/Ending/Ready.antt =====
-- What is complete stays so with every step of a thread.
use mathlib.Core.Path.{subst}
use networks_dartsync.Base.{
  ℕ, ◌≤◌, ◌<◌, ◌≡◌, ◌≢◌, refl, sym, ap, ◌∙◌, [], ◌∷◌, ◌++◌, Bool, true, false, Option, none, some,
  arith, ◌==◌, if◌then◌else◌, length, take, drop, length-append, length-take, length-drop,
  Bool-cases, inl, inr, ℕ_discrete,
}
use networks_dartsync.Base.Bytes.{Bytes}
use networks_dartsync.Pieces.{Piece}
use networks_dartsync.Pieces.Tiling.{int_limit}
use networks_dartsync.Transfer.{Verdict}
use networks_dartsync.Assembly.{Temps, get_file_size, same_piece}
use networks_dartsync.Scheduling.{
  Job, Worker, absent, started, working, over, Main, starting, waiting, passing, finding, left,
  State, bytes_of, write, opens, piece_at, outcome, update, worker_move, request, end_thread,
  flag_of,
}
use networks_dartsync.Scheduling.Slots.{same_piece-empty}
use networks_dartsync.Scheduling.Writes.{write-same}
use networks_dartsync.Scheduling.Invariant.{slot_of, Inv, reached, Fits}
use networks_dartsync.Scheduling.Moves.{slot-lt, reached-le}
use networks_dartsync.Scheduling.Ending.Complete.{
  finished-len, Fills, Wants, Ready, Kept, Kept-short, Kept-Fills,
}

-- The disk takes every piece.
abbrev pub Takes : Job → Type 0
Takes job =
    (k : ℕ) (p : Piece) (before : Bytes)
    → ((job.meets k p before).opened ≡ true) × (p.len ≤ (job.meets k p before).room)

size_of : (o : Option Bytes) → get_file_size o ≡ length (bytes_of o)
size_of none = refl
size_of (some s) = refl

pub update-Fills :
    (job : Job) (temps : Temps) (workers : ℕ → Worker) (k : ℕ) (w : Worker)
    → Fills job temps w
    → ((j : ℕ) → k ≢ j → Fills job temps (workers j))
    → (j : ℕ) → Fills job temps (update workers k w j)
update-Fills job temps workers k w own others j = elim (ℕ_discrete k j) [
  | yes same ↦ let b : (k == j) ≡ true = ground arith in rw b own
  | no differ ↦ let b : (k == j) ≡ false = ground arith in rw b (others j differ)
]

module _ (job : Job) (m : Main) (temps temps' : Temps) (workers : ℕ → Worker) (k slot : ℕ)
    (w : Worker) (h : Ready job m temps workers) (runs : slot_of (workers k) ≡ some slot)
    (one : (j i : ℕ) → slot_of (workers j) ≡ some i → slot_of (workers k) ≡ some i → j ≡ k)
    (below : (j i : ℕ) → slot_of (workers j) ≡ some i → i < reached job m)
    (most : reached job m ≤ job.num_tmpt_file)
    (fits : (i : ℕ) → m ≡ finding i → i < job.num_tmpt_file)
    (kept : Kept job slot temps temps') where
  kept-Wants :
      (m : Main)
      → Wants job m temps
      → slot < reached job m
      → ((i : ℕ) → m ≡ finding i → i < job.num_tmpt_file)
      → Wants job m temps'
  kept-Wants (starting i) q l f = tt
  kept-Wants waiting q l f = tt
  kept-Wants (passing i mark) q l f = tt
  kept-Wants (finding i) q l f =
      Kept-short job slot temps temps' kept i (f i refl) (λ e. omega (arith, e, l)) ∙ q
  kept-Wants left q l f = tt

  -- A thread for that piece does its step.
  pub worker-Ready : Fills job temps' w → Ready job m temps' (update workers k w)
  worker-Ready own = record {
    fills = update-Fills job temps' workers k w own (λ j other.
        Kept-Fills job slot temps temps' (workers j) kept
          (λ i q.
            (omega (arith, below j i q, most), λ e. other (sym (one j i q (runs ∙ ap some e)))))
          (h.fills j));
    wants = kept-Wants m h.wants (below k slot runs) fits;
  }

module _ (job : Job) (small : job.size < int_limit) (few : job.num_tmpt_file < int_limit)
    (one : 0 < job.num_tmpt_file) where
  pub Kept-write :
      (slot : ℕ) (bytes : Bytes) (temps : Temps)
      → slot < job.num_tmpt_file
      → Kept job slot temps (write (piece_at job slot) bytes temps)
  unfolding piece_at
  Kept-write slot bytes temps l j lj other =
      elim (Bool-cases (same_piece (piece_at job j) (piece_at job slot))) [
        | inl same ↦ inr (
            same_piece-empty job.size job.num_tmpt_file small few one j slot lj l
              (λ e. other (sym e)) same)
        | inr differ ↦
            let back : same_piece (piece_at job slot) (piece_at job j) ≡ false = ground arith in
            inl (rw back refl)
      ]

  pub Kept-open :
      (slot : ℕ) (bytes : Bytes) (temps : Temps) (b : Bool)
      → slot < job.num_tmpt_file
      → Kept job slot temps (if b then write (piece_at job slot) bytes temps else temps)
  Kept-open slot bytes temps true l = Kept-write slot bytes temps l
  Kept-open slot bytes temps false l = λ j lj other. inl refl

module _ (job : Job) (content : Bytes) (small : job.size < int_limit)
    (few : job.num_tmpt_file < int_limit) (one : 0 < job.num_tmpt_file) (takes : Takes job) where
  opened-size :
      (p : Piece) (temps : Temps) (b : Bool)
      → get_file_size ((if b then write p (bytes_of (temps p)) temps else temps) p)
        ≡ length (bytes_of (temps p))
  opened-size p temps true = ap get_file_size (write-same p (bytes_of (temps p)) temps)
  opened-size p temps false = size_of (temps p)

  -- What the thread will have written is the piece, whether it opens its temporary file or not.
  request-Fills :
      (k peer slot : ℕ) (temps : Temps) (b : Bool)
      → let p = piece_at job slot in
        let before = bytes_of (temps p) in
        let d = outcome job k p before in
        Fills job
          (if b then write p before temps else temps)
          (working peer slot (drop (length before) d.temp) d.verdict)
  unfolding outcome
  request-Fills k peer slot temps b v =
      let p = piece_at job slot in
      let before = bytes_of (temps p) in
      let m = job.meets k p before in
      let (opened, room) = takes k p before in
      let l = finished-len job.z m.opened m.room p.start p.len before m.socket opened room v in
      omega (arith, l, opened-size p temps b)

  write-Fills :
      (peer slot c more : ℕ) (todo : Bytes) (v : Verdict) (temps : Temps)
      → Fills job temps (working peer slot (c ∷ todo) v)
      → Fills job
          (write
            (piece_at job slot)
            (bytes_of (temps (piece_at job slot)) ++ c ∷ take more todo)
            temps)
          (working peer slot (drop more todo) v)
  write-Fills peer slot c more todo v temps h q =
      let p = piece_at job slot in
      let before = bytes_of (temps p) in
      let size = ap get_file_size (write-same p (before ++ c ∷ take more todo) temps) in
      omega (
        arith,
        h q,
        size,
        size_of (temps p),
        length-append before (c ∷ take more todo),
        length-take more todo,
        length-drop more todo,
      )

  running-Ready :
      (s : State) (k slot : ℕ) (w : Worker) (temps' : Temps)
      → Inv job content s
      → Ready job s.main s.temps s.workers
      → slot_of (s.workers k) ≡ some slot
      → Kept job slot s.temps temps'
      → Fills job temps' w
      → Ready job s.main temps' (update s.workers k w)
  running-Ready s k slot w temps' h r runs kept own =
      worker-Ready job s.main s.temps temps' s.workers k slot w r runs
        (λ j i a b. h.table.one_piece j k i a b) h.place.below
        (reached-le job s.main s.peer_flag h.place.fits)
        (λ i q. subst (λ m. Fits job m s.peer_flag) q h.place.fits) kept own

  end_thread-Ready :
      (s : State) (k peer slot : ℕ) (end : Option ℕ)
      → Inv job content s
      → Ready job s.main s.temps s.workers
      → slot_of (s.workers k) ≡ some slot
      → Ready job
          (end_thread k peer end s).main
          (end_thread k peer end s).temps
          (end_thread k peer end s).workers
  unfolding end_thread
  end_thread-Ready s k peer slot none h r runs = r
  end_thread-Ready s k peer slot (some flag) h r runs =
      running-Ready s k slot over s.temps h r runs (λ j l other. inl refl) tt

  pub worker_move-Ready :
      (w : Worker) (k more : ℕ) (s : State)
      → s.workers k ≡ w
      → Inv job content s
      → Ready job s.main s.temps s.workers
      → Ready job
          (worker_move job w k more s).main
          (worker_move job w k more s).temps
          (worker_move job w k more s).workers
  unfolding worker_move request
  worker_move-Ready absent k more s e h r = r
  worker_move-Ready over k more s e h r = r
  worker_move-Ready (started peer slot) k more s e h r =
      let runs : slot_of (s.workers k) ≡ some slot = ap slot_of e in
      let p = piece_at job slot in
      let before = bytes_of (s.temps p) in
      let m = job.meets k p before in
      let b = opens m.socket m.opened in
      let l = slot-lt job content s h k slot runs in
      running-Ready s k slot _ _ h r runs (Kept-open job small few one slot before s.temps b l)
        (request-Fills k peer slot s.temps b)
  worker_move-Ready (working peer slot (c ∷ todo) v) k more s e h r =
      let runs : slot_of (s.workers k) ≡ some slot = ap slot_of e in
      let l = slot-lt job content s h k slot runs in
      running-Ready s k slot _ _ h r runs (Kept-write job small few one slot _ s.temps l)
        (write-Fills peer slot c more todo v s.temps (subst (Fills job s.temps) e (r.fills k)))
  worker_move-Ready (working peer slot [] v) k more s e h r =
      end_thread-Ready s k peer slot (flag_of v) h r (ap slot_of e)
