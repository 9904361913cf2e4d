-- ===== src/Scheduling/Named.antt =====
-- The steps of a download of a file whose names are read back: no buffer is overrun, and each thread
-- works for the file.
use networks_dartsync.Base.{
  ℕ, ◌<◌, ◌≡◌, ◌⊎◌, refl, sym, ◌∙◌, true, false, some, arith, length, Bool-cases, Option-cases, inl,
  inr, ltb→lt, ltb, lt→ltb,
}
use mathlib.Core.Option.{some-injective}
use networks_dartsync.Base.Bytes.{Bytes}
use networks_dartsync.Pieces.{piece}
use networks_dartsync.Pieces.Tiling.{int_limit}
use networks_dartsync.Assembly.{get_available_peer_idx}
use networks_dartsync.TempName.{name_size}
use networks_dartsync.Assembly.Names.{
  tempfilename, resumed_piece, IsReadable, tempfilename-some, resumed_piece-own,
}
use networks_dartsync.Scheduling.{
  Job, Worker, absent, started, working, over, Main, starting, waiting, passing, finding, left,
  State, piece_at, main_move, main_step, worker_move, worker_step, overruns, Step, main_moves,
  worker_moves, bytes_of,
}
use networks_dartsync.Scheduling.Next.{next_move}
use networks_dartsync.Scheduling.Writes.{own_piece}
use networks_dartsync.Scheduling.Slots.{piece-within}
use networks_dartsync.Scheduling.Invariant.{slot_of, Fits, Inv}
use networks_dartsync.Scheduling.Moves.{slot-lt}

-- The names of the temporary files fit, and are read back.
abbrev pub Named : Job → Type 0
Named job =
    (ltb (length job.name) name_size ≡ true)
    × ((i : ℕ)
        → i < job.num_tmpt_file
        → ((text : Bytes) × (tempfilename job.name job.timestamp (piece_at job i) ≡ some text))
          × (resumed_piece job.name job.timestamp (piece_at job i) ≡ some (piece_at job i)))

pub readable-Named :
    (job : Job)
    → IsReadable job.name job.timestamp
    → job.size < int_limit
    → job.num_tmpt_file < int_limit
    → 0 < job.num_tmpt_file
    → Named job
unfolding piece_at piece
readable-Named job r small few one = (
  lt→ltb _ _ (omega (arith, r.short)),
  λ i l.
      let within = piece-within job.size job.num_tmpt_file small few one i l in
      let start : (piece_at job i).start < int_limit = omega (arith, within) in
      let len : (piece_at job i).len < int_limit = omega (arith, within) in
      (
        (_, tempfilename-some job.name job.timestamp r (piece_at job i) start len),
        resumed_piece-own job.name job.timestamp r (piece_at job i) start len,
      ),
)

module _ (job : Job) (named : Named job) where
  pub main_move-next :
      (m : Main) (s : State) → Fits job m s.peer_flag → main_move job m s ≡ some (next_move job m s)
  unfolding main_move next_move
  main_move-next (starting i) s f =
      let short : ltb (length job.name) name_size ≡ true = named.0 in
      elim (Bool-cases (ltb i job.num_peers)) [
        | inl more ↦ rw (more, short) refl
        | inr past ↦ rw past refl
      ]
  main_move-next waiting s f = refl
  main_move-next (passing i mark) s f = elim (Bool-cases (ltb i job.num_tmpt_file)) [
    | inl more ↦ let (text, fits) = (named.1 i (ltb→lt _ _ more)).0 in rw (more, fits) refl
    | inr past ↦ rw past refl
  ]
  main_move-next (finding i) s f =
      elim (Option-cases (get_available_peer_idx job.num_peers s.peer_flag)) [
        | inl nobody ↦ rw (main_move, next_move, nobody) refl
        | inr (peer, found) ↦
            let own = (named.1 i f).1 in
            rw (main_move, next_move, found, own, own_piece (piece_at job i)) refl
      ]
  main_move-next left s f = refl

  overruns-never :
      (w : Worker) (k : ℕ) (s : State)
      → ((i : ℕ) → slot_of w ≡ some i → i < job.num_tmpt_file)
      → overruns job w k s ≡ false
  unfolding overruns
  overruns-never absent k s l = refl
  overruns-never (working peer slot todo v) k s l = refl
  overruns-never over k s l = refl
  overruns-never (started peer slot) k s l =
      let (text, fits) = (named.1 slot (l slot refl)).0 in
      elim (Option-cases
        (job.meets k (piece_at job slot) (bytes_of (s.temps (piece_at job slot)))).socket) [
          | inl alone ↦ rw (overruns, alone) refl
          | inr (c, connected) ↦ rw (overruns, connected, fits) refl
        ]

  module _ (content : Bytes) (s : State) (h : Inv job content s) where
    pub main_step-next : main_step job s ≡ some (next_move job s.main s)
    unfolding main_step
    main_step-next = main_move-next s.main s h.place.fits

    pub worker_step-next :
        (k more : ℕ) → worker_step job k more s ≡ some (worker_move job (s.workers k) k more s)
    unfolding worker_step
    worker_step-next k more = rw (overruns-never (s.workers k) k s (slot-lt job content s h k)) refl

    -- The two kinds of steps.
    pub Step-next :
        {t : State}
        → Step job s t
        → (t ≡ next_move job s.main s)
          ⊎ ((k : ℕ) × (more : ℕ) × (t ≡ worker_move job (s.workers k) k more s))
    Step-next {t} (main_moves e) = inl (some-injective _ _ (sym e ∙ main_step-next))
    Step-next {t} (worker_moves k more e) =
        inr (k, more, some-injective _ _ (sym e ∙ worker_step-next k more))
