-- ===== src/Scheduling/Progress.antt =====
-- A download goes on, unless a thread waits for ever in `recv` or every peer has failed.
use mathlib.Core.Path.{subst}
use networks_dartsync.Base.{
  ℕ, zero, suc, ◌+◌, ◌≤◌, ◌<◌, ◌≡◌, ◌≢◌, ◌⊎◌, refl, sym, ap, ◌∙◌, List, [], ◌∷◌, Bool, true, false,
  Option, none, some, arith, ltb, ◌==◌, if◌then◌else◌, length, get_or, Bool-cases, Option-cases,
  inl, inr,
}
use networks_dartsync.Base.Bytes.{Bytes}
use networks_dartsync.Compression.{Zlib, IsLawful}
use networks_dartsync.Pieces.{Piece}
use networks_dartsync.FileTable.{FileNode, max_peers}
use networks_dartsync.Transfer.{finished, failed, stalled, out_of_fuel}
use networks_dartsync.Assembly.{Temps, get_file_size, get_available_peer_idx, is_all_zero}
use networks_dartsync.Assembly.Download.{AllHold}
use networks_dartsync.Assembly.Begin.Finish.{CanBegin}
use networks_dartsync.Scheduling.{
  Meeting, Job, Worker, absent, started, working, over, Main, starting, waiting, passing, finding,
  left, State, end_thread, create, piece_at, request, worker_move, Step, main_moves, worker_moves,
  Reach, download_job, download_start,
}
use networks_dartsync.Scheduling.Table.{update-same}
use networks_dartsync.Scheduling.Place.{all_zero-not_one}
use networks_dartsync.Scheduling.Next.{next_move}
use networks_dartsync.Scheduling.Invariant.{peer_of, Due, Inv}
use networks_dartsync.Scheduling.Files.{Answers}
use networks_dartsync.Scheduling.Named.{Named, main_step-next, worker_step-next}
use networks_dartsync.Scheduling.Safety.{names, Reach-Inv}

-- A thread that waits in `recv` for ever.
abbrev pub Waits : State → Type 0
Waits s = (k peer slot : ℕ) × (s.workers k ≡ working peer slot [] stalled)

-- A step that changes the state.
abbrev pub MovesOn : Job → State → Type 0
MovesOn job s = (t : State) × Step job s t × (t ≢ s)

-- Every peer has failed, and the main thread looks for one.
abbrev pub AllFailed : Job → State → Type 0
AllFailed job s =
    (i : ℕ) × (s.main ≡ finding i) × ((j : ℕ) → j < job.num_peers → get_or s.peer_flag j 0 ≡ 2)

-- How far a thread is from its end.
abbrev left_of : Worker → ℕ
left_of absent = 0
left_of (started peer slot) = 0
left_of (working peer slot todo v) = 1 + length todo
left_of over = 0

abbrev place_of : Main → ℕ
place_of (starting i) = i
place_of waiting = 0
place_of (passing i mark) = i
place_of (finding i) = i
place_of left = 0

not_zero-one :
    (n : ℕ) (flags : List ℕ) → is_all_zero n flags ≡ false → (i : ℕ) × (get_or flags i 0 ≡ 1)
unfolding is_all_zero
not_zero-one zero flags e = absurd (cc)
not_zero-one (suc n) [] e = absurd (cc)
not_zero-one (suc n) (f ∷ flags) e = elim (Bool-cases (f == 1)) [
  | inl one ↦ (0, ground arith)
  | inr other ↦
      let rest : is_all_zero n flags ≡ false = rw (sym e, other) refl in
      let (i, q) = not_zero-one n flags rest in (suc i, q)
]

none-busy :
    (n : ℕ) (flags : List ℕ)
    → get_available_peer_idx n flags ≡ none
    → n ≤ length flags
    → (i : ℕ) → i < n
    → get_or flags i 0 ≢ 0
unfolding get_available_peer_idx
none-busy zero flags e l i h = absurd (omega arith)
none-busy (suc n) [] e l i h = absurd (omega arith)
none-busy (suc n) (f ∷ flags) e l i h = elim (Bool-cases (f == 0)) [
  | inl free ↦ absurd (ground arith)
  | inr busy ↦ elim (Option-cases (get_available_peer_idx n flags)) [
    | inl nobody ↦ here i h busy (λ j less. none-busy n flags nobody (omega arith) j less)
    | inr (j, found) ↦ absurd (ground arith)
  ]
]
  where
    here :
        (i : ℕ)
        → i < suc n
        → (f == 0) ≡ false
        → ((j : ℕ) → j < n → get_or flags j 0 ≢ 0)
        → get_or (f ∷ flags) i 0 ≢ 0
    here zero h busy rest = ground arith
    here (suc j) h busy rest = rest j (omega arith)

module _ (job : Job) (content : Bytes) (named : Named job) (s : State) (h : Inv job content s) where
  -- The step of a thread that runs changes the thread.
  turn :
      (k : ℕ) (w w' : Worker)
      → s.workers k ≡ w
      → (worker_move job w k 0 s).workers k ≡ w'
      → w' ≢ w
      → MovesOn job s
  turn k w w' e becomes other = (
    _,
    worker_moves k 0 (worker_step-next job named content s h k 0),
    λ same. other (
        sym becomes
        ∙ ap (λ x. (worker_move job x k 0 s).workers k) (sym e)
        ∙ ap (λ (u : State). u.workers k) same
        ∙ e),
  )

  main_turn : (m m' : Main) → s.main ≡ m → (next_move job m s).main ≡ m' → m' ≢ m → MovesOn job s
  main_turn m m' e becomes other = (
    _,
    main_moves (main_step-next job named content s h),
    λ same. other (
        sym becomes
        ∙ ap (λ x. (next_move job x s).main) (sym e)
        ∙ ap (λ (u : State). u.main) same
        ∙ e),
  )

  -- A thread that runs waits for ever, or does a step.
  runner : (k i : ℕ) (w : Worker) → s.workers k ≡ w → peer_of w ≡ some i → Waits s ⊎ MovesOn job s
  unfolding worker_move request end_thread
  runner k i absent e runs = absurd (cc)
  runner k i over e runs = absurd (cc)
  runner k i (started peer slot) e runs = inr (turn k _ _ e (update-same s.workers k _) (λ q. cc))
  runner k i (working peer slot (c ∷ todo) v) e runs = inr (
      turn k _ _ e (update-same s.workers k (working peer slot todo v))
        (λ q. omega (arith, ap left_of q)))
  runner k i (working peer slot [] finished) e runs =
      inr (turn k _ _ e (update-same s.workers k over) (λ q. cc))
  runner k i (working peer slot [] failed) e runs =
      inr (turn k _ _ e (update-same s.workers k over) (λ q. cc))
  runner k i (working peer slot [] stalled) e runs = inl (k, peer, slot, e)
  runner k i (working peer slot [] out_of_fuel) e runs =
      absurd ((subst (Due job content s.temps) e (h.files.due k)).0 refl)

  one_runs : is_all_zero job.num_peers s.peer_flag ≡ false → Waits s ⊎ MovesOn job s
  one_runs e =
      let (i, one) = not_zero-one job.num_peers s.peer_flag e in
      let (k, runs) = h.table.flagged i one in runner k i (s.workers k) refl runs

  pub main-moves :
      (m : Main) → s.main ≡ m → (s.main ≡ left) ⊎ (AllFailed job s ⊎ (Waits s ⊎ MovesOn job s))
  unfolding next_move create
  main-moves (starting i) e = inr (
      inr (
        inr (elim (Bool-cases (ltb i job.num_peers)) [
          | inl more ↦
              main_turn (starting i) (starting (i + 1)) e (rw more refl)
                (λ q. omega (arith, ap place_of q))
          | inr past ↦ main_turn (starting i) waiting e (rw past refl) (λ q. cc)
        ])))
  main-moves waiting e = elim (Bool-cases (is_all_zero job.num_peers s.peer_flag)) [
    | inl z ↦ inr (inr (inr (main_turn waiting (passing 0 false) e (rw z refl) (λ q. cc))))
    | inr busy ↦ inr (inr (one_runs busy))
  ]
  main-moves (passing i mark) e = inr (
      inr (
        inr (elim (Bool-cases (ltb i job.num_tmpt_file)) [
          | inl more ↦
              elim (Bool-cases
                (ltb (get_file_size (s.temps (piece_at job i))) (piece_at job i).len)) [
                  | inl short ↦
                      main_turn (passing i mark) (finding i) e (rw (more, short) refl) (λ q. cc)
                  | inr long ↦
                      main_turn (passing i mark) (passing (i + 1) mark) e (rw (more, long) refl)
                        (λ q. omega (arith, ap place_of q))
                ]
          | inr past ↦
              main_turn (passing i mark) (if mark then waiting else left) e (rw past refl)
                (behind mark)
        ])))
    where
      behind : (mark : Bool) → (if mark then waiting else left) ≢ passing i mark
      behind true q = absurd (cc)
      behind false q = absurd (cc)
  main-moves (finding i) e =
      elim (Option-cases (get_available_peer_idx job.num_peers s.peer_flag)) [
        | inl nobody ↦ elim (Bool-cases (is_all_zero job.num_peers s.peer_flag)) [
          | inl z ↦ inr (
              inl (
                i,
                e,
                λ j l. omega (
                  arith,
                  h.table.small j,
                  all_zero-not_one job.num_peers s.peer_flag z j l,
                  none-busy job.num_peers s.peer_flag nobody h.table.enough j l,
                ),
              ))
          | inr busy ↦ inr (inr (one_runs busy))
        ]
        | inr (peer, found) ↦ inr (
            inr (
              inr (
                main_turn (finding i) (passing (i + 1) true) e (rw (next_move, found) refl)
                  (λ q. cc))))
      ]
  main-moves left e = inl e

-- A download of a file whose names are read back never hangs but for two reasons. In every state that it reaches the main thread is
-- behind its loop; or it looks for a peer while every peer has failed; or a thread waits in `recv`
-- for ever; or some thread has a step that changes the state.
pub download_file_multi_thread-MovesOn :
    (z : Zlib) (meets : ℕ → Piece → Bytes → Meeting) (f : FileNode) (found : Option Bytes)
    (content : Bytes) (temps : Temps)
    → IsLawful z
    → CanBegin f found content
    → f.num_peers ≤ max_peers
    → AllHold content temps
    → Answers (download_job z meets f found) content
    → (s : State) → Reach (download_job z meets f found) (download_start found temps) s
    → (s.main ≡ left)
      ⊎ (AllFailed (download_job z meets f found) s
          ⊎ (Waits s ⊎ MovesOn (download_job z meets f found) s))
download_file_multi_thread-MovesOn z meets f found content temps lawful v peers held answers s r =
    main-moves (download_job z meets f found) content
      (names z meets f found content temps lawful v peers held answers) s
      (Reach-Inv z meets f found content temps lawful v peers held answers r) s.main refl
