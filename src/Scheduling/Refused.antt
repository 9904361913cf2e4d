-- ===== src/Scheduling/Refused.antt =====
-- A download of `download_file_multi_thread` (utils/peer2peer.c) of which every peer has failed.
use networks_dartsync.Base.{
  ℕ, ◌+◌, ◌≤◌, ◌<◌, ◌≡◌, ◌≢◌, refl, sym, ap, ◌∙◌, true, false, Option, none, some, arith, ltb,
  lt→ltb, get_or, Bool-cases, Option-cases, inl, inr, ℕ_discrete, if_cases,
}
use mathlib.Core.Path.{subst}
use mathlib.Core.Option.{some-injective}
use networks_dartsync.Assembly.{Temps, get_file_size, get_available_peer_idx, is_all_zero}
use networks_dartsync.Assembly.Names.{tempfilename}
use networks_dartsync.Scheduling.{
  Job, Worker, absent, started, working, over, Main, starting, waiting, passing, finding, left,
  State, at, piece_at, main_move, main_step, worker_move, worker_step, overruns, Step, main_moves,
  worker_moves, Reach, start, later,
}
use networks_dartsync.Scheduling.Place.{available-free}
use networks_dartsync.Scheduling.Invariant.{peer_of}

-- Every peer has failed, no thread runs, and a piece is too short.
pub record Refused (job : Job) (i : ℕ) (s : State) : Type 0 where
  pub failed : (j : ℕ) → j < job.num_peers → get_or s.peer_flag j 0 ≡ 2
  pub idle : (k : ℕ) → peer_of (s.workers k) ≡ none
  pub piece_lt : i < job.num_tmpt_file
  pub short : ltb (get_file_size (s.temps (piece_at job i))) (piece_at job i).len ≡ true

-- The main thread is before a pass, or in one that has not come behind the piece.
Before : ℕ → Main → Type 0
Before i (starting j) = ⊥
Before i waiting = Unit
Before i (passing j mark) = j ≤ i
Before i (finding j) = Unit
Before i left = ⊥

-- Nothing but the place of the main thread has changed.
record Same (i : ℕ) (s t : State) : Type 0 where
  place : Before i t.main
  temps : t.temps ≡ s.temps
  flags : t.peer_flag ≡ s.peer_flag
  workers : t.workers ≡ s.workers

module _ (job : Job) (i : ℕ) (s : State) (r : Refused job i s) where
  nobody : get_available_peer_idx job.num_peers s.peer_flag ≡ none
  nobody = elim (Option-cases (get_available_peer_idx job.num_peers s.peer_flag)) [
    | inl e ↦ e
    | inr (j, found) ↦
        let (l, free) = available-free job.num_peers s.peer_flag j found in
        absurd (omega (arith, free, r.failed j l))
  ]

  at-Same : (m : Main) → Before i m → Same i s (at m s)
  at-Same m b = record { place = b; temps = refl; flags = refl; workers = refl }

  main_move-Same :
      (m : Main) (t : State) → s.main ≡ m → Before i m → main_move job m s ≡ some t → Same i s t
  unfolding main_move Before
  main_move-Same (starting j) t e b h = absurd b
  main_move-Same left t e b h = absurd b
  main_move-Same waiting t e b h = subst (Same i s) (some-injective _ _ h) (
      if_cases (Same i s) (is_all_zero job.num_peers s.peer_flag)
        (at-Same (passing 0 false) (omega arith))
        (record {
          place = subst (Before i) (sym e) tt;
          temps = refl;
          flags = refl;
          workers = refl;
        }))
  main_move-Same (finding j) t e b h =
      let stays : main_move job (finding j) s ≡ some s = rw (main_move, nobody) refl in
      subst (Same i s) (some-injective s t (sym stays ∙ h))
        (record { place = subst (Before i) (sym e) tt; temps = refl; flags = refl; workers = refl })
  main_move-Same (passing j mark) t e b h =
      let more : ltb j job.num_tmpt_file ≡ true = lt→ltb _ _ (omega (arith, r.piece_lt, b)) in
      elim (Option-cases (tempfilename job.name job.timestamp (piece_at job j))) [
        | inl overrun ↦
            let stops : main_move job (passing j mark) s ≡ none = rw (more, overrun) refl in
            let bad : ◌≡◌ {A = Option State} none (some t) = sym stops ∙ h in absurd cc
        | inr (text, fits) ↦
            elim (Bool-cases
              (ltb (get_file_size (s.temps (piece_at job j))) (piece_at job j).len)) [
                | inl is_short ↦
                    let goes : main_move job (passing j mark) s ≡ some (at (finding j) s) =
                      rw (more, fits, is_short) refl in
                    subst (Same i s) (some-injective _ _ (sym goes ∙ h)) (at-Same (finding j) tt)
                | inr long ↦
                    let goes : main_move job (passing j mark) s
                        ≡ some (at (passing (j + 1) mark) s) =
                      rw (more, fits, long) refl in
                    subst (Same i s) (some-injective _ _ (sym goes ∙ h))
                      (at-Same (passing (j + 1) mark) (not_yet long))
              ]
      ]
    where
      not_yet :
          ltb (get_file_size (s.temps (piece_at job j))) (piece_at job j).len ≡ false → j + 1 ≤ i
      not_yet long = elim (ℕ_discrete j i) [
        | yes same ↦
            let l : ltb (get_file_size (s.temps (piece_at job i))) (piece_at job i).len ≡ false =
              subst
                (λ (n : ℕ).
                  ltb (get_file_size (s.temps (piece_at job n))) (piece_at job n).len ≡ false)
                same long in
            let bad : true ≡ false = sym r.short ∙ l in absurd cc
        | no other ↦ omega arith
      ]

  worker_step-same :
      (w : Worker) (k more : ℕ)
      → s.workers k ≡ w
      → peer_of w ≡ none
      → worker_step job k more s ≡ some s
  unfolding worker_step worker_move overruns
  worker_step-same absent k more e h = rw e refl
  worker_step-same over k more e h = rw e refl
  worker_step-same (started peer slot) k more e h = absurd cc
  worker_step-same (working peer slot todo v) k more e h = absurd cc

  Step-Same : {t : State} → Before i s.main → Step job s t → Same i s t
  unfolding main_step
  Step-Same {t} b (main_moves h) = main_move-Same s.main t refl b h
  Step-Same {t} b (worker_moves k more h) =
      subst (Same i s)
        (some-injective _ _ (sym (worker_step-same (s.workers k) k more refl (r.idle k)) ∙ h))
        (record { place = b; temps = refl; flags = refl; workers = refl })

module _ (job : Job) (i : ℕ) (s : State) (r : Refused job i s) (waits : s.main ≡ waiting) where
  Refused-Same : {t : State} → Same i s t → Refused job i t
  Refused-Same {t} h = record {
    failed = λ j l. ap (λ f. get_or f j 0) h.flags ∙ r.failed j l;
    idle = λ k. ap (λ w. peer_of (w k)) h.workers ∙ r.idle k;
    piece_lt = r.piece_lt;
    short =
        ap (λ (u : Temps). ltb (get_file_size (u (piece_at job i))) (piece_at job i).len) h.temps
        ∙ r.short;
  }

  Reach-Same : {t : State} → Reach job s t → Same i s t
  unfolding Before
  Reach-Same start = record {
    place = subst (Before i) (sym waits) tt;
    temps = refl;
    flags = refl;
    workers = refl;
  }
  Reach-Same (later {t} {u} p step) =
      let h = Reach-Same p in
      let g = Step-Same job i t (Refused-Same h) h.place step in
      record {
        place = g.place;
        temps = g.temps ∙ h.temps;
        flags = g.flags ∙ h.flags;
        workers = g.workers ∙ h.workers;
      }

  not_left : (m : Main) → Before i m → m ≢ left
  unfolding Before
  not_left (starting j) b e = b
  not_left waiting b e = cc
  not_left (passing j mark) b e = cc
  not_left (finding j) b e = cc
  not_left left b e = b

  -- A download of which every peer has failed never ends: where every flag is 2 while a piece is too
  -- short, no thread runs, and the main thread is before a pass, it never comes behind its loop,
  -- whatever steps follow, and no temporary file and no flag ever changes.
  pub download_file_multi_thread-refused :
      (t : State)
      → Reach job s t
      → (t.main ≢ left) × (t.temps ≡ s.temps) × (t.peer_flag ≡ s.peer_flag)
  download_file_multi_thread-refused t p =
      let h = Reach-Same p in (not_left t.main h.place, h.temps, h.flags)
