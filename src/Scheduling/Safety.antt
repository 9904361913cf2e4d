-- ===== src/Scheduling/Safety.antt =====
-- Whatever the order of the steps, the threads of a download keep apart, and behind the loop of the
-- main thread the temporary files are complete.
use mathlib.Core.Path.{subst}
use networks_dartsync.Base.{
  ℕ, zero, suc, ◌+◌, ◌≤◌, ◌<◌, ◌≡◌, ◌≢◌, ◌⊎◌, refl, sym, ◌∙◌, List, [], ◌∷◌, false, Option, none,
  some, arith, ltb, ◌==◌, length, get_or, Bool-cases, inl, inr, All, All-mono, replicate,
  length-replicate,
}
use networks_dartsync.Base.Bytes.{Bytes}
use networks_dartsync.Compression.{Zlib, IsLawful}
use networks_dartsync.Pieces.{Piece, piece, pieces_from, pieces}
use networks_dartsync.FileTable.{FileNode, max_peers, zero_peers}
use networks_dartsync.Assembly.{Temps, get_file_size, same_piece, unfinished, merge_temps}
use networks_dartsync.Assembly.Whole.{merge_temps-whole}
use networks_dartsync.Assembly.Download.{AllHold, pieces-within}
use networks_dartsync.Assembly.Begin.{begun}
use networks_dartsync.Assembly.Begin.Finish.{CanBegin, begun-bounds}
use networks_dartsync.Scheduling.{
  Meeting, Job, Worker, absent, started, working, over, left, State, piece_at, worker_move, Reach,
  start, later, download_job, download_start,
}
use networks_dartsync.Scheduling.Invariant.{peer_of, slot_of, Place, Inv}
use networks_dartsync.Scheduling.Files.{Answers}
use networks_dartsync.Scheduling.Named.{Named, readable-Named, Step-next}
use networks_dartsync.Scheduling.Moves.{next_move-Inv, worker_move-Inv, other_file}

zero-get : (n i : ℕ) → ◌≡◌ {A = ℕ} (get_or (replicate n 0) i 0) 0
zero-get zero i = refl
zero-get (suc n) zero = refl
zero-get (suc n) (suc i) = zero-get n i

no_flag : (i : ℕ) → get_or zero_peers i 0 ≡ 0
unfolding zero_peers
no_flag i = zero-get max_peers i

length-zero_peers : length zero_peers ≡ max_peers
unfolding zero_peers
length-zero_peers = length-replicate {A = ℕ} max_peers 0

pieces_from-All :
    (P : Piece → Type 0) (size num : ℕ)
    → ((i : ℕ) → i < num → P (piece size num i))
    → (k i : ℕ) → i + k ≡ num
    → All P (pieces_from k size num i)
unfolding pieces_from
pieces_from-All P size num h zero i e = tt
pieces_from-All P size num h (suc k) i e =
    (h i (omega arith), pieces_from-All P size num h k (i + 1) (omega arith))

none-unfinished :
    (temps : Temps) (ps : List Piece)
    → All (λ p. ltb (get_file_size (temps p)) p.len ≡ false) ps
    → unfinished temps ps ≡ []
unfolding unfinished
none-unfinished temps [] h = refl
none-unfinished temps (p ∷ ps) (long, h) = rw long (none-unfinished temps ps h)

peer-slot : (w : Worker) (a : ℕ) → slot_of w ≡ some a → (i : ℕ) × (peer_of w ≡ some i)
peer-slot absent a e = absurd (cc)
peer-slot (started peer slot) a e = (peer, refl)
peer-slot (working peer slot todo v) a e = (peer, refl)
peer-slot over a e = absurd (cc)

module _ (z : Zlib) (meets : ℕ → Piece → Bytes → Meeting) (f : FileNode) (found : Option Bytes)
    (content : Bytes) (temps : Temps) (lawful : IsLawful z) (v : CanBegin f found content)
    (peers : f.num_peers ≤ max_peers) (held : AllHold content temps)
    (answers : Answers (download_job z meets f found) content) where
  abbrev job : Job
  job = download_job z meets f found

  start-Place : Place job (download_start found temps).main zero_peers temps (λ k. absent)
  unfolding download_job download_start begun
  start-Place = elim (Bool-cases (get_file_size found == 0)) [
    | inl fresh ↦ rw fresh (record {
      fits = (refl, omega arith, λ j l. no_flag j);
      below = λ k i e. absurd (cc);
      quiet = λ q. absurd (ground arith);
      long = λ j l. absurd (omega arith);
    })
    | inr resumed ↦ rw resumed (record {
      fits = tt;
      below = λ k i e. absurd (cc);
      quiet = λ q. absurd (ground arith);
      long = λ j l. absurd (omega arith);
    })
  ]

  start-Inv : Inv job content (download_start found temps)
  unfolding download_job download_start
  start-Inv = record {
    table = record {
      enough = omega (arith, length-zero_peers);
      small = λ i. omega (arith, no_flag i);
      fresh = λ k l. refl;
      flagged = λ i e. absurd (omega (arith, no_flag i));
      busy = λ k i e. absurd (cc);
      one_each = λ j k i a b. absurd (cc);
      one_piece = λ j k i a b. absurd (cc);
    };
    files = record { held = held; due = λ k. tt };
    place = start-Place;
  }

  pub names : Named job
  unfolding download_job
  names =
      let (one, few) = begun-bounds f found content v in
      readable-Named job v.readable (omega (arith, v.size, v.small)) few one

  worker-Inv :
      (k more : ℕ) (t : State)
      → Inv job content t
      → Inv job content (worker_move job (t.workers k) k more t)
  unfolding download_job
  worker-Inv k more t h =
      let (one, few) = begun-bounds f found content v in
      worker_move-Inv job content (sym v.size) (omega (arith, v.size, v.small)) few one lawful
        answers (t.workers k) k more t refl h

  pub Reach-Inv : {s : State} → Reach job (download_start found temps) s → Inv job content s
  Reach-Inv start = start-Inv
  Reach-Inv (later {t} {u} r step) =
      let h = Reach-Inv r in
      elim (Step-next job names content t h step) [
        | inl e ↦ subst (Inv job content) (sym e) (next_move-Inv job content t.main t refl h)
        | inr (k, more, e) ↦ subst (Inv job content) (sym e) (worker-Inv k more t h)
      ]

  -- For a file whose name has no "__", does not end in "_" and has fewer than 125 characters, in
  -- whatever order the main thread and the others take their steps, two threads of a download
  -- that run at once are for different peers, and for different temporary files unless the piece of
  -- the second one is empty.
  pub download_handler-apart :
      (s : State)
      → Reach job (download_start found temps) s
      → (j k a b : ℕ) → j ≢ k
      → slot_of (s.workers j) ≡ some a
      → slot_of (s.workers k) ≡ some b
      → (peer_of (s.workers j) ≢ peer_of (s.workers k))
        × ((same_piece (piece_at job a) (piece_at job b) ≡ false) ⊎ ((piece_at job b).len ≡ 0))
  unfolding download_job
  download_handler-apart s r j k a b other ea eb =
      let h = Reach-Inv r in
      let (one, few) = begun-bounds f found content v in
      (
        λ same.
            let (i, runs) = peer-slot (s.workers j) a ea in
            other (h.table.one_each j k i runs (sym same ∙ runs)),
        other_file job content (sym v.size) (omega (arith, v.size, v.small)) few one lawful answers
            s h k j a b other ea eb,
      )

  -- A download of a file whose name has no "__", does not end in "_" and has fewer than 125
  -- characters never yields a wrong file, in whatever order the main thread and the others take
  -- their steps, however many bytes each writes at a time and whatever part of what the peers send
  -- arrives: once the main thread is behind its loop, no thread runs, and the merge writes exactly
  -- the content.
  pub download_file_multi_thread-whole :
      (s : State)
      → Reach job (download_start found temps) s
      → s.main ≡ left
      → ((k : ℕ) → peer_of (s.workers k) ≡ none)
        × ((merge_temps s.temps (pieces job.size job.num_tmpt_file) []).written ≡ content)
  unfolding download_job piece_at pieces
  download_file_multi_thread-whole s r e =
      let h = Reach-Inv r in
      let (one, few) = begun-bounds f found content v in
      let p = subst (λ m. Place job m s.peer_flag s.temps s.workers) e h.place in
      let num = job.num_tmpt_file in
      let long =
        pieces_from-All (λ q. ltb (get_file_size (s.temps q)) q.len ≡ false) f.size num p.long num 0
          (omega arith) in
      let done : unfinished s.temps (pieces f.size num) ≡ [] = none-unfinished s.temps _ long in
      (
        p.quiet refl,
        subst (λ n. (merge_temps s.temps (pieces n num) []).written ≡ content) (sym v.size)
            (merge_temps-whole content num s.temps v.small few one
              (All-mono h.files.held _
                (pieces-within (length content) num v.small few one num 0 (omega arith)))
              (subst (λ n. unfinished s.temps (pieces n num) ≡ []) v.size done)).0,
      )
