-- ===== src/Scheduling/Files.antt =====
-- The temporary files stay first parts of their pieces, with what the threads have not yet written.
use mathlib.Core.Path.{subst}
use networks_dartsync.Base.{
  ℕ, ◌+◌, ◌≤◌, ◌≡◌, ◌≢◌, ◌⊎◌, refl, sym, ap, ◌∙◌, [], ◌∷◌, ◌++◌, true, false, Bool, Option, none,
  some, arith, ◌==◌, if◌then◌else◌, length, take, drop, inl, inr, append_assoc, take-append-drop,
  drop_all, ℕ_discrete, if_cases,
}
use networks_dartsync.Base.Bytes.{Bytes}
use networks_dartsync.Compression.{IsLawful}
use networks_dartsync.Wire.{Socket}
use networks_dartsync.Pieces.{Piece, slice}
use networks_dartsync.Transfer.{Verdict, download_handler}
use networks_dartsync.Transfer.Piecewise.{IsPart}
use networks_dartsync.Transfer.Fuel.{download_handler-fuel}
use networks_dartsync.Transfer.Exchange.{answer, download_handler-IsPart}
use networks_dartsync.Assembly.{Temps, same_piece}
use networks_dartsync.Assembly.Download.{AllHold}
use networks_dartsync.Scheduling.{
  Meeting, Job, Worker, working, bytes_of, write, opens, piece_at, update, outcome,
}
use networks_dartsync.Scheduling.Growth.{download_handler-append}
use networks_dartsync.Scheduling.Invariant.{slot_of, Due, Files}
use networks_dartsync.Scheduling.Writes.{
  IsPart-front, write-same, bytes_of-IsPart, write-AllHold, open-Due, other-Due,
}

-- What arrives at a thread is a first part of what a peer with the content sends for its request.
abbrev pub Answers : Job → Bytes → Type 0
Answers job content =
    (k : ℕ) (p : Piece) (before : Bytes) (s : Socket)
    → (job.meets k p before).socket ≡ some s
    → s.bytes
      ≡ take (job.meets k p before).arrived
          (answer job.z content p.start p.len before (job.meets k p before).sends).sent

-- What a thread appends, if it opens its temporary file.
appended :
    (job : Job) (content : Bytes) (p : Piece) (before : Bytes) (opened : Bool)
    (room sends arrived : ℕ) (s : Option Socket)
    → IsLawful job.z
    → p.start + p.len ≤ length content
    → IsPart before (slice p content)
    → ((x : Socket)
        → s ≡ some x
        → x.bytes ≡ take arrived (answer job.z content p.start p.len before sends).sent)
    → (drop (length before) (download_handler job.z opened room p.start p.len before s).temp ≡ [])
      ⊎ ((opens s opened ≡ true)
          × IsPart
              (before
                ++ drop
                    (length before)
                    (download_handler job.z opened room p.start p.len before s).temp)
              (slice p content))
unfolding download_handler
appended job content p before opened room sends arrived none lawful l part answers =
    inl (drop_all (length before) before (omega arith))
appended job content p before false room sends arrived (some s) lawful l part answers =
    inl (drop_all (length before) before (omega arith))
appended job content p before true room sends arrived (some s) lawful l part answers = inr (
  refl,
  subst (λ t. IsPart t (slice p content))
      (download_handler-append job.z true room p.start p.len before (some s))
      (download_handler-IsPart content p.start p.len l before part job.z lawful sends true room
        arrived s (answers s refl)),
)

module _ (job : Job) (content : Bytes) (lawful : IsLawful job.z) (answers : Answers job content)
    (k peer slot : ℕ) (temps : Temps) (workers : ℕ → Worker)
    (l : (piece_at job slot).start + (piece_at job slot).len ≤ length content)
    (h : Files job content temps workers) where
  abbrev p : Piece
  p = piece_at job slot

  abbrev before : Bytes
  before = bytes_of (temps p)

  abbrev m : Meeting
  m = job.meets k p before

  part : IsPart before (slice p content)
  part = bytes_of-IsPart content temps p (h.held p l)

  abbrev opened_temps : Temps
  opened_temps = if opens m.socket m.opened then write p before temps else temps

  request-Due : Due job content opened_temps (
      working peer slot
        (drop (length before) (outcome job k p before).temp)
        (outcome job k p before).verdict)
  unfolding outcome
  request-Due =
      let d = outcome job k p before in
      (
        download_handler-fuel job.z m.opened m.room p.start p.len before m.socket,
        elim (appended job content p before m.opened m.room m.sends m.arrived m.socket lawful l part
            (answers k p before)) [
              | inl nothing ↦ inl nothing
              | inr (opens_it, more) ↦ inr (before, rw opens_it (write-same p before temps), more)
            ],
      )

  pub request-Files : Files job content opened_temps (
      update workers k (
        working peer slot
          (drop (length before) (outcome job k p before).temp)
          (outcome job k p before).verdict))
  request-Files = record {
    held =
        if_cases (AllHold content) (opens m.socket m.opened)
          (write-AllHold content temps p before part h.held) h.held;
    due = λ j. if_cases (Due job content opened_temps) (k == j) request-Due (
        if_cases (λ (t : Temps). Due job content t (workers j)) (opens m.socket m.opened)
          (open-Due job content temps p (workers j) (h.due j)) (h.due j));
  }

module _ (job : Job) (content : Bytes) (peer slot : ℕ) (todo : Bytes) (v : Verdict) (more : ℕ)
    (temps : Temps) where
  abbrev written : ℕ → Bytes
  written c = bytes_of (temps (piece_at job slot)) ++ c ∷ take more todo

  Parts :
      (c : ℕ)
      → Due job content temps (working peer slot (c ∷ todo) v)
      → IsPart (written c ++ drop more todo) (slice (piece_at job slot) content)
  Parts c (v_ok, inl done) = absurd (ground arith)
  Parts c (v_ok, inr (bytes, there, part)) =
      subst (λ t. IsPart t (slice (piece_at job slot) content))
        (ap (λ t. bytes ++ c ∷ t) (sym (take-append-drop more todo))
          ∙ sym (append_assoc bytes (c ∷ take more todo) (drop more todo))
          ∙ ap (λ o. (bytes_of o ++ c ∷ take more todo) ++ drop more todo) (sym there))
        part

  pub write-Files :
      (k c : ℕ) (workers : ℕ → Worker)
      → workers k ≡ working peer slot (c ∷ todo) v
      → (piece_at job slot).start + (piece_at job slot).len ≤ length content
      → ((j i : ℕ)
          → k ≢ j
          → slot_of (workers j) ≡ some i
          → (same_piece (piece_at job slot) (piece_at job i) ≡ false) ⊎ ((piece_at job i).len ≡ 0))
      → Files job content temps workers
      → Files job content
          (write (piece_at job slot) (written c) temps)
          (update workers k (working peer slot (drop more todo) v))
  write-Files k c workers e l free h = record {
    held =
        write-AllHold content temps p (written c) (IsPart-front _ (drop more todo) _ grown) h.held;
    due = λ j. elim (ℕ_discrete k j) [
      | yes same ↦
          let b : (k == j) ≡ true = ground arith in
          rw b (due_k.0, inr (written c, write-same p (written c) temps, grown))
      | no other ↦
          let b : (k == j) ≡ false = ground arith in
          rw b
            (other-Due job content temps p (written c) (workers j) (λ i. free j i other) (h.due j))
    ];
  }
    where
      p : Piece
      p = piece_at job slot

      due_k : Due job content temps (working peer slot (c ∷ todo) v)
      due_k = subst (Due job content temps) e (h.due k)

      grown : IsPart (written c ++ drop more todo) (slice (piece_at job slot) content)
      grown = Parts c due_k
