-- ===== src/Assembly/Resume.antt =====
-- A round of the download with peers that answer: threads for the temporary files that are missing
-- or too short, as a new download starts them for all pieces and a resumed one for those of the
-- pass, and the merge behind them.
mod Tests
use mathlib.Core.Path.{subst}
use networks_dartsync.Base.{
  ℕ, zero, suc, ◌+◌, ◌*◌, ◌≤◌, ◌<◌, ◌≡◌, refl, sym, ap, ◌∙◌, List, [], ◌∷◌, Bool, true, false, ◌||◌,
  ◌&&◌, Option, none, some, arith, ltb, ◌==◌, if◌then◌else◌, length, take, drop, take_all,
  length-take, length-drop, All, All-mono, Bool-cases, inl, inr,
}
use networks_dartsync.Base.Bytes.{Bytes}
use networks_dartsync.Compression.{Zlib, IsLawful, compress_stream}
use networks_dartsync.Wire.{Socket}
use networks_dartsync.Pieces.{Piece, pieces, slice}
use networks_dartsync.Pieces.Tiling.{int_limit}
use networks_dartsync.Transfer.{buffer_size, Download, download_handler, finished, stop}
use networks_dartsync.Transfer.Exchange.{answer, download_handler-whole}
use networks_dartsync.Assembly.{Temps, get_file_size, unfinished, same_piece, merge_temps}
use networks_dartsync.Assembly.Whole.{Holds, merge_temps-whole}
use networks_dartsync.Assembly.Download.{
  Thread, temp_before, temp_after, run_thread, run_threads, AllHold, before-IsPart, pieces-within,
}

-- Nothing goes wrong for the thread: the other peer has the content and all its sends succeed, what
-- it sends arrives, in any portions, and the disk takes the piece.
pub record Works (z : Zlib) (content : Bytes) (temps : Temps) (t : Thread) : Type 0 where
  pub within : t.piece.start + t.piece.len ≤ length content
  pub sends : 2 * t.piece.len ≤ t.sends
  pub opened : t.opened ≡ true
  pub room : t.piece.len ≤ t.room
  pub connection : Socket
  pub connected : t.socket ≡ some connection
  pub arrives :
      connection.bytes
      ≡ (answer z content t.piece.start t.piece.len (temp_before temps t) t.sends).sent

abbrev pub AllWork : Zlib → Bytes → List Thread → Temps → Type 0
AllWork z content [] temps = Unit
AllWork z content (t ∷ threads) temps =
    Works z content temps t × AllWork z content threads (run_thread z t temps)

-- Whether a thread is for the piece.
abbrev pub asked : List Thread → Piece → Bool
asked [] p = false
asked (t ∷ threads) p = same_piece t.piece p || asked threads p

same_piece-eq : (p q : Piece) → same_piece p q ≡ true → p ≡ q
same_piece-eq p q same = ground arith

module _ (z : Zlib) (L : IsLawful z) (content : Bytes)
    (compresses : (s : Bytes)
      → length s ≤ buffer_size
      → (c : Bytes) × (compress_stream z s ≡ some c)) where
  temp_after-Works :
      (temps : Temps) (t : Thread)
      → Works z content temps t
      → AllHold content temps
      → temp_after z temps t ≡ some (slice t.piece content)
  unfolding temp_after
  temp_after-Works temps t w h =
      let done =
        download_handler-whole content t.piece.start t.piece.len w.within (temp_before temps t)
          (before-IsPart content temps t (h t.piece w.within)) z L t.sends compresses t.room
          w.connection w.sends w.room w.arrives in
      rw (temp_after, w.connected, w.opened) (ap (λ (d : Download). some d.temp) done)

  run_thread-Works :
      (temps : Temps) (t : Thread) (q : Piece)
      → Works z content temps t
      → AllHold content temps
      → run_thread z t temps q ≡ (if same_piece t.piece q then some (slice q content) else temps q)
  unfolding run_thread
  run_thread-Works temps t q w h = elim (Bool-cases (same_piece t.piece q)) [
    | inl same ↦
        rw (run_thread, same, ← same_piece-eq t.piece q same) (temp_after-Works temps t w h)
    | inr other ↦ rw (run_thread, other) refl
  ]

  run_thread-AllHold :
      (temps : Temps) (t : Thread)
      → Works z content temps t
      → AllHold content temps
      → AllHold content (run_thread z t temps)
  run_thread-AllHold temps t w h q within = elim (Bool-cases (same_piece t.piece q)) [
    | inl same ↦ inr (
      slice q content,
      run_thread-Works temps t q w h ∙ rw same refl,
      (length (slice q content), sym (take_all _ (slice q content) (omega arith))),
    )
    | inr other ↦ rw (run_thread-Works temps t q w h, other) (h q within)
  ]

  run_threads-Works :
      (threads : List Thread) (temps : Temps)
      → AllWork z content threads temps
      → AllHold content temps
      → AllHold content (run_threads z threads temps)
        × ((q : Piece)
            → run_threads z threads temps q
              ≡ (if asked threads q then some (slice q content) else temps q))
  unfolding run_threads
  run_threads-Works [] temps v h = (h, λ q. refl)
  run_threads-Works (t ∷ threads) temps (w, v) h =
      let (held, each) =
        run_threads-Works threads (run_thread z t temps) v (run_thread-AllHold temps t w h) in
      (held, λ q. each q ∙ merged q (run_thread-Works temps t q w h))
    where
      merged :
          (q : Piece)
          → run_thread z t temps q
            ≡ (if same_piece t.piece q then some (slice q content) else temps q)
          → (if asked threads q then some (slice q content) else run_thread z t temps q)
            ≡ (if same_piece t.piece q || asked threads q then some (slice q content) else temps q)
      merged q e = rw e (both (same_piece t.piece q) (asked threads q))
        where
          both :
              (a b : Bool)
              → (if b
                  then some (slice q content)
                  else if a
                  then some (slice q content)
                  else temps q)
                ≡ (if a || b then some (slice q content) else temps q)
          both true true = refl
          both true false = refl
          both false true = refl
          both false false = refl

get_file_size-slice :
    (content : Bytes) (p : Piece)
    → p.start + p.len ≤ length content
    → get_file_size (some (slice p content)) ≡ p.len
get_file_size-slice content p within =
    omega (arith, length-take p.len (drop p.start content), length-drop p.start content)

-- What is long enough, or complete behind the threads, is not found by the pass.
unfinished-none :
    (content : Bytes) (threads : List Thread) (before after : Temps) (ps : List Piece)
    → ((q : Piece) → after q ≡ (if asked threads q then some (slice q content) else before q))
    → All (λ p. p.start + p.len ≤ length content) ps
    → All (λ p. asked threads p ≡ true) (unfinished before ps)
    → unfinished after ps ≡ []
unfolding unfinished
unfinished-none content threads before after [] each w h = refl
unfinished-none content threads before after (p ∷ ps) each (within, w) h =
    let size = get_file_size-slice content p within in
    let enough : ltb p.len p.len ≡ false = ground arith in
    elim (Bool-cases (ltb (get_file_size (before p)) p.len)) [
      | inl short ↦
          let (here, rest) : (asked threads p ≡ true)
              × All (λ q. asked threads q ≡ true) (unfinished before ps) =
            subst
              (λ b.
                All (λ q. asked threads q ≡ true)
                  (if b then p ∷ unfinished before ps else unfinished before ps))
              short h in
          let tail = unfinished-none content threads before after ps each w rest in
          rw (each p, here, size, enough) tail
      | inr long ↦
          let rest : All (λ q. asked threads q ≡ true) (unfinished before ps) =
            subst
              (λ b.
                All (λ q. asked threads q ≡ true)
                  (if b then p ∷ unfinished before ps else unfinished before ps))
              long h in
          let tail = unfinished-none content threads before after ps each w rest in
          elim (Bool-cases (asked threads p)) [
            | inl here ↦ rw (each p, here, size, enough) tail
            | inr not_here ↦ rw (each p, not_here, long) tail
          ]
    ]

-- A download finishes. From any temporary files that hold first parts of their pieces, one round of
-- threads that work, which are for all the pieces that the pass finds too short and may be for
-- others, leaves none that is too short, and the merge writes exactly the content.
pub merge_temps-Works :
    (z : Zlib) (content : Bytes) (num : ℕ) (threads : List Thread) (temps : Temps)
    → IsLawful z
    → ((s : Bytes) → length s ≤ buffer_size → (c : Bytes) × (compress_stream z s ≡ some c))
    → length content < int_limit
    → num < int_limit
    → 0 < num
    → AllHold content temps
    → AllWork z content threads temps
    → All (λ p. asked threads p ≡ true) (unfinished temps (pieces (length content) num))
    → (unfinished (run_threads z threads temps) (pieces (length content) num) ≡ [])
      × ((merge_temps (run_threads z threads temps) (pieces (length content) num) []).written
          ≡ content)
unfolding pieces
merge_temps-Works z content num threads temps L compresses small few one held works covered =
    let (after, each) = run_threads-Works z L content compresses threads temps works held in
    let within = pieces-within (length content) num small few one num 0 (omega arith) in
    let done =
      unfinished-none content threads temps (run_threads z threads temps)
        (pieces (length content) num) each within covered in
    (
      done,
      (merge_temps-whole content num (run_threads z threads temps) small few one
          (All-mono after _ within) done).0,
    )
