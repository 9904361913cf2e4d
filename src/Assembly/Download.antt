-- ===== src/Assembly/Download.antt =====
-- A whole download: any number of threads, each of which may fail, and the merge behind them.
mod Tests
use networks_dartsync.Base.{
  ℕ, zero, suc, ◌+◌, ◌-◌, ◌≤◌, ◌<◌, ◌≡◌, ◌⊎◌, refl, sym, ap, ◌∙◌, List, [], ◌∷◌, Bool, true, false,
  ◌&&◌, Option, none, some, arith, ◌==◌, if◌then◌else◌, length, take, All, All-mono, Bool-cases,
  Option-cases, inl, inr,
}
use networks_dartsync.Base.Bytes.{Bytes}
use networks_dartsync.Compression.{Zlib, IsLawful}
use networks_dartsync.Wire.{Socket}
use networks_dartsync.Pieces.{Piece, offset, piece, pieces_from, pieces, slice}
use networks_dartsync.Pieces.Tiling.{int_limit, next-eq, offset-le}
use networks_dartsync.Transfer.{Download, download_handler}
use networks_dartsync.Transfer.Piecewise.{IsPart}
use networks_dartsync.Transfer.Exchange.{answer, download_handler-IsPart}
use networks_dartsync.Assembly.{Temps, unfinished, same_piece, Merged, merge_temps}
use networks_dartsync.Assembly.Whole.{Holds, merge_temps-whole}

-- A thread for a piece: its connection, if there is one, how many sends of the other peer succeed
-- and how many bytes of them arrive, and what the local disk does.
pub record Thread : Type 0 where
  pub piece : Piece
  pub socket : Option Socket
  pub sends : ℕ
  pub arrived : ℕ
  pub opened : Bool
  pub room : ℕ

abbrev pub temp_before : Temps → Thread → Bytes
temp_before temps t = elim (temps t.piece) [ none ↦ [] | some s ↦ s ]

-- The temporary file behind the thread: `fopen` with "a" makes it.
unfoldable pub temp_after : Zlib → Temps → Thread → Option Bytes
temp_after z temps t = elim t.socket [
  | none ↦ temps t.piece
  | some s ↦
      if t.opened
      then some
          (download_handler z true t.room t.piece.start t.piece.len (temp_before temps t)
            (some s)).temp
      else temps t.piece
]

unfoldable pub run_thread : Zlib → Thread → Temps → Temps
run_thread z t temps = λ q. if same_piece t.piece q then temp_after z temps t else temps q

-- The threads work on different files, or one after the other on the same.
unfoldable pub run_threads : Zlib → List Thread → Temps → Temps
run_threads z [] temps = temps
run_threads z (t ∷ threads) temps = run_threads z threads (run_thread z t temps)

-- The piece is within the content, and what arrives is a first part of what a peer with the content
-- sends for the request.
abbrev pub Serves : Zlib → Bytes → Temps → Thread → Type 0
Serves z content temps t =
    (t.piece.start + t.piece.len ≤ length content)
    × ((s : Socket)
        → t.socket ≡ some s
        → s.bytes
          ≡ take t.arrived
              (answer z content t.piece.start t.piece.len (temp_before temps t) t.sends).sent)

abbrev pub AllServe : Zlib → Bytes → List Thread → Temps → Type 0
AllServe z content [] temps = Unit
AllServe z content (t ∷ threads) temps =
    Serves z content temps t × AllServe z content threads (run_thread z t temps)

-- Each temporary file of a piece within the content holds a first part of it.
abbrev pub AllHold : Bytes → Temps → Type 0
AllHold content temps = (p : Piece) → p.start + p.len ≤ length content → Holds content temps p

pub before-IsPart :
    (content : Bytes) (temps : Temps) (t : Thread)
    → Holds content temps t.piece
    → IsPart (temp_before temps t) (slice t.piece content)
before-IsPart content temps t (inl missing) = (0, ground arith)
before-IsPart content temps t (inr (s, there, (k, e))) = (k, ground arith)

module _ (z : Zlib) (L : IsLawful z) (content : Bytes) where
  temp_after-Holds :
      (temps : Temps) (t : Thread)
      → Serves z content temps t
      → AllHold content temps
      → (temp_after z temps t ≡ none)
        ⊎ ((s : Bytes) × (temp_after z temps t ≡ some s) × IsPart s (slice t.piece content))
  unfolding temp_after
  temp_after-Holds temps t (within, arrives) h = elim (Option-cases t.socket) [
    | inl failed ↦ rw (temp_after, failed) (h t.piece within)
    | inr (s, there) ↦ elim (Bool-cases t.opened) [
      | inl yes_opened ↦
          let part =
            download_handler-IsPart content t.piece.start t.piece.len within (temp_before temps t)
              (before-IsPart content temps t (h t.piece within)) z L t.sends true t.room t.arrived s
              (arrives s there) in
          inr (_, rw (temp_after, there, yes_opened) refl, part)
      | inr not_opened ↦ rw (temp_after, there, not_opened) (h t.piece within)
    ]
  ]

  run_thread-AllHold :
      (temps : Temps) (t : Thread)
      → Serves z content temps t
      → AllHold content temps
      → AllHold content (run_thread z t temps)
  unfolding run_thread
  run_thread-AllHold temps t serves h q within = elim (Bool-cases (same_piece t.piece q)) [
    | inl same ↦
        let e : t.piece ≡ q = piece_eq same in
        rw (run_thread, same, ← e) (temp_after-Holds temps t serves h)
    | inr other ↦ rw (run_thread, other) (h q within)
  ]
    where
      piece_eq : same_piece t.piece q ≡ true → t.piece ≡ q
      piece_eq same = ground arith

  run_threads-AllHold :
      (threads : List Thread) (temps : Temps)
      → AllServe z content threads temps
      → AllHold content temps
      → AllHold content (run_threads z threads temps)
  unfolding run_threads
  run_threads-AllHold [] temps served h = h
  run_threads-AllHold (t ∷ threads) temps (serves, served) h =
      run_threads-AllHold threads (run_thread z t temps) served
        (run_thread-AllHold temps t serves h)

pub pieces-within :
    (len num : ℕ)
    → len < int_limit
    → num < int_limit
    → 0 < num
    → (k i : ℕ) → i + k ≡ num
    → All (λ p. p.start + p.len ≤ len) (pieces_from k len num i)
unfolding pieces_from
pieces-within len num small few one zero i e = tt
pieces-within len num small few one (suc k) i e = (
  omega (
    arith,
    next-eq len num small few one i (omega arith),
    offset-le len num small few one (i + 1) (omega arith),
  ),
  pieces-within len num small few one k (i + 1) (omega arith),
)

-- A download never yields a wrong file. From temporary files that hold first parts of their pieces,
-- run any threads, each connected to a peer with the content or to none, whatever arrives of what
-- that peer sends and whatever the disk does: if then no temporary file is too short, the merge
-- writes exactly the content.
pub merge_temps-run_threads :
    (z : Zlib) (content : Bytes) (num : ℕ) (threads : List Thread) (temps : Temps)
    → IsLawful z
    → length content < int_limit
    → num < int_limit
    → 0 < num
    → AllHold content temps
    → AllServe z content threads temps
    → unfinished (run_threads z threads temps) (pieces (length content) num) ≡ []
    → (merge_temps (run_threads z threads temps) (pieces (length content) num) []).written ≡ content
unfolding pieces
merge_temps-run_threads z content num threads temps L small few one held served done =
    let after = run_threads-AllHold z L content threads temps served held in
    (merge_temps-whole content num (run_threads z threads temps) small few one
      (All-mono after _ (pieces-within (length content) num small few one num 0 (omega arith)))
      done).0
