-- ===== src/Assembly/Begin/Finish.antt =====
-- A download that has begun finishes in one round of threads that work.
use mathlib.Core.Path.{subst}
use mathlib.Core.Option.{some-injective}
use networks_dartsync.Base.{
  ℕ, zero, suc, ◌+◌, ◌≤◌, ◌<◌, ◌≡◌, refl, sym, ap, ◌∙◌, List, [], ◌∷◌, true, false, Option, none,
  some, arith, ltb, ◌==◌, length, map, All, All-mono, Bool-cases, inl, inr, ==_refl,
}
use networks_dartsync.Base.Bytes.{Bytes}
use networks_dartsync.Compression.{Zlib, IsLawful, compress_stream}
use networks_dartsync.FileTable.{FileNode, zero_peers}
use networks_dartsync.Pieces.{Piece, piece, pieces_from, pieces}
use networks_dartsync.Pieces.Tiling.{int_limit}
use networks_dartsync.Transfer.{buffer_size}
use networks_dartsync.Assembly.{Temps, get_file_size, unfinished, merge_temps}
use networks_dartsync.Assembly.Download.{Thread, run_threads, AllHold, pieces-within}
use networks_dartsync.Assembly.Resume.{asked, AllWork, merge_temps-Works}
use networks_dartsync.Assembly.Names.{IsReadable, resumed_pieces-own}
use networks_dartsync.Assembly.Begin.{
  lines_from, get_file_line_num, tasks_from, set_flags, Begun, begun, begin_download, first_round,
}

map-tasks_from :
    (k : ℕ) (s : FileNode) (i : ℕ)
    → map (λ u. u.piece) (tasks_from k s i) ≡ pieces_from k s.size s.num_peers i
unfolding tasks_from pieces_from
map-tasks_from zero s i = refl
map-tasks_from (suc k) s i = ap (λ ps. piece s.size s.num_peers i ∷ ps) (map-tasks_from k s (i + 1))

All-unfinished :
    (P : Piece → Type 0) (temps : Temps) (ps : List Piece) → All P ps → All P (unfinished temps ps)
unfolding unfinished
All-unfinished P temps [] h = tt
All-unfinished P temps (p ∷ ps) (here, h) =
    elim (Bool-cases (ltb (get_file_size (temps p)) p.len)) [
      | inl short ↦ rw short (here, All-unfinished P temps ps h)
      | inr long ↦ rw long (All-unfinished P temps ps h)
    ]

-- Every piece of a thread is asked for.
asked-All : (threads : List Thread) → All (λ p. asked threads p ≡ true) (map (λ t. t.piece) threads)
asked-All [] = tt
asked-All (t ∷ threads) = (
  rw (==_refl t.piece.start, ==_refl t.piece.len) refl,
  All-mono (λ p h. ground (arith, h)) _ (asked-All threads),
)

lines_from-pos : (k : ℕ) (s : Bytes) → 0 < lines_from (suc k) s
unfolding lines_from
lines_from-pos k [] = ground arith
lines_from-pos k (c ∷ s) = ground (arith, lines_from-pos (suc k) s)

lines_from-le : (k : ℕ) (s : Bytes) → lines_from k s ≤ suc (length s)
unfolding lines_from
lines_from-le k [] = ground arith
lines_from-le k (c ∷ s) = ground (arith, lines_from-le 0 s, lines_from-le (suc k) s)

-- A listing that is not empty has a line.
get_file_line_num-pos : (c : ℕ) (s : Bytes) → 0 < get_file_line_num (c ∷ s)
unfolding lines_from
get_file_line_num-pos c s = ground (arith, lines_from-pos 0 s)

-- What a download needs of its file and of the listing of its temporary files.
pub record CanBegin (s : FileNode) (found : Option Bytes) (content : Bytes) : Type 0 where
  pub size : s.size ≡ length content
  pub small : length content < int_limit
  pub some_peer : 0 < s.num_peers
  pub peers : s.num_peers < int_limit
  pub readable : IsReadable s.name s.timestamp
  pub listing : (text : Bytes) → found ≡ some text → length text + 1 < int_limit

pub begun-bounds :
    (s : FileNode) (found : Option Bytes) (content : Bytes)
    → CanBegin s found content
    → (0 < (begun s found).num_tmpt_file) × ((begun s found).num_tmpt_file < int_limit)
unfolding begun
begun-bounds s none content v = (v.some_peer, v.peers)
begun-bounds s (some []) content v = (v.some_peer, v.peers)
begun-bounds s (some (c ∷ text)) content v =
    let few = v.listing (c ∷ text) refl in
    let more : ((length (c ∷ text)) == 0) ≡ false = ground arith in
    rw more (get_file_line_num-pos c text, omega (arith, few, lines_from-le 0 (c ∷ text)))

pieces-short :
    (s : FileNode) (found : Option Bytes) (content : Bytes) (temps : Temps)
    → CanBegin s found content
    → (num : ℕ) → 0 < num
    → num < int_limit
    → All (λ p. (p.start < int_limit) × (p.len < int_limit)) (unfinished temps (pieces s.size num))
unfolding pieces
pieces-short s found content temps v num one few =
    let small = v.small in
    let within =
      pieces-within s.size num (omega (arith, v.size, v.small)) few one num 0 (omega arith) in
    All-unfinished (λ p. (p.start < int_limit) × (p.len < int_limit)) temps (pieces s.size num)
      (All-mono (λ p l. (omega (arith, v.size, small, l), omega (arith, v.size, small, l))) _
        within)

module _ (s : FileNode) (found : Option Bytes) (content : Bytes) (temps : Temps)
    (v : CanBegin s found content) (ps : List Piece) where
  fresh-covers :
      (flags : List ℕ) (k : ℕ)
      → k ≡ s.num_peers
      → first_round s temps
          (record { num_tmpt_file = s.num_peers; tasks = tasks_from k s 0; peer_flag = flags })
        ≡ some ps
      → (P : Piece → Type 0) → All P ps
      → All P (unfinished temps (pieces s.size s.num_peers))
  unfolding first_round tasks_from pieces
  fresh-covers flags zero e same P h = absurd (omega (arith, v.some_peer, e))
  fresh-covers flags (suc k) e same P h =
      let tasks = map-tasks_from (suc k) s 0 ∙ ap (λ n. pieces_from n s.size s.num_peers 0) e in
      All-unfinished P temps _ (subst (All P) (sym (some-injective _ _ same) ∙ tasks) h)

  resumed-covers :
      (num : ℕ)
      → 0 < num
      → num < int_limit
      → first_round s temps (record { num_tmpt_file = num; tasks = []; peer_flag = zero_peers })
        ≡ some ps
      → (P : Piece → Type 0) → All P ps
      → All P (unfinished temps (pieces s.size num))
  unfolding first_round
  resumed-covers num one few same P h =
      let own =
        resumed_pieces-own s.name s.timestamp v.readable (unfinished temps (pieces s.size num))
          (pieces-short s found content temps v num one few) in
      subst (All P) (some-injective _ _ (sym same ∙ own)) h

  -- The pass finds nothing that the first threads are not for.
  first_round-covers :
      first_round s temps (begun s found) ≡ some ps
      → (P : Piece → Type 0) → All P ps
      → All P (unfinished temps (pieces s.size (begun s found).num_tmpt_file))
  unfolding begun
  first_round-covers e P h =
      let (one, few) = begun-bounds s found content v in
      elim (Bool-cases (get_file_size found == 0)) [
        | inl new ↦
            let b : begun s found ≡ fresh = rw (begun, new) refl in
            subst Covers (sym b)
              (λ q.
                fresh-covers (set_flags (tasks_from s.num_peers s 0) zero_peers) s.num_peers refl q
                  P h)
              e
        | inr old ↦
            let b : begun s found ≡ resumed (begun s found).num_tmpt_file = rw (begun, old) refl in
            subst Covers (sym b) (λ q. resumed-covers (begun s found).num_tmpt_file one few q P h) e
      ]
    where
      fresh : Begun
      fresh = record {
        num_tmpt_file = s.num_peers;
        tasks = tasks_from s.num_peers s 0;
        peer_flag = set_flags (tasks_from s.num_peers s 0) zero_peers;
      }

      resumed : ℕ → Begun
      resumed num = record { num_tmpt_file = num; tasks = []; peer_flag = zero_peers }

      Covers : Begun → Type 0
      Covers b =
          first_round s temps b ≡ some ps → All P (unfinished temps (pieces s.size b.num_tmpt_file))

-- A download of a file whose name has no "__", does not end in "_" and has fewer than 125
-- characters, begun anew or gone on with, finishes in one round of threads that work: it has a peer,
-- so it begins; if its first threads, for all pieces or for those that the pass finds too short, each
-- work, no temporary file is too short behind them, and the merge writes exactly the content. The
-- number of pieces of a download that goes on may be another one than before.
pub begin_download-Works :
    (z : Zlib) (content : Bytes) (s : FileNode) (found : Option Bytes) (threads : List Thread)
    (temps : Temps)
    → IsLawful z
    → ((t : Bytes) → length t ≤ buffer_size → (c : Bytes) × (compress_stream z t ≡ some c))
    → CanBegin s found content
    → AllHold content temps
    → first_round s temps (begun s found) ≡ some (map (λ t. t.piece) threads)
    → AllWork z content threads temps
    → (b : Begun) × (begin_download s found ≡ some b)
      × (unfinished (run_threads z threads temps) (pieces s.size b.num_tmpt_file) ≡ [])
      × ((merge_temps (run_threads z threads temps) (pieces s.size b.num_tmpt_file) []).written
          ≡ content)
unfolding begin_download
begin_download-Works z content s found threads temps L compresses v held same works =
    let num = (begun s found).num_tmpt_file in
    let (one, few) = begun-bounds s found content v in
    let peers : (s.num_peers == 0) ≡ false = ground (arith, v.some_peer) in
    let covered : All (λ p. asked threads p ≡ true)
        (unfinished temps (pieces (length content) num)) =
      subst (λ (n : ℕ). All (λ p. asked threads p ≡ true) (unfinished temps (pieces n num))) v.size
        (first_round-covers s found content temps v _ same (λ p. asked threads p ≡ true)
          (asked-All threads)) in
    let (done, whole) =
      merge_temps-Works z content num threads temps L compresses v.small few one held works
        covered in
    (
      begun s found,
      rw (begin_download, peers) refl,
      ap (λ (n : ℕ). unfinished (run_threads z threads temps) (pieces n num)) v.size ∙ done,
      ap (λ (n : ℕ). (merge_temps (run_threads z threads temps) (pieces n num) []).written) v.size
          ∙ whole,
    )
