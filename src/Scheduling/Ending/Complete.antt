-- ===== src/Scheduling/Ending/Complete.antt =====
-- A thread that ends with its flag at 0 leaves a complete temporary file, if the disk takes it.
use networks_dartsync.Base.{
  ℕ, zero, suc, ◌+◌, ◌-◌, ◌≤◌, ◌<◌, ◌≡◌, ◌≢◌, ◌⊎◌, refl, ◌++◌, Bool, true, false, Option, none,
  some, arith, leb, ltb, length, take, drop, length-append, length-take, length-drop, Bool-cases,
  Option-cases, inl, inr, ltb→lt,
}
use networks_dartsync.Base.Bytes.{Bytes}
use networks_dartsync.Compression.{Zlib, decompress_stream}
use networks_dartsync.Wire.{Ending, closed, broken, silent, Socket, recv_exact, from_bytes}
use networks_dartsync.Transfer.{
  buffer_size, long_size, finished, Download, on_end, download_loop, download_handler, request_for,
}
use networks_dartsync.Assembly.{Temps, get_file_size}
use networks_dartsync.Scheduling.{
  Job, Worker, absent, started, working, over, Main, starting, waiting, passing, finding, left,
  piece_at,
}
use networks_dartsync.Scheduling.Growth.{Reading-cases}
use networks_dartsync.Scheduling.Invariant.{slot_of}

not_finished : (e : Ending) → on_end e ≢ finished
not_finished closed = λ h. cc
not_finished broken = λ h. cc
not_finished silent = λ h. cc

-- A result with the verdict `finished` has appended so much at least.
abbrev Filled : Bytes → ℕ → Download → Type 0
Filled temp n d = d.verdict ≡ finished → length temp + n ≤ length d.temp

download_loop-Filled :
    (z : Zlib) (fuel file_len downloaded room : ℕ) (temp : Bytes) (s : Socket)
    → file_len - downloaded ≤ room
    → Filled temp (file_len - downloaded) (download_loop z fuel file_len downloaded room temp s)
unfolding download_loop
download_loop-Filled z zero file_len downloaded room temp s h = λ v. absurd (cc)
download_loop-Filled z (suc fuel) file_len downloaded room temp s h =
    elim (Bool-cases (leb file_len downloaded)) [
      | inl enough ↦
          let le : file_len ≤ downloaded = ground arith in
          rw (download_loop, enough) (λ v. omega (arith, le))
      | inr more ↦ elim (Reading-cases (recv_exact long_size s)) [
        | inl (e, ends) ↦ rw (download_loop, more, ends) (λ v. absurd (not_finished e v))
        | inr (inl ends) ↦ rw (download_loop, more, ends) (λ v. absurd (cc))
        | inr (inr (header, s1, read)) ↦ elim (Reading-cases (recv_exact (from_bytes header) s1)) [
          | inl (e, ends) ↦ rw (download_loop, more, read, ends) (λ v. absurd (not_finished e v))
          | inr (inl ends) ↦ rw (download_loop, more, read, ends) (λ v. absurd (cc))
          | inr (inr (packed, s2, read2)) ↦
              elim (Option-cases (decompress_stream z packed buffer_size)) [
                | inl bad ↦ rw (download_loop, more, read, read2, bad) (λ v. absurd (cc))
                | inr (block, good) ↦ elim (Bool-cases (ltb room (length block))) [
                  | inl full ↦
                      let l = ltb→lt room (length block) full in
                      rw (download_loop, more, read, read2, good, full)
                        (λ v. omega (
                          arith,
                          length-append temp (take room block),
                          length-take room block,
                          l,
                          h,
                        ))
                  | inr fits ↦
                      let rest =
                        download_loop-Filled z fuel file_len (downloaded + length block)
                          (room - length block) (temp ++ block) s2 (omega arith) in
                      rw (download_loop, more, read, read2, good, fits)
                        (λ v. omega (arith, rest v, length-append temp block))
                ]
              ]
        ]
      ]
    ]

-- Where the disk takes the piece, a thread that ends with the verdict `finished` leaves as many bytes
-- as the piece has.
pub finished-len :
    (z : Zlib) (opened : Bool) (room start len : ℕ) (temp : Bytes) (s : Option Socket)
    → opened ≡ true
    → len ≤ room
    → (download_handler z opened room start len temp s).verdict ≡ finished
    → len
      ≤ length temp
        + length (drop (length temp) (download_handler z opened room start len temp s).temp)
unfolding download_handler request_for
finished-len z false room start len temp s o h v = absurd (cc)
finished-len z true room start len temp none o h v = absurd (cc)
finished-len z true room start len temp (some s) o h v =
    let l =
      download_loop-Filled z (suc (length s.bytes)) (len - length temp) 0 room temp s (omega arith)
        v in
    omega (
      arith,
      l,
      length-drop (length temp)
          (download_loop z (suc (length s.bytes)) (len - length temp) 0 room temp s).temp,
    )

-- Whether the pass finds the temporary file too short.
abbrev pub short : Job → Temps → ℕ → Bool
short job temps i = ltb (get_file_size (temps (piece_at job i))) (piece_at job i).len

-- What a thread that will end with its flag at 0 has and will append makes up its piece.
abbrev pub Fills : Job → Temps → Worker → Type 0
Fills job temps absent = Unit
Fills job temps (started peer slot) = Unit
Fills job temps (working peer slot todo v) =
    v ≡ finished → (piece_at job slot).len ≤ get_file_size (temps (piece_at job slot)) + length todo
Fills job temps over = Unit

-- The main thread looks for a peer for a temporary file that is too short.
abbrev pub Wants : Job → Main → Temps → Type 0
Wants job (starting i) temps = Unit
Wants job waiting temps = Unit
Wants job (passing i mark) temps = Unit
Wants job (finding i) temps = short job temps i ≡ true
Wants job left temps = Unit

pub record Ready (job : Job) (m : Main) (temps : Temps) (workers : ℕ → Worker) : Type 0 where
  pub fills : (k : ℕ) → Fills job temps (workers k)
  pub wants : Wants job m temps

-- The sizes of the other temporary files are kept, but for empty pieces.
abbrev pub Kept : Job → ℕ → Temps → Temps → Type 0
Kept job slot temps temps' =
    (j : ℕ)
    → j < job.num_tmpt_file
    → slot ≢ j
    → (get_file_size (temps' (piece_at job j)) ≡ get_file_size (temps (piece_at job j)))
      ⊎ ((piece_at job j).len ≡ 0)

pub Kept-short :
    (job : Job) (slot : ℕ) (temps temps' : Temps)
    → Kept job slot temps temps'
    → (j : ℕ) → j < job.num_tmpt_file
    → slot ≢ j
    → short job temps' j ≡ short job temps j
Kept-short job slot temps temps' kept j l other = elim (kept j l other) [
  | inl same ↦ rw same refl
  | inr empty ↦ rw empty ground arith
]

pub Kept-Fills :
    (job : Job) (slot : ℕ) (temps temps' : Temps) (w : Worker)
    → Kept job slot temps temps'
    → ((j : ℕ) → slot_of w ≡ some j → (j < job.num_tmpt_file) × (slot ≢ j))
    → Fills job temps w
    → Fills job temps' w
Kept-Fills job slot temps temps' absent kept other h = tt
Kept-Fills job slot temps temps' (started peer j) kept other h = tt
Kept-Fills job slot temps temps' (working peer j todo v) kept other h =
    let (l, differ) = other j refl in
    λ q. elim (kept j l differ) [
      | inl same ↦ omega (arith, h q, same)
      | inr empty ↦ omega (arith, empty)
    ]
Kept-Fills job slot temps temps' over kept other h = tt
