-- ===== src/Assembly/Mtime.antt =====
-- `set_mtime` of utils/peer2peer.c, the last call of `download_file_multi_thread`: it gives the file
-- the time of the table by a command `touch`. `strftime` of `gmtime` and the shell are a parameter. A
-- command that overruns its array is undefined in C: the result is `none`.
mod Tests
use networks_dartsync.Base.{
  ℕ, ◌+◌, ◌-◌, ◌^◌, ◌≤◌, ◌<◌, ◌≡◌, ◌↔◌, refl, sym, ap, ◌∙◌, ◌++◌, Bool, true, false, Option, some,
  arith, ltb, lt→ltb, if◌then◌else◌, ◌>>=◌, length, length-append,
}
use networks_dartsync.Base.Bytes.{Bytes, codes, bytes_eq, bytes_eq_iff}
use networks_dartsync.TempName.{copy_to_buffer}
use networks_dartsync.Folders.{touch_size, touch_command}
use networks_dartsync.Folders.Laws.{IsPath}

-- A `time_t`: seconds behind the epoch, or before it.
pub data Time : Type 0 where
  after_epoch : ℕ → Time
  before_epoch : ℕ → Time

-- Times of modification, by path.
abbrev pub Mtimes : Type 0
Mtimes = Bytes → ℕ

-- `strftime` of `gmtime` with "%Y%m%d%H%M.%S", and what a command does to the times.
pub record Clock : Type 0 where
  pub date : Time → Bytes
  pub system : Bytes → Mtimes → Mtimes

-- Four hours: the distance of New York from UTC in the summer.
abbrev pub shift : ℕ
shift = 14400

abbrev pub shifted : ℕ → Time
shifted t = if ltb t shift then before_epoch (shift - t) else after_epoch (t - shift)

unfoldable pub set_mtime : Clock → Bytes → ℕ → Mtimes → Option Mtimes
set_mtime c path t times = do
  command ← copy_to_buffer touch_size (touch_command (c.date (shifted t)) path)
  some (c.system command times)

-- What the function relies on: a date that an `unsigned int` holds has
-- 15 characters, and `touch -t` reads it as the local time,
-- which on that date is so many seconds behind UTC, or ahead of it.
pub record IsLawful (c : Clock) (behind ahead : ℕ → ℕ) : Type 0 where
  pub length-date : (t : ℕ) → t < 2 ^ 32 → length (c.date (after_epoch t)) ≡ 15
  pub touch-date :
      (t : ℕ) (path : Bytes) (times : Mtimes) (q : Bytes)
      → t < 2 ^ 32
      → IsPath path
      → ahead t ≤ t + behind t
      → c.system (touch_command (c.date (after_epoch t)) path) times q
        ≡ (if bytes_eq q path then t + behind t - ahead t else times q)

-- For a path that is one word for the shell and has fewer than 125 characters, `set_mtime` changes
-- the time of that file only, and gives it the time of the table if and only if the clock of the
-- machine is four hours behind UTC on that date.
pub set_mtime-zone :
    (c : Clock) (behind ahead : ℕ → ℕ) (path : Bytes) (t : ℕ) (times : Mtimes)
    → IsLawful c behind ahead
    → IsPath path
    → length path < 125
    → t < 2 ^ 32
    → shift ≤ t
    → ahead (t - shift) ≤ t - shift
    → (after : Mtimes) × (set_mtime c path t times ≡ some after)
      × ((after path ≡ t) ↔ (behind (t - shift) ≡ shift + ahead (t - shift)))
      × ((q : Bytes) → bytes_eq q path ≡ false → after q ≡ times q)
unfolding set_mtime copy_to_buffer
set_mtime-zone c behind ahead path t times L word short small late east =
    let u = t - shift in
    let command = touch_command (c.date (after_epoch u)) path in
    let now : ltb t shift ≡ false = ground arith in
    let fits : ltb (length command) touch_size ≡ true = lt→ltb _ _ (
      omega (
        arith,
        length-append (codes "touch -t ") (c.date (after_epoch u) ++ (codes " " ++ path)),
        length-append (c.date (after_epoch u)) (codes " " ++ path),
        L.length-date u (omega arith),
      )) in
    let own : bytes_eq path path ≡ true = (bytes_eq_iff path path).1 refl in
    let new : c.system command times path ≡ u + behind u - ahead u =
      L.touch-date u path times path (omega arith) word (omega arith) ∙ rw own refl in
    (
      c.system command times,
      rw (set_mtime, now, fits) refl,
      (λ e. omega (arith, e, new), λ e. omega (arith, e, new)),
      λ q other. L.touch-date u path times q (omega arith) word (omega arith) ∙ rw other refl,
    )
