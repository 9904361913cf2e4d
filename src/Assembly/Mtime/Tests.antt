-- ===== src/Assembly/Mtime/Tests.antt =====
-- A machine in New York, in the summer.
use networks_dartsync.Base.{
  ℕ, ◌+◌, ◌-◌, ◌≡◌, ◌↔◌, refl, ap, ◌∙◌, some, arith, if◌then◌else◌, replicate, false, drop, take,
}
use networks_dartsync.Base.Bytes.{Bytes, codes, bytes_eq}
use networks_dartsync.Wire.{to_bytes, from_bytes}
use networks_dartsync.Wire.Length.{from_bytes-to_bytes}
use networks_dartsync.Folders.Laws.{neat}
use networks_dartsync.Assembly.Mtime.{
  Time, after_epoch, before_epoch, Mtimes, Clock, shift, set_mtime, IsLawful, set_mtime-zone,
}

-- Dates of 15 bytes.
date_of : Time → Bytes
date_of (after_epoch t) = to_bytes 15 t
date_of (before_epoch t) = replicate 15 0

abbrev new_york : Clock
unfolding date_of
new_york = record {
  date = date_of;
  system = λ command times q.
      if bytes_eq q (drop 25 command)
      then from_bytes (take 15 (drop 9 command)) + shift
      else times q;
}

new_york-IsLawful : IsLawful new_york (λ t. 14400) (λ t. 0)
unfolding new_york to_bytes
new_york-IsLawful = record {
  length-date = λ t small. refl;
  touch-date = λ t path times q small word east.
      let read : from_bytes (to_bytes 15 t) ≡ t = from_bytes-to_bytes 15 t (omega arith) in
      let sum : t + shift ≡ t + 14400 - 0 = omega arith in
      ap (λ (n : ℕ). if bytes_eq q path then n + shift else times q) read
      ∙ ap (λ (n : ℕ). if bytes_eq q path then n else times q) sum;
}

set_mtime-zone_example :
    (after : Mtimes) × (set_mtime new_york (codes "d/a") 1700000000 (λ q. 0) ≡ some after)
    × ((after (codes "d/a") ≡ 1700000000) ↔ (◌≡◌ {A = ℕ} 14400 (shift + 0)))
    × ((q : Bytes) → bytes_eq q (codes "d/a") ≡ false → after q ≡ 0)
unfolding neat
set_mtime-zone_example =
    set_mtime-zone new_york (λ t. 14400) (λ t. 0) (codes "d/a") 1700000000 (λ q. 0)
      new_york-IsLawful refl (omega arith) (omega arith) (omega arith) (omega arith)
