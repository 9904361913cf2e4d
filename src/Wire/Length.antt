-- ===== src/Wire/Length.antt =====
-- An `unsigned long` survives the connection.
use native.Mathlib.Nat.{pow-suc}
use networks_dartsync.Base.{ℕ, zero, suc, ◌/◌, ◌^◌, ◌<◌, ◌≡◌, refl, ap, length, arith}
use networks_dartsync.Wire.{to_bytes, from_bytes}

pub length-to_bytes : (k n : ℕ) → length (to_bytes k n) ≡ k
unfolding to_bytes
length-to_bytes zero n = refl
length-to_bytes (suc k) n = ap suc (length-to_bytes k (n / 256))

-- A number below 256 ^ k is read back from its k bytes.
pub from_bytes-to_bytes : (k n : ℕ) → n < 256 ^ k → from_bytes (to_bytes k n) ≡ n
unfolding to_bytes from_bytes
from_bytes-to_bytes zero n h = omega arith
from_bytes-to_bytes (suc k) n h =
    omega (arith, from_bytes-to_bytes k (n / 256) (omega (arith, pow-suc 256 k)))
