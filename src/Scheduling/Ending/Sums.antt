-- ===== src/Scheduling/Ending/Sums.antt =====
-- Sums over the first numbers, and which pieces have a thread.
use networks_dartsync.Base.{
  ℕ, zero, suc, ◌+◌, ◌≤◌, ◌<◌, ◌≡◌, ◌≢◌, refl, sym, ap, Bool, true, false, ◌||◌, Option, none, some,
  arith, ◌==◌, ℕ_discrete,
}
use networks_dartsync.Scheduling.{Worker}
use networks_dartsync.Scheduling.Invariant.{slot_of}

abbrev pub sum : ℕ → (ℕ → ℕ) → ℕ
sum zero f = 0
sum (suc n) f = sum n f + f n

pub sum_eq : (n : ℕ) (f g : ℕ → ℕ) → ((i : ℕ) → i < n → f i ≡ g i) → sum n f ≡ sum n g
sum_eq zero f g h = refl
sum_eq (suc n) f g h = omega (arith, sum_eq n f g (λ i l. h i (omega arith)), h n (omega arith))

pub sum_le : (n : ℕ) (f g : ℕ → ℕ) → ((i : ℕ) → i < n → f i ≤ g i) → sum n f ≤ sum n g
sum_le zero f g h = omega arith
sum_le (suc n) f g h = omega (arith, sum_le n f g (λ i l. h i (omega arith)), h n (omega arith))

-- A change of one summand.
pub sum_change :
    (n i : ℕ) (f g : ℕ → ℕ)
    → i < n
    → ((j : ℕ) → j < n → i ≢ j → f j ≡ g j)
    → sum n f + g i ≡ sum n g + f i
sum_change zero i f g l h = absurd (omega arith)
sum_change (suc n) i f g l h = elim (ℕ_discrete i n) [
  | yes last ↦
      let rest = sum_eq n f g (λ j m. h j (omega arith) (λ e. omega (arith, e, last, m))) in
      rw last (omega (arith, rest))
  | no before ↦
      let rest = sum_change n i f g (omega arith) (λ j m. h j (omega arith)) in
      omega (arith, rest, h n (omega arith) before)
]

-- `n` times `q`
abbrev pub times : ℕ → ℕ → ℕ
times zero q = 0
times (suc n) q = times n q + q

abbrev pub has : ℕ → Option ℕ → Bool
has i none = false
has i (some j) = i == j

-- Whether one of the first threads runs for the piece.
abbrev pub taken : (ℕ → Worker) → ℕ → ℕ → Bool
taken workers zero i = false
taken workers (suc k) i = has i (slot_of (workers k)) || taken workers k i

pub taken-here :
    (workers : ℕ → Worker) (created k i : ℕ)
    → k < created
    → slot_of (workers k) ≡ some i
    → taken workers created i ≡ true
taken-here workers zero k i l e = absurd (omega arith)
taken-here workers (suc c) k i l e = elim (ℕ_discrete k c) [
  | yes last ↦ ground (arith, e)
  | no before ↦ ground (arith, taken-here workers c k i (omega arith) e)
]

has-none : (o : Option ℕ) (i : ℕ) → o ≢ some i → has i o ≡ false
has-none none i h = refl
has-none (some j) i h = elim (ℕ_discrete i j) [
  | yes same ↦ absurd (h (ap (λ (n : ℕ). some n) (sym same)))
  | no other ↦ ground arith
]

pub taken-none :
    (workers : ℕ → Worker) (created i : ℕ)
    → ((k : ℕ) → slot_of (workers k) ≢ some i)
    → taken workers created i ≡ false
taken-none workers zero i h = refl
taken-none workers (suc c) i h =
    rw (has-none (slot_of (workers c)) i (h c)) (taken-none workers c i h)

pub taken-eq :
    (workers workers' : ℕ → Worker) (created i : ℕ)
    → ((k : ℕ) → k < created → has i (slot_of (workers k)) ≡ has i (slot_of (workers' k)))
    → taken workers created i ≡ taken workers' created i
taken-eq workers workers' zero i h = refl
taken-eq workers workers' (suc c) i h =
    rw (h c (omega arith), taken-eq workers workers' c i (λ k l. h k (omega arith))) refl
