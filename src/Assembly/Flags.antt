-- ===== src/Assembly/Flags.antt =====
-- The flags of the peers.
use networks_dartsync.Base.{
  some, length, ◌==◌, Bool-cases, set, ◌++◌, ◌≤◌, ◌<◌, Option-cases, inl, inr, length-set, ℕ, zero,
  suc, ◌≡◌, refl, List, [], ◌∷◌, arith,
}
use networks_dartsync.Assembly.{get_available_peer_idx, ThreadEnd, wait_for_peer}

-- A peer that counts as free is one of the first `n`.
available-lt : (n : ℕ) (flags : List ℕ) (i : ℕ) → get_available_peer_idx n flags ≡ some i → i < n
unfolding get_available_peer_idx
available-lt zero flags i h = absurd (cc)
available-lt (suc n) [] i h = absurd (cc)
available-lt (suc n) (f ∷ flags) i h = elim (Option-cases (get_available_peer_idx n flags)) [
  | inl nobody ↦ ground arith
  | inr (j, found) ↦ let l = available-lt n flags j found in ground (arith, l)
]

freed-available :
    (n i : ℕ) (flags : List ℕ)
    → i < n
    → n ≤ length flags
    → (j : ℕ) × (get_available_peer_idx n (set flags i 0) ≡ some j)
unfolding get_available_peer_idx
freed-available zero i flags h l = absurd (omega arith)
freed-available (suc n) i [] h l = absurd (omega arith)
freed-available (suc n) zero (f ∷ flags) h l = (0, refl)
freed-available (suc n) (suc i) (f ∷ flags) h l =
    let (j, e) = freed-available n i flags (omega arith) (omega arith) in
    elim (Bool-cases (f == 0)) [
      | inl free ↦ (0, rw (get_available_peer_idx, free) refl)
      | inr busy ↦ (suc j, rw (get_available_peer_idx, busy, e) refl)
    ]

-- Whatever threads end before, once a thread of one of the first `n` peers ends with its flag at 0
-- the wait is over, with one of the first `n` peers.
pub wait_for_peer-freed :
    (n : ℕ) (ends : List ThreadEnd) (e : ThreadEnd) (flags : List ℕ)
    → e.idx < n
    → e.flag ≡ 0
    → n ≤ length flags
    → (j : ℕ) × (wait_for_peer n (ends ++ e ∷ []) flags ≡ some j) × (j < n)
unfolding wait_for_peer
wait_for_peer-freed n [] e flags h zero_flag l =
    elim (Option-cases (get_available_peer_idx n flags)) [
      | inl nobody ↦
          let (j, found) = freed-available n e.idx flags h l in
          (j, rw (wait_for_peer, nobody, zero_flag) found, available-lt n _ j found)
      | inr (j, found) ↦ (j, rw (wait_for_peer, found) refl, available-lt n flags j found)
    ]
wait_for_peer-freed n (d ∷ ends) e flags h zero_flag l =
    elim (Option-cases (get_available_peer_idx n flags)) [
      | inl nobody ↦
          let (j, waited, lt) =
            wait_for_peer-freed n ends e (set flags d.idx d.flag) h zero_flag
              (rw (length-set flags d.idx d.flag) l) in
          (j, rw (wait_for_peer, nobody) waited, lt)
      | inr (j, found) ↦ (j, rw (wait_for_peer, found) refl, available-lt n flags j found)
    ]
