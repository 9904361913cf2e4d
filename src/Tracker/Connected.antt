-- ===== src/Tracker/Connected.antt =====
-- The addresses of the clients that are connected, and the lists of addresses within them.
use networks_dartsync.Base.{
  ℕ, suc, ◌≤◌, ◌≡◌, refl, List, [], ◌∷◌, true, false, arith, ◌==◌, if◌then◌else◌, length,
  Bool-cases, inl, inr, ==_iff,
}
use networks_dartsync.FileTable.Peers.{has, Distinct}

-- One connection of the address ends.
unfoldable pub without : ℕ → List ℕ → List ℕ
without ip [] = []
without ip (j ∷ ips) = let rest = without ip ips in if j == ip then ips else j ∷ rest

pub length-without :
    (ip : ℕ) (ips : List ℕ) → has ip ips ≡ true → suc (length (without ip ips)) ≡ length ips
unfolding has without
length-without ip [] h = cc
length-without ip (j ∷ ips) h = elim (Bool-cases (j == ip)) [
  | inl same ↦ rw same refl
  | inr other ↦ rw other (let e = length-without ip ips (ground arith) in omega (arith, e))
]

pub has-without : (ip j : ℕ) (ips : List ℕ) → (j == ip) ≡ false → has j (without ip ips) ≡ has j ips
unfolding has without
has-without ip j [] h = refl
has-without ip j (k ∷ ips) h = ground (arith, has-without ip j ips h)

-- Every address of the first list is in the second one.
abbrev pub Within : List ℕ → List ℕ → Type 0
Within xs ips = (j : ℕ) → has j xs ≡ true → has j ips ≡ true

-- A list without repetition is at most as long as a list that has all its items.
pub Within-length : (xs ips : List ℕ) → Distinct xs → Within xs ips → length xs ≤ length ips
unfolding has
Within-length [] ips d w = omega arith
Within-length (x ∷ xs) ips (fresh, d) w =
    let here : has x ips ≡ true = w x (ground arith) in
    let rest : Within xs (without x ips) = λ j h. others x j xs ips fresh w h in
    omega (arith, length-without x ips here, Within-length xs (without x ips) d rest)
  where
    others :
        (x j : ℕ) (xs ips : List ℕ)
        → has x xs ≡ false
        → Within (x ∷ xs) ips
        → has j xs ≡ true
        → has j (without x ips) ≡ true
    others x j xs ips fresh w h = elim (Bool-cases (j == x)) [
      | inl same ↦ let e : j ≡ x = (==_iff j x).0 same in ground arith
      | inr other ↦ rw (has-without x j ips other) (w j (ground arith))
    ]
