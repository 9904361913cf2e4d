-- ===== src/FileTable/Peers.antt =====
-- The array of peers of a node, and the list of addresses that it stands for.
use networks_dartsync.Base.{
  ℕ, zero, suc, ◌+◌, ◌≤◌, ◌<◌, ◌≡◌, refl, List, [], ◌∷◌, ◌++◌, Bool, true, false, ◌||◌, some, arith,
  ◌==◌, get_or, set, take, length, length-replicate, ap, Bool-cases, inl, inr,
}
use networks_dartsync.FileTable.{FileNode, max_peers, zero_peers, absent, at, find_peer, push_peer}

unfoldable pub has : ℕ → List ℕ → Bool
has ip [] = false
has ip (p ∷ ps) = p == ip || has ip ps

abbrev pub Distinct : List ℕ → Type 0
Distinct [] = Unit
Distinct (p ∷ ps) = (has p ps ≡ false) × Distinct ps

-- The addresses that a node lists.
abbrev pub holders : FileNode → List ℕ
holders s = take s.num_peers s.peers

-- The array has its size, the count is within it, and no address is listed twice.
pub record IsNode (s : FileNode) : Type 0 where
  pub size : length s.peers ≡ max_peers
  pub within : s.num_peers ≤ max_peers
  pub distinct : Distinct (holders s)

pub length-zero_peers : length zero_peers ≡ max_peers
unfolding zero_peers
length-zero_peers = length-replicate {A = ℕ} max_peers 0

-- The search stays within the array, and finds exactly the addresses that are listed.
pub find_peer-absent :
    (ip n : ℕ) (ps : List ℕ)
    → n ≤ length ps
    → has ip (take n ps) ≡ false
    → find_peer ip n ps ≡ absent
unfolding find_peer has
find_peer-absent ip zero ps h e = refl
find_peer-absent ip (suc n) [] h e = absurd (omega arith)
find_peer-absent ip (suc n) (p ∷ ps) h e = ground (arith, find_peer-absent ip n ps)

pub find_peer-at :
    (ip n : ℕ) (ps : List ℕ)
    → n ≤ length ps
    → has ip (take n ps) ≡ true
    → (i : ℕ) × (find_peer ip n ps ≡ at i) × (i < n) × (get_or ps i 0 ≡ ip)
unfolding find_peer has
find_peer-at ip zero ps h e = absurd (cc)
find_peer-at ip (suc n) [] h e = absurd (omega arith)
find_peer-at ip (suc n) (p ∷ ps) h e = elim (Bool-cases (p == ip)) [
  | inl same ↦ (0, ground arith, omega arith, ground arith)
  | inr other ↦
      let (i, f, l, g) = find_peer-at ip n ps (omega arith) (ground arith) in
      (suc i, ground arith, omega arith, g)
]

-- Writing behind the listed part appends to the list.
pub take-set_end :
    (ip n : ℕ) (ps : List ℕ) → n < length ps → take (suc n) (set ps n ip) ≡ take n ps ++ ip ∷ []
take-set_end ip n [] h = absurd (omega arith)
take-set_end ip zero (p ∷ ps) h = refl
take-set_end ip (suc n) (p ∷ ps) h = ap (λ t. p ∷ t) (take-set_end ip n ps (omega arith))

pub take_one-set : (ip : ℕ) (ps : List ℕ) → 0 < length ps → take 1 (set ps 0 ip) ≡ ip ∷ []
take_one-set ip [] h = absurd (omega arith)
take_one-set ip (p ∷ ps) h = refl

pub has-append : (ip : ℕ) (xs ys : List ℕ) → has ip (xs ++ ys) ≡ (has ip xs || has ip ys)
unfolding has
has-append ip [] ys = refl
has-append ip (x ∷ xs) ys = ground (arith, has-append ip xs ys)

pub Distinct-append_one :
    (ip : ℕ) (xs : List ℕ) → Distinct xs → has ip xs ≡ false → Distinct (xs ++ ip ∷ [])
unfolding has
Distinct-append_one ip [] d e = (refl, tt)
Distinct-append_one ip (x ∷ xs) (f, d) e =
    (ground (arith, has-append x xs (ip ∷ [])), Distinct-append_one ip xs d (ground arith))

-- A node with room for one more peer takes the new address behind the others.
pub push_peer-some :
    (ip : ℕ) (s : FileNode)
    → IsNode s
    → s.num_peers < max_peers
    → push_peer ip s
      ≡ some (record s { num_peers = s.num_peers + 1; peers = set s.peers s.num_peers ip })
unfolding push_peer
push_peer-some ip s v room = ground (arith, v.size)
