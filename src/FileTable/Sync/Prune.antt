-- ===== src/FileTable/Sync/Prune.antt =====
-- The first loop of `sync_from_client`.
use mathlib.Core.Path.{subst}
use networks_dartsync.Base.{
  ℕ, ◌≡◌, refl, List, [], ◌∷◌, Bool, true, false, ◌||◌, not, none, some, arith, if◌then◌else◌, All,
  Bool-cases, inl, inr,
}
use networks_dartsync.Base.Bytes.{Bytes, bytes_eq, bytes_eq_iff, bytes_eq_refl}
use networks_dartsync.FileTable.{FileNode, name_in}
use networks_dartsync.FileTable.Peers.{has, holders, IsNode, find_peer-absent, find_peer-at}
use networks_dartsync.FileTable.Sync.{keeps, prune}
use networks_dartsync.FileTable.Sync.View.{find, UniqueNames}

-- A node stays if the client has the name, or does not hold the file.
abbrev pub stays : ℕ → List FileNode → FileNode → Bool
stays ip client s = name_in s.name client || not (has ip (holders s))

keeps-stays :
    (ip : ℕ) (client : List FileNode) (s : FileNode)
    → IsNode s
    → keeps ip client s ≡ some (stays ip client s)
unfolding keeps
keeps-stays ip client s v = elim (Bool-cases (has ip (holders s))) [
  | inl held ↦
      let (i, f, l, g) =
        find_peer-at ip s.num_peers s.peers (omega (arith, v.size, v.within)) held in
      ground arith
  | inr free ↦
      ground (arith, find_peer-absent ip s.num_peers s.peers (omega (arith, v.size, v.within)) free)
]

-- The nodes that stay, in their order.
pub pruned : ℕ → List FileNode → List FileNode → List FileNode
pruned ip client [] = []
pruned ip client (s ∷ nodes) =
    let rest = pruned ip client nodes in if stays ip client s then s ∷ rest else rest

pub prune-pruned :
    (ip : ℕ) (client nodes : List FileNode)
    → All IsNode nodes
    → prune ip client nodes ≡ some (pruned ip client nodes)
unfolding prune pruned
prune-pruned ip client [] h = refl
prune-pruned ip client (s ∷ nodes) (v, h) =
    ground (arith, keeps-stays ip client s v, prune-pruned ip client nodes h)

pub name_in-pruned :
    (ip : ℕ) (client : List FileNode) (name : Bytes) (nodes : List FileNode)
    → name_in name nodes ≡ false
    → name_in name (pruned ip client nodes) ≡ false
unfolding pruned name_in
name_in-pruned ip client name [] h = refl
name_in-pruned ip client name (s ∷ nodes) h = ground (arith, name_in-pruned ip client name nodes)

pub pruned-All {κ} :
    (P : FileNode → Type κ) (ip : ℕ) (client nodes : List FileNode)
    → All P nodes
    → All P (pruned ip client nodes)
unfolding pruned
pruned-All P ip client [] h = tt
pruned-All P ip client (s ∷ nodes) (p, h) = elim (Bool-cases (stays ip client s)) [
  | inl stay ↦ rw stay (p, pruned-All P ip client nodes h)
  | inr go ↦ rw go (pruned-All P ip client nodes h)
]

pub pruned-UniqueNames :
    (ip : ℕ) (client nodes : List FileNode)
    → UniqueNames nodes
    → UniqueNames (pruned ip client nodes)
unfolding pruned
pruned-UniqueNames ip client [] h = tt
pruned-UniqueNames ip client (s ∷ nodes) (n, h) = elim (Bool-cases (stays ip client s)) [
  | inl stay ↦
      rw stay (name_in-pruned ip client s.name nodes n, pruned-UniqueNames ip client nodes h)
  | inr go ↦ rw go (pruned-UniqueNames ip client nodes h)
]

pub find-absent :
    (name : Bytes) (nodes : List FileNode) → name_in name nodes ≡ false → find name nodes ≡ none
unfolding find name_in
find-absent name [] h = refl
find-absent name (s ∷ nodes) h = ground (arith, find-absent name nodes)

pub find-present :
    (name : Bytes) (nodes : List FileNode) {s : FileNode}
    → find name nodes ≡ some s
    → (name_in name nodes ≡ true) × (s.name ≡ name)
unfolding find name_in
find-present name [] h = cc
find-present name (t ∷ nodes) {s} h = elim (Bool-cases (bytes_eq name t.name)) [
  | inl same ↦ (ground arith, ground (arith, bytes_eq_iff name t.name))
  | inr other ↦ let (i, e) = find-present name nodes {s = s} (ground arith) in (ground arith, e)
]

pub name_in-cons_self : (c : FileNode) (client : List FileNode) → name_in c.name (c ∷ client) ≡ true
unfolding name_in
name_in-cons_self c client = rw (bytes_eq_refl c.name) refl

pub name_in_of_find-none :
    (name : Bytes) (nodes : List FileNode) → find name nodes ≡ none → name_in name nodes ≡ false
unfolding find name_in
name_in_of_find-none name [] h = refl
name_in_of_find-none name (t ∷ nodes) h = ground (arith, name_in_of_find-none name nodes)

pub All-find {κ} :
    (P : FileNode → Type κ) (name : Bytes) (nodes : List FileNode) {s : FileNode}
    → find name nodes ≡ some s
    → All P nodes
    → P s
unfolding find
All-find P name [] h a = absurd (cc)
All-find P name (t ∷ nodes) {s} h (p, a) = elim (Bool-cases (bytes_eq name t.name)) [
  | inl same ↦ let e : t ≡ s = ground arith in subst P e p
  | inr other ↦ All-find P name nodes {s = s} (rw other at h) a
]

-- What is left of a name.
pub find-pruned :
    (ip : ℕ) (client : List FileNode) (name : Bytes) (nodes : List FileNode)
    → UniqueNames nodes
    → find name (pruned ip client nodes) ≡ (elim (find name nodes) [
      | none ↦ none
      | some s ↦ if name_in name client || not (has ip (holders s)) then some s else none
    ])
unfolding find pruned
find-pruned ip client name [] h = refl
find-pruned ip client name (s ∷ nodes) (n, h) = elim (Bool-cases (bytes_eq name s.name)) [
  | inl same ↦
      let e : name ≡ s.name = (bytes_eq_iff name s.name).0 same in
      let f : find name nodes ≡ none = rw e (find-absent s.name nodes n) in
      ground (arith, find-pruned ip client name nodes h)
  | inr other ↦ ground (arith, find-pruned ip client name nodes h)
]
