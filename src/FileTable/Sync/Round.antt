-- ===== src/FileTable/Sync/Round.antt =====
-- The rounds of the second loop of `sync_from_client`, and what they leave under each name.
use networks_dartsync.Base.{
  ℕ, ◌<◌, ◌≡◌, refl, sym, List, [], ◌∷◌, true, false, none, some, arith, if◌then◌else◌, All,
  Bool-cases, Option-cases, inl, inr, if_cases,
}
use networks_dartsync.Base.Bytes.{Bytes, bytes_eq, bytes_eq_iff, bytes_eq_refl}
use networks_dartsync.FileTable.{FileNode, max_peers, name_in}
use networks_dartsync.FileTable.Peers.{IsNode}
use networks_dartsync.FileTable.Sync.{new_node, merge_first, merge}
use networks_dartsync.FileTable.Sync.View.{find, find_view, offered, merged, UniqueNames}
use networks_dartsync.FileTable.Sync.Prune.{
  find-present, name_in_of_find-none, name_in-cons_self, All-find,
}
use networks_dartsync.FileTable.Sync.Merge.{
  settled, merge_node-settled, settled-IsNode, view-settled, name-settled, new_node-IsNode,
  view-new_node,
}

-- Each node of the given names has room for one more peer.
abbrev pub Room : List FileNode → List FileNode → Type 0
Room client nodes = All (λ s. name_in s.name client ≡ true → s.num_peers < max_peers) nodes

unfoldable pub settle_first : ℕ → FileNode → List FileNode → List FileNode
settle_first ip c [] = []
settle_first ip c (s ∷ nodes) =
    let rest = settle_first ip c nodes in
    if bytes_eq c.name s.name then settled ip c s ∷ nodes else s ∷ rest

unfoldable pub settle : ℕ → FileNode → List FileNode → List FileNode
settle ip c nodes = if name_in c.name nodes then settle_first ip c nodes else new_node ip c ∷ nodes

pub name_in-settle_first :
    (ip : ℕ) (c : FileNode) (name : Bytes) (nodes : List FileNode)
    → name_in name (settle_first ip c nodes) ≡ name_in name nodes
unfolding settle_first name_in
name_in-settle_first ip c name [] = refl
name_in-settle_first ip c name (s ∷ nodes) =
    ground (arith, name_in-settle_first ip c name nodes, name-settled ip c s)

settle_first-UniqueNames :
    (ip : ℕ) (c : FileNode) (nodes : List FileNode)
    → UniqueNames nodes
    → UniqueNames (settle_first ip c nodes)
unfolding settle_first
settle_first-UniqueNames ip c [] u = tt
settle_first-UniqueNames ip c (s ∷ nodes) (n, u) =
    if_cases UniqueNames (bytes_eq c.name s.name) (rw (name-settled ip c s) n, u)
      (rw (name_in-settle_first ip c s.name nodes) n, settle_first-UniqueNames ip c nodes u)

pub settle-UniqueNames :
    (ip : ℕ) (c : FileNode) (nodes : List FileNode)
    → UniqueNames nodes
    → UniqueNames (settle ip c nodes)
unfolding settle new_node
settle-UniqueNames ip c nodes u = elim (Bool-cases (name_in c.name nodes)) [
  | inl old ↦ rw old (settle_first-UniqueNames ip c nodes u)
  | inr new ↦ rw new (new, u)
]

-- A round changes nothing under other names.
find-settle_first_other :
    (ip : ℕ) (c : FileNode) (name : Bytes) (nodes : List FileNode)
    → bytes_eq name c.name ≡ false
    → find name (settle_first ip c nodes) ≡ find name nodes
unfolding settle_first find
find-settle_first_other ip c name [] ne = refl
find-settle_first_other ip c name (s ∷ nodes) ne = ground (
  arith,
  bytes_eq_iff c.name s.name,
  bytes_eq_iff name s.name,
  bytes_eq_iff name c.name,
  name-settled ip c s,
  find-settle_first_other ip c name nodes ne,
)

pub find-settle_other :
    (ip : ℕ) (c : FileNode) (name : Bytes) (nodes : List FileNode)
    → bytes_eq name c.name ≡ false
    → find name (settle ip c nodes) ≡ find name nodes
unfolding settle new_node find
find-settle_other ip c name nodes ne = ground (arith, find-settle_first_other ip c name nodes ne)

find-settle_first_self :
    (ip : ℕ) (c s : FileNode) (nodes : List FileNode)
    → find c.name nodes ≡ some s
    → find c.name (settle_first ip c nodes) ≡ some (settled ip c s)
unfolding settle_first find
find-settle_first_self ip c s [] h = cc
find-settle_first_self ip c s (t ∷ nodes) h =
    ground (arith, name-settled ip c t, find-settle_first_self ip c s nodes)

find-new_node :
    (ip : ℕ) (c : FileNode) (nodes : List FileNode)
    → find c.name (new_node ip c ∷ nodes) ≡ some (new_node ip c)
unfolding find new_node
find-new_node ip c nodes = rw (bytes_eq_refl c.name) refl

find-settle_self :
    (ip : ℕ) (c : FileNode) (nodes : List FileNode)
    → find c.name (settle ip c nodes)
      ≡ (elim (find c.name nodes) [ none ↦ some (new_node ip c) | some s ↦ some (settled ip c s) ])
unfolding settle
find-settle_self ip c nodes = elim (Option-cases (find c.name nodes)) [
  | inl fresh ↦ ground (arith, name_in_of_find-none c.name nodes fresh, find-new_node ip c nodes)
  | inr (s, got) ↦
      let (i, e) = find-present c.name nodes got in
      ground (arith, find-settle_first_self ip c s nodes got)
]

module _ (ip : ℕ) (c : FileNode) (one : c.num_peers ≡ 1) where
  merge_first-settle_first :
      (nodes : List FileNode)
      → All IsNode nodes
      → Room (c ∷ []) nodes
      → merge_first ip c nodes ≡ some (settle_first ip c nodes)
  unfolding merge_first settle_first name_in
  merge_first-settle_first [] h r = refl
  merge_first-settle_first (s ∷ nodes) (v, h) (room, r) =
      elim (Bool-cases (bytes_eq c.name s.name)) [
        | inl same ↦
            let e : c.name ≡ s.name = (bytes_eq_iff c.name s.name).0 same in
            let e' : bytes_eq s.name c.name ≡ true = (bytes_eq_iff s.name c.name).1 (sym e) in
            ground (arith, merge_node-settled ip c one s v (room (ground arith)))
        | inr other ↦ ground (arith, merge_first-settle_first nodes h r)
      ]

  settle_first-IsNode :
      (nodes : List FileNode)
      → All IsNode nodes
      → Room (c ∷ []) nodes
      → All IsNode (settle_first ip c nodes)
  unfolding settle_first name_in
  settle_first-IsNode [] h r = tt
  settle_first-IsNode (s ∷ nodes) (v, h) (room, r) = elim (Bool-cases (bytes_eq c.name s.name)) [
    | inl same ↦
        let e : bytes_eq s.name c.name ≡ true =
          ground (arith, bytes_eq_iff c.name s.name, bytes_eq_iff s.name c.name) in
        rw same (settled-IsNode ip c one s v (room (ground arith)), h)
    | inr other ↦ rw other (v, settle_first-IsNode nodes h r)
  ]

  module _ (nodes : List FileNode) (h : All IsNode nodes) (r : Room (c ∷ []) nodes) where
    pub merge-settle : merge ip c nodes ≡ some (settle ip c nodes)
    unfolding merge settle
    merge-settle = ground (arith, merge_first-settle_first nodes h r)

    pub settle-IsNode : All IsNode (settle ip c nodes)
    unfolding settle
    settle-IsNode =
        if_cases (All IsNode) _ {y = new_node ip c ∷ nodes} (settle_first-IsNode nodes h r)
          (new_node-IsNode ip c one, h)

    -- The entry that a round leaves under the client's name.
    pub find_view-settle :
        find_view c.name (settle ip c nodes)
        ≡ (elim (find c.name nodes) [ none ↦ some (offered ip c) | some s ↦ some (merged ip c s) ])
    find_view-settle = elim (Option-cases (find c.name nodes)) [
      | inl fresh ↦ ground (arith, find-settle_self ip c nodes, view-new_node ip c one)
      | inr (s, got) ↦
          let v = All-find IsNode c.name nodes got h in
          let e = (find-present c.name nodes got).1 in
          let room = All-find _ c.name nodes got r (rw e (name_in-cons_self c [])) in
          ground (arith, find-settle_self ip c nodes, view-settled ip c one s v room)
    ]
