-- ===== src/FileTable/Sync/Merge.antt =====
-- The second loop of `sync_from_client`: without faults it is a pure function of the tables.
use networks_dartsync.Base.{
  ℕ, suc, ◌+◌, ◌<◌, ◌≡◌, refl, ◌∙◌, ◌++◌, [], ◌∷◌, ◌&&◌, some, arith, ltb, if◌then◌else◌,
  Bool-cases, if_cases, inl, inr, set, ap, length-set, take,
}
use networks_dartsync.FileTable.{FileNode, max_peers, zero_peers}
use networks_dartsync.FileTable.Peers.{
  has, holders, IsNode, find_peer-absent, find_peer-at, take-set_end, take_one-set,
  Distinct-append_one, push_peer-some, length-zero_peers,
}
use networks_dartsync.FileTable.Sync.{new_node, replaced, join_peers, not_both_folders, merge_node}
use networks_dartsync.FileTable.Sync.View.{view, edition, offered, merged}

joined : ℕ → FileNode → FileNode
joined ip s =
    if has ip (holders s)
    then s
    else record s { num_peers = s.num_peers + 1; peers = set s.peers s.num_peers ip }

join_peers-joined :
    (ip : ℕ) (s : FileNode)
    → IsNode s
    → s.num_peers < max_peers
    → join_peers ip s ≡ some (joined ip s)
unfolding join_peers joined
join_peers-joined ip s v room = elim (Bool-cases (has ip (holders s))) [
  | inl held ↦
      let (i, f, l, g) =
        find_peer-at ip s.num_peers s.peers (omega (arith, v.size, v.within)) held in
      ground arith
  | inr free ↦ ground (
    arith,
    find_peer-absent ip s.num_peers s.peers (omega (arith, v.size, v.within)) free,
    push_peer-some ip s v room,
  )
]

holders-push :
    (ip : ℕ) (s : FileNode)
    → IsNode s
    → s.num_peers < max_peers
    → take (s.num_peers + 1) (set s.peers s.num_peers ip) ≡ holders s ++ ip ∷ []
holders-push ip s v room =
    let e : s.num_peers + 1 ≡ suc s.num_peers = omega arith in
    rw e (take-set_end ip s.num_peers s.peers (omega (arith, v.size)))

joined-IsNode : (ip : ℕ) (s : FileNode) → IsNode s → s.num_peers < max_peers → IsNode (joined ip s)
unfolding joined
joined-IsNode ip s v room = elim (Bool-cases (has ip (holders s))) [
  | inl held ↦ rw held v
  | inr free ↦ rw free (record {
    size = length-set s.peers s.num_peers ip ∙ v.size;
    within = omega arith;
    distinct = rw (holders-push ip s v room) (Distinct-append_one ip (holders s) v.distinct free);
  })
]

view-joined :
    (ip : ℕ) (s : FileNode)
    → IsNode s
    → s.num_peers < max_peers
    → view (joined ip s)
      ≡ (if has ip (holders s) then view s else record (view s) { holders = holders s ++ ip ∷ [] })
unfolding joined
view-joined ip s v room = elim (Bool-cases (has ip (holders s))) [
  | inl held ↦ rw held refl
  | inr free ↦ rw free (rw (holders-push ip s v room) refl)
]

-- What the server's node becomes.
pub settled : ℕ → FileNode → FileNode → FileNode
unfolding joined
settled ip c s =
    if ltb c.timestamp s.timestamp && not_both_folders c s
    then s
    else if ltb s.timestamp c.timestamp && not_both_folders c s
    then replaced ip c s
    else joined ip s

pub name-settled : (ip : ℕ) (c s : FileNode) → (settled ip c s).name ≡ s.name
unfolding settled replaced
name-settled ip c s = ground arith

module _ (ip : ℕ) (c : FileNode) (one : c.num_peers ≡ 1) where
  pub holders-replaced : (s : FileNode) → IsNode s → holders (replaced ip c s) ≡ ip ∷ []
  unfolding replaced
  holders-replaced s v = rw one (take_one-set ip s.peers (omega (arith, v.size)))

  view-replaced : (s : FileNode) → IsNode s → view (replaced ip c s) ≡ offered ip c
  unfolding replaced
  view-replaced s v = ap (edition c) (holders-replaced s v)

  pub replaced-IsNode : (s : FileNode) → IsNode s → IsNode (replaced ip c s)
  unfolding replaced has
  replaced-IsNode s v = record {
    size = length-set s.peers 0 ip ∙ v.size;
    within = omega arith;
    distinct = rw (holders-replaced s v) (refl, tt);
  }

  pub holders-new_node : holders (new_node ip c) ≡ ip ∷ []
  unfolding new_node
  holders-new_node = rw one (take_one-set ip zero_peers (omega (arith, length-zero_peers)))

  pub new_node-IsNode : IsNode (new_node ip c)
  unfolding new_node has
  new_node-IsNode = record {
    size = length-set zero_peers 0 ip ∙ length-zero_peers;
    within = omega arith;
    distinct = rw holders-new_node (refl, tt);
  }

  pub view-new_node : view (new_node ip c) ≡ offered ip c
  unfolding new_node
  view-new_node = ap (edition c) holders-new_node

  module _ (s : FileNode) (v : IsNode s) (room : s.num_peers < max_peers) where
    pub merge_node-settled : merge_node ip c s ≡ some (settled ip c s)
    unfolding merge_node settled
    merge_node-settled = ground (arith, join_peers-joined ip s v room)

    pub settled-IsNode : IsNode (settled ip c s)
    unfolding settled
    settled-IsNode =
        if_cases IsNode _ v (if_cases IsNode _ (replaced-IsNode s v) (joined-IsNode ip s v room))

    pub view-settled : view (settled ip c s) ≡ merged ip c s
    unfolding settled merged
    view-settled = ground (arith, view-joined ip s v room, view-replaced s v)
