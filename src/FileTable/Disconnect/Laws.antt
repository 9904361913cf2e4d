-- ===== src/FileTable/Disconnect/Laws.antt =====
-- What a disconnected client leaves in the tracker's table.
use networks_dartsync.Base.{
  ℕ, ◌-◌, ◌<◌, ◌≤◌, ◌≡◌, refl, List, [], ◌∷◌, false, not, ◌&&◌, some, arith, ◌==◌, get_or, set,
  length, length-set, take, All, Bool-cases, inl, inr, ◌∙◌,
}
use networks_dartsync.Base.Bytes.{Bytes}
use networks_dartsync.FileTable.{FileNode, FileTable, name_in}
use networks_dartsync.FileTable.Peers.{has, holders, IsNode, find_peer-absent, find_peer-at}
use networks_dartsync.FileTable.Sync.View.{IsTable, UniqueNames}
use networks_dartsync.FileTable.Disconnect.{
  remove_at, delete_peer, delete_peers, delete_disconn_peer,
}
use networks_dartsync.FileTable.Disconnect.Swap.{Removed, Removed-swap_of_eq}

-- The node keeps its file, and lists the same peers without the client.
pub record Released (ip : ℕ) (s s' : FileNode) : Type 0 where
  pub name : s'.name ≡ s.name
  pub size : s'.size ≡ s.size
  pub type : s'.type ≡ s.type
  pub timestamp : s'.timestamp ≡ s.timestamp
  pub members : (j : ℕ) → has j (holders s') ≡ (has j (holders s) && not (j == ip))

-- The nodes are released one by one, in their order.
pub data AllReleased (ip : ℕ) : List FileNode → List FileNode → Type 0 where
  none_left : AllReleased ip [] []
  one_more :
      {s s' : FileNode} {nodes nodes' : List FileNode}
      → Released ip s s'
      → AllReleased ip nodes nodes'
      → AllReleased ip (s ∷ nodes) (s' ∷ nodes')

not_held : (j ip : ℕ) (xs : List ℕ) → has ip xs ≡ false → has j xs ≡ (has j xs && not (j == ip))
unfolding has
not_held j ip [] h = refl
not_held j ip (x ∷ xs) h = ground (arith, not_held j ip xs)

remove_at-Released :
    (ip i : ℕ) (s : FileNode)
    → IsNode s
    → i < s.num_peers
    → get_or s.peers i 0 ≡ ip
    → (s' : FileNode) × (remove_at i s ≡ some s') × IsNode s' × Released ip s s'
unfolding remove_at
remove_at-Released ip i s v lt here =
    let m = s.num_peers - 1 in
    let below : m < length s.peers = omega (arith, v.size, v.within) in
    let swapped : Removed ip (holders s) (take m (set s.peers i (get_or s.peers m 0))) =
      Removed-swap_of_eq s.num_peers m i ip s.peers (omega arith) below lt here v.distinct in
    (
      record s { num_peers = m; peers = set s.peers i (get_or s.peers m 0) },
      ground arith,
      record {
        size = length-set s.peers i (get_or s.peers m 0) ∙ v.size;
        within = omega (arith, v.within);
        distinct = swapped.distinct;
      },
      record { name = refl; size = refl; type = refl; timestamp = refl; members = swapped.members },
    )

delete_peer-Released :
    (ip : ℕ) (s : FileNode)
    → IsNode s
    → (s' : FileNode) × (delete_peer ip s ≡ some s') × IsNode s' × Released ip s s'
unfolding delete_peer
delete_peer-Released ip s v =
    let fits : s.num_peers ≤ length s.peers = omega (arith, v.size, v.within) in
    elim (Bool-cases (has ip (holders s))) [
      | inl held ↦
          let (i, f, lt, here) = find_peer-at ip s.num_peers s.peers fits held in
          let (s', e, v', r) = remove_at-Released ip i s v lt here in (s', ground arith, v', r)
      | inr free ↦ (
        s,
        ground (arith, find_peer-absent ip s.num_peers s.peers fits free),
        v,
        record {
          name = refl;
          size = refl;
          type = refl;
          timestamp = refl;
          members = λ j. not_held j ip (holders s) free;
        },
      )
    ]

name_in-released :
    {ip : ℕ} {nodes nodes' : List FileNode} (name : Bytes)
    → AllReleased ip nodes nodes'
    → name_in name nodes' ≡ name_in name nodes
unfolding name_in
name_in-released name none_left = refl
name_in-released name (one_more r rs) = ground (arith, r.name, name_in-released name rs)

released-UniqueNames :
    {ip : ℕ} {nodes nodes' : List FileNode}
    → AllReleased ip nodes nodes'
    → UniqueNames nodes
    → UniqueNames nodes'
released-UniqueNames none_left u = tt
released-UniqueNames (one_more {s} r rs) (n, u) =
    (rw r.name (name_in-released s.name rs ∙ n), released-UniqueNames rs u)

delete_peers-AllReleased :
    (ip : ℕ) (nodes : List FileNode)
    → All IsNode nodes
    → (nodes' : List FileNode) × (delete_peers ip nodes ≡ some nodes')
      × All IsNode nodes'
      × AllReleased ip nodes nodes'
unfolding delete_peers
delete_peers-AllReleased ip [] h = ([], refl, tt, none_left)
delete_peers-AllReleased ip (s ∷ nodes) (v, h) =
    let (s', e, v', r) = delete_peer-Released ip s v in
    let (nodes', e', h', rs) = delete_peers-AllReleased ip nodes h in
    (s' ∷ nodes', ground arith, (v', h'), one_more r rs)

-- For a well-formed table `delete_disconn_peer` runs without an access outside an array. The new
-- table is well formed and has the same files in the same order, each with its data, and each lists
-- the peers that it listed before, without the disconnected one.
pub delete_disconn_peer-AllReleased :
    (ip : ℕ) (table : FileTable)
    → IsTable table.nodes
    → (after : FileTable) × (delete_disconn_peer ip table ≡ some after)
      × IsTable after.nodes
      × AllReleased ip table.nodes after.nodes
unfolding delete_disconn_peer
delete_disconn_peer-AllReleased ip table v =
    let (nodes, e, h, rs) = delete_peers-AllReleased ip table.nodes v.nodes_valid in
    (
      record table { nodes = nodes },
      rw e,
      record { nodes_valid = h; unique = released-UniqueNames rs v.unique },
      rs,
    )
