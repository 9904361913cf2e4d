-- ===== src/FileTable/Sync/Refine.antt =====
-- `sync_from_client` implements the abstract table: under each name it leaves what `synced` says.
use mathlib.Core.Bool.{false≢true}
use networks_dartsync.Base.{
  ℕ, ◌<◌, ◌≡◌, refl, sym, ◌∙◌, List, [], ◌∷◌, false, Option, none, some, arith, All, Bool-cases,
  Option-cases, inl, inr, if_cases, get_or,
}
use networks_dartsync.Base.Bytes.{Bytes, bytes_eq, bytes_eq_iff}
use networks_dartsync.FileTable.{FileNode, FileTable, max_peers, name_in}
use networks_dartsync.FileTable.Peers.{IsNode}
use networks_dartsync.FileTable.Sync.{new_node, merge_all, sync_from_client}
use networks_dartsync.FileTable.Sync.View.{
  Entry, view, find, find_view, offered, merged, synced, UniqueNames, IsTable, IsClientTable,
}
use networks_dartsync.FileTable.Sync.Prune.{
  pruned, prune-pruned, pruned-All, pruned-UniqueNames, find-pruned, find-absent, find-present,
  name_in_of_find-none,
}
use networks_dartsync.FileTable.Sync.Merge.{settled, name-settled}
use networks_dartsync.FileTable.Sync.Round.{
  Room, settle, settle_first, merge-settle, settle-IsNode, settle-UniqueNames, find-settle_other,
  find_view-settle,
}

settle_all : ℕ → List FileNode → List FileNode → List FileNode
settle_all ip [] nodes = nodes
settle_all ip (c ∷ client) nodes = settle_all ip client (settle ip c nodes)

-- Every node has room for one more peer.
abbrev pub AllRoom : List FileNode → Type 0
AllRoom nodes = All (λ s. s.num_peers < max_peers) nodes

-- The room for the first round, and for the rounds after it.
Room-of_all : (client nodes : List FileNode) → AllRoom nodes → Room client nodes
Room-of_all client [] r = tt
Room-of_all client (s ∷ nodes) (q, r) = (λ _. q, Room-of_all client nodes r)

Room-one :
    (c : FileNode) (client nodes : List FileNode) → Room (c ∷ client) nodes → Room (c ∷ []) nodes
unfolding name_in
Room-one c client [] r = tt
Room-one c client (s ∷ nodes) (q, r) = (λ h. q (ground arith), Room-one c client nodes r)

Room-tail :
    (c : FileNode) (client nodes : List FileNode) → Room (c ∷ client) nodes → Room client nodes
unfolding name_in
Room-tail c client [] r = tt
Room-tail c client (s ∷ nodes) (q, r) = (λ h. q (ground arith), Room-tail c client nodes r)

Room-settle_first :
    (ip : ℕ) (c : FileNode) (client nodes : List FileNode)
    → name_in c.name client ≡ false
    → Room (c ∷ client) nodes
    → Room client (settle_first ip c nodes)
unfolding name_in settle_first
Room-settle_first ip c client [] n r = tt
Room-settle_first ip c client (s ∷ nodes) n (q, r) = elim (Bool-cases (bytes_eq c.name s.name)) [
  | inl same ↦
      let e : c.name ≡ s.name = (bytes_eq_iff c.name s.name).0 same in
      let out : name_in (settled ip c s).name client ≡ false = rw (name-settled ip c s, ← e) n in
      rw same (λ h. absurd (false≢true (sym out ∙ h)), Room-tail c client nodes r)
  | inr other ↦ rw other (λ h. q (ground arith), Room-settle_first ip c client nodes n r)
]

Room-settle :
    (ip : ℕ) (c : FileNode) (client nodes : List FileNode)
    → name_in c.name client ≡ false
    → Room (c ∷ client) nodes
    → Room client (settle ip c nodes)
unfolding settle new_node
Room-settle ip c client nodes n r =
    if_cases (Room client) _ {y = new_node ip c ∷ nodes} (Room-settle_first ip c client nodes n r)
      (λ h. absurd (false≢true (sym n ∙ h)), Room-tail c client nodes r)

-- The entry of a name after the second loop.
abbrev combined : ℕ → Option FileNode → Option FileNode → Option Entry
combined ip none none = none
combined ip none (some s) = some (view s)
combined ip (some c) none = some (offered ip c)
combined ip (some c) (some s) = some (merged ip c s)

abbrev OnePeer : List FileNode → Type 0
OnePeer client = All (λ c. c.num_peers ≡ 1) client

merge_all-settle_all :
    (ip : ℕ) (client nodes : List FileNode)
    → OnePeer client
    → UniqueNames client
    → All IsNode nodes
    → Room client nodes
    → merge_all ip client nodes ≡ some (settle_all ip client nodes)
unfolding merge_all settle_all
merge_all-settle_all ip [] nodes o u h r = refl
merge_all-settle_all ip (c ∷ client) nodes (one, o) (n, u) h r =
    let room = Room-one c client nodes r in
    rw (merge-settle ip c one nodes h room) (
      merge_all-settle_all ip client (settle ip c nodes) o u (settle-IsNode ip c one nodes h room)
        (Room-settle ip c client nodes n r))

settle_all-IsTable :
    (ip : ℕ) (client nodes : List FileNode)
    → OnePeer client
    → UniqueNames client
    → All IsNode nodes
    → UniqueNames nodes
    → Room client nodes
    → IsTable (settle_all ip client nodes)
unfolding settle_all
settle_all-IsTable ip [] nodes o u h w r = record { nodes_valid = h; unique = w }
settle_all-IsTable ip (c ∷ client) nodes (one, o) (n, u) h w r =
    settle_all-IsTable ip client (settle ip c nodes) o u
      (settle-IsNode ip c one nodes h (Room-one c client nodes r)) (settle-UniqueNames ip c nodes w)
      (Room-settle ip c client nodes n r)

find_view-settle_all :
    (ip : ℕ) (client nodes : List FileNode) (name : Bytes)
    → OnePeer client
    → UniqueNames client
    → All IsNode nodes
    → Room client nodes
    → find_view name (settle_all ip client nodes) ≡ combined ip (find name client) (find name nodes)
unfolding settle_all find
find_view-settle_all ip [] nodes name o u h r = ground arith
find_view-settle_all ip (c ∷ client) nodes name (one, o) (n, u) h r =
    let room = Room-one c client nodes r in
    let ih =
      find_view-settle_all ip client (settle ip c nodes) name o u
        (settle-IsNode ip c one nodes h room) (Room-settle ip c client nodes n r) in
    elim (Bool-cases (bytes_eq name c.name)) [
      | inl same ↦
          let e : name ≡ c.name = (bytes_eq_iff name c.name).0 same in
          ground (arith, ih, find_view-settle ip c one nodes h room, find-absent c.name client n)
      | inr other ↦ ground (arith, ih, find-settle_other ip c name nodes other)
    ]

-- The tracker's table after a client's table is taken over, with the client's address `ip`.
pub record Takeover (ip : ℕ) (server client after : FileTable) : Type 0 where
  pub result : sync_from_client server (some client) ≡ some after
  pub valid : IsTable after.nodes
  pub entries :
      (name : Bytes)
      → find_view name after.nodes ≡ synced ip (find name client.nodes) (find name server.nodes)

entries-pruned :
    (ip : ℕ) (client nodes : List FileNode) (name : Bytes)
    → UniqueNames nodes
    → combined ip (find name client) (find name (pruned ip client nodes))
      ≡ synced ip (find name client) (find name nodes)
unfolding synced
entries-pruned ip client nodes name u = elim (Option-cases (find name client)) [
  | inl missing ↦
      ground (arith, find-pruned ip client name nodes u, name_in_of_find-none name client missing)
  | inr (c, got) ↦
      let (i, e) = find-present name client got in
      ground (arith, find-pruned ip client name nodes u)
]

-- `sync_from_client` refines the abstract table. For a well-formed table of the tracker in which
-- each node has room for one more peer, and a client's table with one peer in each node and no name
-- twice, it runs without an access outside an array, the new table is well formed, and under each
-- name stands the entry that `synced` gives: what the client deleted is gone if it held it, what it
-- added is there, a newer edition replaces the entry and its peers, an older one changes nothing,
-- and for the same edition the client is one of the peers.
pub sync_from_client-synced :
    (server client : FileTable)
    → IsTable server.nodes
    → AllRoom server.nodes
    → IsClientTable client.nodes
    → (after : FileTable) × Takeover (get_or client.head.peers 0 0) server client after
unfolding sync_from_client
sync_from_client-synced server client v room cv =
    let ip = get_or client.head.peers 0 0 in
    let kept = pruned ip client.nodes server.nodes in
    let h = pruned-All IsNode ip client.nodes server.nodes v.nodes_valid in
    let u = pruned-UniqueNames ip client.nodes server.nodes v.unique in
    let r =
      Room-of_all client.nodes kept
        (pruned-All (λ s. s.num_peers < max_peers) ip client.nodes server.nodes room) in
    (
      record server { nodes = settle_all ip client.nodes kept },
      record {
        result = rw (
          prune-pruned ip client.nodes server.nodes v.nodes_valid,
          merge_all-settle_all ip client.nodes kept cv.one_peer cv.unique h r,
        );
        valid = settle_all-IsTable ip client.nodes kept cv.one_peer cv.unique h u r;
        entries = λ name.
            find_view-settle_all ip client.nodes kept name cv.one_peer cv.unique h r
            ∙ entries-pruned ip client.nodes server.nodes name v.unique;
      },
    )
