-- ===== src/FileTable/Sync/View.antt =====
-- What a table promises: for each name at most one entry, whose peers are a list of addresses.
-- The array behind the list, and the order of the nodes, are forgotten.
use networks_dartsync.Base.{
  ℕ, List, [], ◌∷◌, ◌++◌, ◌≡◌, false, ◌&&◌, Option, none, some, ltb, if◌then◌else◌, All,
}
use networks_dartsync.Base.Bytes.{Bytes, bytes_eq}
use networks_dartsync.FileTable.{FileNode, name_in}
use networks_dartsync.FileTable.Peers.{has, holders, IsNode}
use networks_dartsync.FileTable.Sync.{not_both_folders}

pub record Entry : Type 0 where
  pub size : ℕ
  pub type : ℕ
  pub timestamp : ℕ
  pub holders : List ℕ

abbrev pub view : FileNode → Entry
view s = record { size = s.size; type = s.type; timestamp = s.timestamp; holders = holders s }

-- The first node of a name.
unfoldable pub find : Bytes → List FileNode → Option FileNode
find name [] = none
find name (s ∷ nodes) = if bytes_eq name s.name then some s else find name nodes

abbrev pub find_view : Bytes → List FileNode → Option Entry
find_view name nodes = elim (find name nodes) [ none ↦ none | some s ↦ some (view s) ]

-- No two nodes have one name.
abbrev pub UniqueNames : List FileNode → Type 0
UniqueNames [] = Unit
UniqueNames (s ∷ nodes) = (name_in s.name nodes ≡ false) × UniqueNames nodes

pub record IsTable (nodes : List FileNode) : Type 0 where
  pub nodes_valid : All IsNode nodes
  pub unique : UniqueNames nodes

-- The table of a client: one peer in each node, the client itself.
pub record IsClientTable (nodes : List FileNode) : Type 0 where
  pub one_peer : All (λ c. c.num_peers ≡ 1) nodes
  pub unique : UniqueNames nodes

-- The data of a client's node, with peers.
abbrev pub edition : FileNode → List ℕ → Entry
edition c ips = record { size = c.size; type = c.type; timestamp = c.timestamp; holders = ips }

abbrev pub offered : ℕ → FileNode → Entry
offered ip c = edition c (ip ∷ [])

-- An edition is older or newer by its time stamp, but two folders are always of one age. A newer
-- edition replaces the entry and its peers, an older one changes nothing, and the same edition adds
-- the client to the peers.
unfoldable pub merged : ℕ → FileNode → FileNode → Entry
merged ip c s =
    if ltb c.timestamp s.timestamp && not_both_folders c s
    then view s
    else if ltb s.timestamp c.timestamp && not_both_folders c s
    then offered ip c
    else if has ip (holders s)
    then view s
    else record (view s) { holders = holders s ++ ip ∷ [] }

-- The entry of a name after a client's table is taken over, from the client's node of that name
-- and the tracker's node of that name.
unfoldable pub synced : ℕ → Option FileNode → Option FileNode → Option Entry
unfolding merged
synced ip none none = none
synced ip none (some s) = if has ip (holders s) then none else some (view s)
synced ip (some c) none = some (offered ip c)
synced ip (some c) (some s) = some (merged ip c s)
