-- ===== src/FileTable/Sync.antt =====
-- `sync_from_client`, by which the tracker takes over the file table that a client sends.
pub mod View
pub mod Prune
pub mod Merge
pub mod Round
pub mod Refine
use networks_dartsync.Base.{
  ℕ, List, [], ◌∷◌, Bool, true, false, not, ◌&&◌, ◌||◌, Option, none, some, ltb, ◌==◌,
  if◌then◌else◌, ◌>>=◌, get_or, set,
}
use networks_dartsync.Base.Bytes.{bytes_eq}
use networks_dartsync.FileTable.{
  FileNode, FileTable, folder_type, zero_peers, overrun, absent, at, find_peer, push_peer, name_in,
}

-- Whether the first loop leaves a node of the server's table.
unfoldable pub keeps : ℕ → List FileNode → FileNode → Option Bool
keeps ip client s =
    if name_in s.name client then some true else elim (find_peer ip s.num_peers s.peers) [
      | overrun ↦ none
      | absent ↦ some true
      | at i ↦ some false
    ]

-- The first loop, over the server's nodes: files that the client has deleted.
unfoldable pub prune : ℕ → List FileNode → List FileNode → Option (List FileNode)
prune ip client [] = some []
prune ip client (s ∷ nodes) = do
  kept ← keeps ip client s
  rest ← prune ip client nodes
  some (if kept then s ∷ rest else rest)

-- The node that is added for a file that only the client has.
unfoldable pub new_node : ℕ → FileNode → FileNode
new_node ip c = record c { peers = set zero_peers 0 ip }

-- The server's node for a file of which the client has a newer edition.
unfoldable pub replaced : ℕ → FileNode → FileNode → FileNode
replaced ip c s = record s {
  size = c.size;
  type = c.type;
  timestamp = c.timestamp;
  num_peers = c.num_peers;
  peers = set s.peers 0 ip;
}

-- The client is added to the peers of the node, unless it is one.
unfoldable pub join_peers : ℕ → FileNode → Option FileNode
join_peers ip s = elim (find_peer ip s.num_peers s.peers) [
  | overrun ↦ none
  | absent ↦ push_peer ip s
  | at i ↦ some s
]

abbrev pub not_both_folders : FileNode → FileNode → Bool
not_both_folders c s = not (c.type == folder_type) || not (s.type == folder_type)

-- What the second loop does to the server's node `s` for the client's node `c` of that name.
unfoldable pub merge_node : ℕ → FileNode → FileNode → Option FileNode
merge_node ip c s =
    if ltb c.timestamp s.timestamp && not_both_folders c s
    then some s
    else if ltb s.timestamp c.timestamp && not_both_folders c s
    then some (replaced ip c s)
    else join_peers ip s

-- The update of the first node of that name.
unfoldable pub merge_first : ℕ → FileNode → List FileNode → Option (List FileNode)
merge_first ip c [] = some []
merge_first ip c (s ∷ nodes) =
    let here = (do s' ← merge_node ip c s; some (s' ∷ nodes)) in
    let there = (do rest ← merge_first ip c nodes; some (s ∷ rest)) in
    if bytes_eq c.name s.name then here else there

-- One round of the second loop.
unfoldable pub merge : ℕ → FileNode → List FileNode → Option (List FileNode)
merge ip c nodes =
    if name_in c.name nodes then merge_first ip c nodes else some (new_node ip c ∷ nodes)

-- The second loop, over the client's nodes.
unfoldable pub merge_all : ℕ → List FileNode → List FileNode → Option (List FileNode)
merge_all ip [] nodes = some nodes
merge_all ip (c ∷ client) nodes = do nodes' ← merge ip c nodes; merge_all ip client nodes'

-- `client_table->peers[0]` is read first: a table that is `NULL` faults there.
unfoldable pub sync_from_client : FileTable → Option FileTable → Option FileTable
sync_from_client server none = none
sync_from_client server (some client) =
    let ip = get_or client.head.peers 0 0 in
    do
      pruned ← prune ip client.nodes server.nodes
      merged ← merge_all ip client.nodes pruned
      some (record server { nodes = merged })
