-- ===== src/FileTable/Disconnect.antt =====
-- `delete_disconn_peer`, by which the tracker forgets a client whose connection has ended.
pub mod Swap
pub mod Laws
use networks_dartsync.Base.{
  ℕ, ◌-◌, List, [], ◌∷◌, Option, none, some, ltb, if◌then◌else◌, ◌>>=◌, get_or, set, length,
}
use networks_dartsync.FileTable.{FileNode, FileTable, overrun, absent, at, find_peer}

-- `num_peers--; peers[i] = peers[num_peers];`
unfoldable pub remove_at : ℕ → FileNode → Option FileNode
remove_at i s =
    let last = s.num_peers - 1 in
    if ltb last (length s.peers)
    then some (record s { num_peers = last; peers = set s.peers i (get_or s.peers last 0) })
    else none

unfoldable pub delete_peer : ℕ → FileNode → Option FileNode
delete_peer ip s = elim (find_peer ip s.num_peers s.peers) [
  | overrun ↦ none
  | absent ↦ some s
  | at i ↦ remove_at i s
]

unfoldable pub delete_peers : ℕ → List FileNode → Option (List FileNode)
delete_peers ip [] = some []
delete_peers ip (s ∷ nodes) = do
  s' ← delete_peer ip s
  rest ← delete_peers ip nodes
  some (s' ∷ rest)

unfoldable pub delete_disconn_peer : ℕ → FileTable → Option FileTable
delete_disconn_peer ip table = do
  nodes ← delete_peers ip table.nodes
  some (record table { nodes = nodes })
