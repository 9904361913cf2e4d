-- ===== src/FileTable/Tests.antt =====
-- Runs of the file table's operations, and the theorems at concrete tables.
use networks_dartsync.Base.{ℕ, ◌≡◌, refl, some, [], ◌∷◌, arith, set, get_or}
use networks_dartsync.Base.Bytes.{Bytes, codes, bytes_eq}
use networks_dartsync.FileTable.{
  FileNode, FileTable, file_type, zero_peers, name_in, find_peer, push_peer,
}
use networks_dartsync.FileTable.Peers.{has}
use networks_dartsync.FileTable.Sync.{
  sync_from_client, prune, keeps, merge_all, merge, merge_first, merge_node, join_peers, new_node,
  replaced,
}
use networks_dartsync.FileTable.Sync.View.{IsTable, IsClientTable}
use networks_dartsync.FileTable.Sync.Refine.{Takeover, sync_from_client-synced}
use networks_dartsync.FileTable.Disconnect.{
  delete_disconn_peer, delete_peers, delete_peer, remove_at,
}
use networks_dartsync.FileTable.Disconnect.Laws.{AllReleased, delete_disconn_peer-AllReleased}

-- A node that lists two peers or one.
abbrev node : Bytes → ℕ → ℕ → ℕ → ℕ → FileNode
unfolding zero_peers
node name timestamp num_peers ip jp = record {
  size = 10;
  name = name;
  type = file_type;
  timestamp = timestamp;
  num_peers = num_peers;
  peers = set (set zero_peers 0 ip) 1 jp;
}

abbrev server : FileTable
server = record {
  head = node [] 0 0 1 0;
  nodes =
      node (codes "d/old") 50 1 7 0
      ∷ node (codes "d/a") 50 2 7 8
      ∷ node (codes "d/b") 60 1 8 0
      ∷ [];
}

-- The client 7 has deleted `old`, has a newer `a`, the same `b` and a new `c`.
abbrev client : FileTable
client = record {
  head = node [] 0 0 7 0;
  nodes =
      node (codes "d/a") 70 1 7 0 ∷ node (codes "d/b") 60 1 7 0 ∷ node (codes "d/c") 80 1 7 0 ∷ [];
}

sync_run :
    sync_from_client server (some client)
    ≡ some (record server {
      nodes =
          node (codes "d/c") 80 1 7 0
          ∷ node (codes "d/a") 70 1 7 8
          ∷ node (codes "d/b") 60 2 8 7
          ∷ [];
    })
unfolding sync_from_client prune keeps merge_all merge merge_first merge_node join_peers new_node
    replaced find_peer push_peer name_in bytes_eq node
sync_run = refl

server-IsTable : IsTable server.nodes
unfolding node name_in bytes_eq has
server-IsTable = record {
  nodes_valid = (
    record { size = refl; within = omega arith; distinct = (refl, tt) },
    (
      record { size = refl; within = omega arith; distinct = (refl, (refl, tt)) },
      (record { size = refl; within = omega arith; distinct = (refl, tt) }, tt),
    ),
  );
  unique = (refl, (refl, (refl, tt)));
}

client-IsClientTable : IsClientTable client.nodes
unfolding node name_in bytes_eq
client-IsClientTable = record {
  one_peer = (refl, (refl, (refl, tt)));
  unique = (refl, (refl, (refl, tt)));
}

sync_from_client-synced_example :
    (after : FileTable) × Takeover (get_or client.head.peers 0 0) server client after
unfolding node
sync_from_client-synced_example =
    sync_from_client-synced server client server-IsTable (omega arith) client-IsClientTable

disconnect_run :
    delete_disconn_peer 7 server
    ≡ some (record server {
      nodes =
          node (codes "d/old") 50 0 7 0
          ∷ node (codes "d/a") 50 1 8 8
          ∷ node (codes "d/b") 60 1 8 0
          ∷ [];
    })
unfolding delete_disconn_peer delete_peers delete_peer remove_at find_peer node
disconnect_run = refl

delete_disconn_peer-AllReleased_example :
    (after : FileTable) × (delete_disconn_peer 7 server ≡ some after)
    × IsTable after.nodes
    × AllReleased 7 server.nodes after.nodes
delete_disconn_peer-AllReleased_example = delete_disconn_peer-AllReleased 7 server server-IsTable
