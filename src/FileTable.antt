-- ===== src/FileTable.antt =====
-- The file table, utils/file_monitor.c: a list of `file_node` records behind a first node, whose
-- name is empty and whose `peers[0]` is the address of the table's owner. A read or a write behind
-- the end of the array `peers`, and a `NULL` table, are undefined in C: the result is `none`.
pub mod Peers
pub mod Sync
pub mod Disconnect
mod Tests
use networks_dartsync.Base.{
  ℕ, zero, suc, ◌+◌, ◌-◌, List, [], ◌∷◌, Bool, true, false, not, ◌||◌, Option, none, some, ltb,
  ◌==◌, if◌then◌else◌, ◌>>=◌, get_or, set, length, replicate,
}
use networks_dartsync.Base.Bytes.{Bytes, bytes_eq}

abbrev pub file_type : ℕ
file_type = 8

abbrev pub folder_type : ℕ
folder_type = 4

-- `peers[200]` of the record.
abbrev pub max_peers : ℕ
max_peers = 200

pub record FileNode : Type 0 where
  pub size : ℕ
  pub name : Bytes
  pub type : ℕ
  pub timestamp : ℕ
  pub num_peers : ℕ
  pub peers : List ℕ

-- The first node, and the nodes behind it.
pub record FileTable : Type 0 where
  pub head : FileNode
  pub nodes : List FileNode

-- The array that `bzero` leaves.
unfoldable pub zero_peers : List ℕ
zero_peers = replicate max_peers 0

-- The result of a search through `peers`: behind the array, not found, or the index.
pub data Search : Type 0 where
  overrun : Search
  absent : Search
  at : ℕ → Search

abbrev pub shift : Search → Search
shift overrun = overrun
shift absent = absent
shift (at i) = at (suc i)

-- `for (i = 0; i < num_peers; i++) if (peers[i] == client_IP) break;`
unfoldable pub find_peer : ℕ → ℕ → List ℕ → Search
find_peer ip zero peers = absent
find_peer ip (suc k) [] = overrun
find_peer ip (suc k) (p ∷ peers) = if p == ip then at 0 else shift (find_peer ip k peers)

-- The walk that sets `is_exist`.
unfoldable pub name_in : Bytes → List FileNode → Bool
name_in name [] = false
name_in name (s ∷ nodes) = bytes_eq name s.name || name_in name nodes

-- `peers[num_peers] = client_IP; num_peers++;`
unfoldable pub push_peer : ℕ → FileNode → Option FileNode
push_peer ip s =
    if ltb s.num_peers (length s.peers)
    then some (record s { num_peers = s.num_peers + 1; peers = set s.peers s.num_peers ip })
    else none
