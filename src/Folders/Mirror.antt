-- ===== src/Folders/Mirror.antt =====
-- What is expected of the tree behind `sync_with_server`.
pub mod Deleting
pub mod Updating
pub mod Rounds
pub mod Progress
pub mod Whole
mod Tests
use networks_dartsync.Base.{
  ◌+◌, ◌^◌, ◌<◌, ◌≡◌, ◌⊎◌, List, Bool, true, ◌||◌, Option, none, some, ltb, ◌==◌, if◌then◌else◌,
  length,
}
use networks_dartsync.Base.Bytes.{Bytes, bytes_eq}
use networks_dartsync.FileTable.{FileNode, file_type, folder_type}
use networks_dartsync.FileTable.Sync.View.{find, UniqueNames}
use networks_dartsync.Folders.{Node, a_folder, a_file, Disk, command_size}
use networks_dartsync.Folders.Laws.{IsPath, above}

-- The watched directory, or a folder on the way to it.
abbrev pub base : Bytes → Bytes → Bool
base root q = bytes_eq q root || above q root

-- Whether the tracker's record is fetched: the client has none, or an older one.
abbrev pub is_due : Option FileNode → FileNode → Bool
is_due none s = true
is_due (some c) s = ltb c.timestamp s.timestamp

-- Every download comes to its end, with what the peers have.
abbrev pub all_arrive : (FileNode → Bytes) → FileNode → Option Bytes
all_arrive fetch s = some (fetch s)

-- A folder of the tracker is a folder. A file has what the peers have, if it is fetched, and else
-- what it had.
abbrev pub expected : (FileNode → Bytes) → Option FileNode → FileNode → Option Node → Option Node
expected fetch c s before =
    if s.type == folder_type
    then some a_folder
    else if is_due c s
    then some (a_file (fetch s))
    else before

-- A name within the watched directory that the shell takes as one word, and that fits a command.
pub record CanName (root name : Bytes) : Type 0 where
  pub path : IsPath name
  pub short : length name + 7 < command_size
  pub within : above root name ≡ true

-- The tree before, for the tables of the client and of the tracker. The client's table is that of a
-- scan: what it lists is there, of its type, and what the tracker lists beyond it is not there. The
-- tracker lists the folders above what it lists, and its files have names that fit the command of
-- `set_mtime`. No file has become a folder, or a folder a file.
pub record Agrees (root : Bytes) (cs ss : List FileNode) (d : Disk) : Type 0 where
  pub client_unique : UniqueNames cs
  pub server_unique : UniqueNames ss
  pub client_names : (q : Bytes) (c : FileNode) → find q cs ≡ some c → CanName root q
  pub server_names : (q : Bytes) (s : FileNode) → find q ss ≡ some s → CanName root q
  pub fetchable :
      (q : Bytes) (s : FileNode)
      → find q ss ≡ some s
      → s.type ≡ file_type
      → (length s.name < 125) × (s.timestamp < 2 ^ 32)
  pub served : (q : Bytes) (s : FileNode) → find q ss ≡ some s → 0 < s.num_peers
  pub typed :
      (q : Bytes) (s : FileNode)
      → find q ss ≡ some s
      → (s.type ≡ file_type) ⊎ (s.type ≡ folder_type)
  pub closed :
      (q p : Bytes) (s : FileNode)
      → find p ss ≡ some s
      → above q p ≡ true
      → (base root q ≡ true) ⊎ ((f : FileNode) × (find q ss ≡ some f) × (f.type ≡ folder_type))
  pub base_made : (q : Bytes) → base root q ≡ true → d q ≡ some a_folder
  pub same_type :
      (q : Bytes) (c s : FileNode) → find q cs ≡ some c → find q ss ≡ some s → c.type ≡ s.type
  pub folder_there :
      (q : Bytes) (c s : FileNode)
      → find q cs ≡ some c
      → find q ss ≡ some s
      → s.type ≡ folder_type
      → d q ≡ some a_folder
  pub file_there :
      (q : Bytes) (c s : FileNode)
      → find q cs ≡ some c
      → find q ss ≡ some s
      → s.type ≡ file_type
      → (content : Bytes) × (d q ≡ some (a_file content))
  pub missing : (q : Bytes) (s : FileNode) → find q cs ≡ none → find q ss ≡ some s → d q ≡ none
