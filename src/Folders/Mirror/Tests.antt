-- ===== src/Folders/Mirror/Tests.antt =====
-- A file goes, a file is replaced and a folder is made.
use networks_dartsync.Base.{List, [], ◌∷◌, true, none, some, if◌then◌else◌}
use networks_dartsync.Base.Bytes.{Bytes, codes, bytes_eq}
use networks_dartsync.FileTable.{FileNode, folder_type}
use networks_dartsync.LocalSync.{Monitor}
use networks_dartsync.TableMessage.Sample.{row}
use networks_dartsync.Folders.{a_folder, a_file, Disk}

abbrev gone : FileNode
gone = row (codes "d/o") 1

abbrev older : FileNode
older = record (row (codes "d/f") 1) { timestamp = 5 }

abbrev newer : FileNode
newer = record (row (codes "d/f") 2) { timestamp = 9 }

abbrev made : FileNode
made = record (row (codes "d/s") 0) { type = folder_type }

abbrev client : List FileNode
client = gone ∷ older ∷ []

abbrev server : List FileNode
server = made ∷ newer ∷ []

abbrev tree : Disk
unfolding bytes_eq
tree q =
    if bytes_eq q (codes "d")
    then some a_folder
    else if bytes_eq q (codes "d/o")
    then some (a_file (1 ∷ []))
    else if bytes_eq q (codes "d/f")
    then some (a_file (2 ∷ []))
    else none

abbrev monitor : Monitor
monitor = record {
  table = record { head = row [] 0; nodes = client };
  last_table_update_time = 5;
  update_enable = true;
}

abbrev fetched : FileNode → Bytes
fetched s = 7 ∷ s.size ∷ []
