-- ===== src/Scan.antt =====
-- The scan of the watched directory, utils/file_monitor.c: `file_table_update_helper` on a tree of
-- directories as `readdir` and `stat` show it, and `file_table_update`. A path that overruns the
-- name of a record is undefined in C: the result is `none`.
pub mod Listed
pub mod Names
pub mod Unique
mod Tests
use networks_dartsync.Base.{
  ℕ, ◌+◌, ◌%◌, ◌^◌, List, [], ◌∷◌, ◌++◌, Bool, true, false, not, ◌&&◌, ◌||◌, Option, none, some,
  leb, ◌==◌, if◌then◌else◌, ◌>>=◌, set,
}
use networks_dartsync.Base.Bytes.{Bytes}
use networks_dartsync.FileTable.{FileNode, FileTable, file_type, folder_type, zero_peers}
use networks_dartsync.LocalSync.{Monitor}
use networks_dartsync.TempName.{copy_to_buffer, name_size}

-- The entries of a directory: a file, a folder with its own entries, or an entry of another type
-- (a link, a device), each with its time of modification, and the entries behind it. A folder that
-- cannot be opened has no entries. The size of a file is what `get_file_size` returns.
pub data Entries : Type 0 where
  end : Entries
  file : (name : Bytes) (mtime size : ℕ) → Entries → Entries
  folder : (name : Bytes) (mtime : ℕ) (entries : Entries) → Entries → Entries
  other : (name : Bytes) (mtime : ℕ) → Entries → Entries

abbrev pub starts_with : ℕ → Bytes → Bool
starts_with c [] = false
starts_with c (d ∷ s) = d == c

abbrev pub ends_with : ℕ → Bytes → Bool
ends_with c [] = false
ends_with c (d ∷ []) = d == c
ends_with c (d ∷ e ∷ s) = ends_with c (e ∷ s)

-- Hidden files and temporary files are left out.
abbrev pub visible : Bytes → Bool
visible name = not (starts_with b'.' name) && not (ends_with b'~' name)

-- `sprintf(new_node->name, "%s/%s", directory, direntp->d_name)`
abbrev pub path : Bytes → Bytes → Bytes
path directory name = directory ++ (b'/' ∷ name)

-- The record of an entry, for the client's own address.
unfoldable pub record_of : ℕ → Bytes → ℕ → ℕ → ℕ → FileNode
record_of ip name mtime size type = record {
  size = size;
  name = name;
  type = type;
  timestamp = mtime % 2 ^ 32;
  num_peers = 1;
  peers = set zero_peers 0 ip;
}

-- Whether something is newer than the last update, and the records.
pub record Scanned : Type 0 where
  pub is_updated : Bool
  pub nodes : List FileNode

-- The loop over `readdir`.
unfoldable pub scan_entries : ℕ → ℕ → Bytes → Entries → Option Scanned
scan_entries last ip directory end = some (record { is_updated = false; nodes = [] })
scan_entries last ip directory (file name mtime size rest) = do
  behind ← scan_entries last ip directory rest
  if visible name
      then (do
        full ← copy_to_buffer name_size (path directory name)
        some (record {
          is_updated = leb last mtime || behind.is_updated;
          nodes = record_of ip full mtime size file_type ∷ behind.nodes;
        }))
      else some behind
scan_entries last ip directory (folder name mtime entries rest) = do
  behind ← scan_entries last ip directory rest
  if visible name
      then (do
        full ← copy_to_buffer name_size (path directory name)
        inner ← scan_entries last ip full entries
        some (record {
          is_updated = (leb last mtime || inner.is_updated) || behind.is_updated;
          nodes = record_of ip full mtime 0 folder_type ∷ (inner.nodes ++ behind.nodes);
        }))
      else some behind
scan_entries last ip directory (other name mtime rest) = do
  behind ← scan_entries last ip directory rest
  if visible name
      then (do
        full ← copy_to_buffer name_size (path directory name)
        some (record behind { nodes = record_of ip full mtime 0 0 ∷ behind.nodes }))
      else some behind

-- The watched directory: its time of modification and its entries.
pub record Directory : Type 0 where
  pub mtime : ℕ
  pub entries : Entries

-- What is found under the name: a directory, which has no entries where it cannot be opened; or
-- nothing, and whether `mkdir` succeeds.
pub data Root : Type 0 where
  opened : Directory → Root
  missing : (made : Bool) → Root

-- `file_table_update_helper` for the watched directory. If it is not there and cannot be made, the
-- answer is what a `stat` that failed has left unset.
unfoldable pub file_table_update_helper : ℕ → ℕ → Bytes → Root → Option Scanned
file_table_update_helper last ip name (opened directory) = do
  s ← scan_entries last ip name directory.entries
  some (record s { is_updated = leb last directory.mtime || s.is_updated })
file_table_update_helper last ip name (missing true) =
    some (record { is_updated = true; nodes = [] })
file_table_update_helper last ip name (missing false) = none

-- `file_table_update` at the time `now`: the answer, and the monitor behind it.
unfoldable pub file_table_update : ℕ → ℕ → Bytes → Root → Monitor → Option (Bool × Monitor)
file_table_update now my_ip name root m =
    let scanned = file_table_update_helper m.last_table_update_time my_ip name root in
    let first_node = record_of my_ip [] 0 0 0 in
    if m.update_enable
    then (do
      s ← scanned
      some (
        s.is_updated,
        record m {
          table = record { head = record first_node { num_peers = 0 }; nodes = s.nodes };
          last_table_update_time = now % 2 ^ 32;
        },
      ))
    else some (false, m)
