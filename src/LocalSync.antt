-- ===== src/LocalSync.antt =====
-- `sync_with_server`, utils/file_monitor.c, by which a client takes over the tracker's file table.
-- What it does to the watched directory is a list of actions, in their order.
pub mod Plan
mod Tests
use networks_dartsync.Base.{
  ℕ, List, [], ◌∷◌, ◌++◌, Bool, true, false, not, ◌&&◌, ◌||◌, Option, none, some, ltb, ◌==◌,
  if◌then◌else◌,
}
use networks_dartsync.Base.Bytes.{Bytes, bytes_eq}
use networks_dartsync.FileTable.{FileNode, FileTable, file_type, folder_type, name_in}
use networks_dartsync.FileTable.Sync.{not_both_folders}
use networks_dartsync.FileTable.Sync.View.{find}

-- The calls of `safe_delete`, `safe_add_folder` and `download_file_multi_thread`, and the removal
-- of the temporary files, whose names end in `~`.
pub data Action : Type 0 where
  safe_delete : Bytes → Action
  safe_add_folder : Bytes → Action
  download : FileNode → Action
  remove_temporary : Action

-- The first loop: what the tracker does not list is deleted.
unfoldable pub deletions : List FileNode → List FileNode → List Action
deletions [] server = []
deletions (c ∷ client) server =
    let rest = deletions client server in
    if name_in c.name server then rest else safe_delete c.name ∷ rest

-- A file or folder that the client does not have is added.
unfoldable pub addition : FileNode → Action
addition s = if s.type == file_type then download s else safe_add_folder s.name

-- An older edition is replaced.
unfoldable pub replacement : FileNode → FileNode → List Action
replacement c s =
    if ltb c.timestamp s.timestamp && not_both_folders c s
    then safe_delete c.name
      ∷ (if s.type == folder_type then safe_add_folder s.name else download s)
      ∷ []
    else []

unfoldable pub round : List FileNode → FileNode → List Action
round client s = elim (find s.name client) [ none ↦ addition s ∷ [] | some c ↦ replacement c s ]

-- The second loop.
unfoldable pub updates : List FileNode → List FileNode → List Action
updates client [] = []
updates client (s ∷ server) = round client s ++ updates client server

-- The state of the client's monitor.
pub record Monitor : Type 0 where
  pub table : FileTable
  pub last_table_update_time : ℕ
  pub update_enable : Bool

-- What happened, and the monitor behind it.
pub record Synchronised : Type 0 where
  pub actions : List Action
  pub monitor : Monitor

abbrev pub is_empty : List Action → Bool
is_empty [] = true
is_empty (a ∷ rest) = false

-- `directory` is what a scan of the watched directory finds after the actions; the table is read
-- again from it only if there was something to do, and the time of the last scan is reset, so that
-- the next scan reports an update.
unfoldable pub sync_with_server : (List Action → List FileNode) → FileTable → Monitor → Synchronised
sync_with_server directory server m =
    let todo = deletions m.table.nodes server.nodes ++ updates m.table.nodes server.nodes in
    let actions = todo ++ remove_temporary ∷ [] in
    record {
      actions = actions;
      monitor = if is_empty todo then record m { update_enable = true } else record {
        table = record (m.table) { nodes = directory actions };
        last_table_update_time = 0;
        update_enable = true;
      };
    }
