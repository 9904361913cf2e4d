-- ===== src/LocalSync/Tests.antt =====
-- A run of `sync_with_server`, and the theorem at it.
use networks_dartsync.Base.{ℕ, ◌≡◌, refl, [], ◌∷◌, true, false}
use networks_dartsync.Base.Bytes.{Bytes, codes, bytes_eq}
use networks_dartsync.FileTable.{FileNode, FileTable, file_type, folder_type, zero_peers, name_in}
use networks_dartsync.FileTable.Sync.View.{find}
use networks_dartsync.LocalSync.{
  safe_delete, safe_add_folder, download, remove_temporary, deletions, addition, replacement, round,
  updates, Monitor, sync_with_server,
}
use networks_dartsync.LocalSync.Plan.{about, wanted, sync_with_server-wanted}

abbrev entry : Bytes → ℕ → ℕ → FileNode
entry name type timestamp = record {
  size = 10;
  name = name;
  type = type;
  timestamp = timestamp;
  num_peers = 1;
  peers = zero_peers;
}

abbrev local : Monitor
local = record {
  table = record {
    head = entry [] 0 0;
    nodes =
        entry (codes "d/gone") file_type 40
        ∷ entry (codes "d/old") file_type 50
        ∷ entry (codes "d/s") folder_type 50
        ∷ [];
  };
  last_table_update_time = 90;
  update_enable = false;
}

abbrev shared : FileTable
shared = record {
  head = entry [] 0 0;
  nodes =
      entry (codes "d/s") folder_type 70
      ∷ entry (codes "d/t") folder_type 60
      ∷ entry (codes "d/old") file_type 80
      ∷ [];
}

sync_run :
    (sync_with_server (λ actions. shared.nodes) shared local).actions
    ≡ safe_delete (codes "d/gone")
      ∷ safe_add_folder (codes "d/t")
      ∷ safe_delete (codes "d/old")
      ∷ download (entry (codes "d/old") file_type 80)
      ∷ remove_temporary
      ∷ []
unfolding sync_with_server deletions updates round addition replacement find name_in bytes_eq
sync_run = refl

sync_with_server-wanted_example :
    ((name : Bytes)
      → about name ((sync_with_server (λ actions. shared.nodes) shared local).actions)
        ≡ wanted name (find name local.table.nodes) (find name shared.nodes))
    × ((sync_with_server (λ actions. shared.nodes) shared local).monitor.update_enable ≡ true)
unfolding name_in bytes_eq
sync_with_server-wanted_example =
    sync_with_server-wanted (λ actions. shared.nodes) shared local (refl, (refl, (refl, tt)))
      (refl, (refl, (refl, tt)))
