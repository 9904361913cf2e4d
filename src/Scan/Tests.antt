-- ===== src/Scan/Tests.antt =====
-- A scan of a small directory, and the theorem at it.
use networks_dartsync.Base.{◌≡◌, refl, some, [], ◌∷◌, true, ◌||◌, arith, leb}
use networks_dartsync.Base.Bytes.{codes, bytes_eq}
use networks_dartsync.FileTable.{file_type, folder_type}
use networks_dartsync.FileTable.Peers.{has}
use networks_dartsync.LocalSync.{Monitor}
use networks_dartsync.Scan.{
  end, file, folder, Directory, opened, record_of, scan_entries, file_table_update,
  file_table_update_helper,
}
use networks_dartsync.Scan.Listed.{listed, any_newer}
use networks_dartsync.Scan.Names.{Tidy, sibling}
use networks_dartsync.Scan.Unique.{Refreshed, file_table_update-Refreshed}
use networks_dartsync.TempName.{copy_to_buffer}

-- A hidden file, a folder with a file and a temporary file, and a file.
abbrev watched : Directory
watched = record {
  mtime = 40;
  entries = file (codes ".x") 50 1 (
      folder (codes "s") 60 (file (codes "a") 70 2 (file (codes "a~") 80 3 end))
        (file (codes "b") 30 4 end));
}

abbrev before : Monitor
unfolding record_of
before = record {
  table = record { head = record_of 7 [] 0 0 0; nodes = [] };
  last_table_update_time = 65;
  update_enable = true;
}

scan_run :
    file_table_update_helper 65 7 (codes "d") (opened watched)
    ≡ some (record {
      is_updated = true;
      nodes =
          record_of 7 (codes "d/s") 60 0 folder_type
          ∷ record_of 7 (codes "d/s/a") 70 2 file_type
          ∷ record_of 7 (codes "d/b") 30 4 file_type
          ∷ [];
    })
unfolding file_table_update_helper scan_entries copy_to_buffer record_of
scan_run = refl

watched-Tidy : Tidy watched.entries
unfolding sibling has bytes_eq
watched-Tidy = (refl, refl, (refl, refl, (refl, refl, (refl, refl, tt)), (refl, refl, tt)))

file_table_update-Refreshed_example :
    (m' : Monitor) × (file_table_update 100 7 (codes "d") (opened watched) before
      ≡ some (leb 65 40 || any_newer 65 (listed 7 (codes "d") watched.entries), m'))
    × Refreshed 100 7 (listed 7 (codes "d") watched.entries) m'
unfolding before
file_table_update-Refreshed_example =
    file_table_update-Refreshed 100 7 (codes "d") watched before refl (omega arith) (omega arith)
      watched-Tidy
