-- ===== src/Folders.antt =====
-- What the client does to its directory by commands of the shell: `safe_delete` and
-- `safe_add_folder` of utils/file_monitor.c, and the loop at the beginning of
-- `download_file_multi_thread` in utils/peer2peer.c. The system calls and the shell are a parameter.
-- A command that overruns its array is undefined in C: the result is `none`.
pub mod Laws
pub mod Shell
pub mod Making
pub mod Steps
pub mod Mirror
mod Tests
use networks_dartsync.Base.{
  ℕ, List, [], ◌∷◌, ◌++◌, Bool, Option, none, some, ◌==◌, if◌then◌else◌, ◌>>=◌,
}
use networks_dartsync.Base.Bytes.{Bytes, codes}
use networks_dartsync.FileTable.{FileNode}
use networks_dartsync.LocalSync.{Action}
use networks_dartsync.TempName.{copy_to_buffer}
use networks_dartsync.TempName.Decimal.{decimal}

-- A folder, or a file with its content.
pub data Node : Type 0 where
  a_folder : Node
  a_file : Bytes → Node

-- The tree, by the paths from the working directory.
abbrev pub Disk : Type 0
Disk = Bytes → Option Node

-- Whether `opendir` and `access` succeed, and what `system` does, what writing a new file does, and
-- what the commands do that find and remove the names that end in `~`.
pub record Os : Type 0 where
  pub opendir : Bytes → Disk → Bool
  pub access : Bytes → Disk → Bool
  pub system : Bytes → Disk → Disk
  pub write : Bytes → Bytes → Disk → Disk
  pub remove_temporary : Disk → Disk
  pub date : ℕ → Bytes

-- `command[256]`
abbrev pub command_size : ℕ
command_size = 256

abbrev pub rm : Bytes
rm = codes "rm -rf "

abbrev pub mkdir : Bytes
mkdir = codes "mkdir "

unfoldable pub safe_delete : Os → Bytes → Disk → Option Disk
safe_delete os file_name d =
    if os.access file_name d
    then (do command ← copy_to_buffer command_size (rm ++ file_name); some (os.system command d))
    else some d

unfoldable pub make_if_missing : Os → Bytes → Disk → Option Disk
make_if_missing os path d =
    if os.opendir path d
    then some d
    else (do command ← copy_to_buffer command_size (mkdir ++ path); some (os.system command d))

-- The loop over the characters of a name. `folder_path` holds those that have been read.
unfoldable pub make_parents : Os → Bytes → Bytes → Disk → Option Disk
make_parents os folder_path [] d = some d
make_parents os folder_path (c ∷ name) d =
    let path = folder_path ++ c ∷ [] in
    if c == b'/'
    then (do d' ← make_if_missing os path d; make_parents os path name d')
    else make_parents os path name d

unfoldable pub safe_add_folder : Os → Bytes → Disk → Option Disk
safe_add_folder os folder_name d = do
  d' ← make_parents os [] folder_name d
  make_if_missing os folder_name d'

-- The folder and the last part of a name: what `memcpy` gives to `curr_dir` and `relative_dir`. A
-- name without a slash has the last one at -1, so that many bytes are copied.
unfoldable pub split_at_slash : Bytes → Option (Bytes × Bytes)
split_at_slash [] = none
split_at_slash (c ∷ s) = elim (split_at_slash s) [
  | some (dir, last) ↦ some (c ∷ dir, last)
  | none ↦ if c == b'/' then some ([], s) else none
]

abbrev pub find_command : Bytes → Bytes → ℕ → Bytes
find_command curr_dir relative_dir timestamp =
    codes "find ./"
    ++ (curr_dir
        ++ (codes " -type f -name \""
            ++ (relative_dir
                ++ (codes "__*__" ++ (decimal timestamp ++ codes "~\" > tmpt_file~")))))

-- `command[150]` of `set_mtime`
abbrev pub touch_size : ℕ
touch_size = 150

abbrev pub touch_command : Bytes → Bytes → Bytes
touch_command date path = codes "touch -t " ++ (date ++ (codes " " ++ path))

-- `download_file_multi_thread`, seen from the tree: `arrived` is what the merge writes, and none where
-- the download does not come to its end. The temporary files are left out.
unfoldable pub download_file : Os → Option Bytes → FileNode → Disk → Option Disk
download_file os arrived s d =
    let written = (do
      d1 ← make_parents os [] s.name d
      (curr_dir, relative_dir) ← split_at_slash s.name
      listing ← copy_to_buffer command_size (find_command curr_dir relative_dir s.timestamp)
      content ← arrived
      command ← copy_to_buffer touch_size (touch_command (os.date s.timestamp) s.name)
      some (os.system command (os.write s.name content d1))) in
    if s.num_peers == 0 then some d else written

unfoldable pub perform : Os → (FileNode → Option Bytes) → Action → Disk → Option Disk
perform os fetch (Action.safe_delete name) d = safe_delete os name d
perform os fetch (Action.safe_add_folder name) d = safe_add_folder os name d
perform os fetch (Action.download s) d = download_file os (fetch s) s d
perform os fetch Action.remove_temporary d = some (os.remove_temporary d)

unfoldable pub perform_all : Os → (FileNode → Option Bytes) → List Action → Disk → Option Disk
perform_all os fetch [] d = some d
perform_all os fetch (a ∷ actions) d = do d' ← perform os fetch a d; perform_all os fetch actions d'
