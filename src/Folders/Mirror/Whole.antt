-- ===== src/Folders/Mirror/Whole.antt =====
-- The whole of `sync_with_server` on the tree.
use networks_dartsync.Base.{◌≡◌, List, none, some}
use networks_dartsync.Base.Bytes.{Bytes}
use networks_dartsync.FileTable.{FileNode, FileTable}
use networks_dartsync.FileTable.Sync.View.{find}
use networks_dartsync.Folders.{Disk}
use networks_dartsync.Folders.Mirror.{expected}
use networks_dartsync.Folders.Mirror.Progress.{Progress}

-- The tree behind `sync_with_server`.
pub record Mirrors (fetch : FileNode → Bytes) (cs ss : List FileNode) (before after : Disk)
    : Type 0 where
  pub listed :
      (q : Bytes) (s : FileNode)
      → find q ss ≡ some s
      → after q ≡ expected fetch (find q cs) s (before q)
  pub unlisted : (q : Bytes) (c : FileNode) → find q cs ≡ some c → find q ss ≡ none → after q ≡ none
