-- ===== src/TableMessage/Sample.antt =====
-- A small table, which keeps its layout.
use networks_dartsync.Base.{
  false, ℕ, ◌<◌, ◌≡◌, refl, [], ◌∷◌, replicate, arith, length, All-replicate,
}
use networks_dartsync.Base.Bytes.{Bytes, codes}
use networks_dartsync.FileTable.{FileNode, FileTable, file_type}
use networks_dartsync.FileTable.Peers.{has}
use networks_dartsync.TableMessage.Layout.{IsWord, IsRecord}
use networks_dartsync.TableMessage.Receiving.{IsSendable}

abbrev pub row : Bytes → ℕ → FileNode
row name size = record {
  size = size;
  name = name;
  type = file_type;
  timestamp = 1432900000;
  num_peers = 1;
  peers = 7 ∷ replicate 199 0;
}

row-IsRecord :
    (name : Bytes) (size : ℕ)
    → has 0 name ≡ false
    → length name < 256
    → IsWord size
    → IsRecord (row name size)
row-IsRecord name size plain short small = record {
  size = small;
  no_nul = plain;
  short = short;
  type = omega arith;
  timestamp = omega arith;
  num_peers = omega arith;
  peers_size = refl;
  peers = (omega arith, All-replicate IsWord 0 (omega arith) 199);
}

abbrev pub sent_table : FileTable
sent_table = record { head = row [] 0; nodes = row (codes "d/a") 10 ∷ [] }

pub sent_table-IsSendable : IsSendable sent_table
unfolding has
sent_table-IsSendable = record {
  head = row-IsRecord [] 0 refl (omega arith) (omega arith);
  nodes = (row-IsRecord (codes "d/a") 10 refl (omega arith) (omega arith), tt);
  count = omega arith;
}
