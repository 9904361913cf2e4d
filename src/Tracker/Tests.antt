-- ===== src/Tracker/Tests.antt =====
-- Runs of the tracker, and the theorems at concrete events.
use networks_dartsync.Base.{inl, ℕ, ◌≡◌, refl, Option, some, true, List, [], ◌∷◌, ◌>>=◌, arith, set}
use networks_dartsync.Base.Bytes.{Bytes, codes, bytes_eq}
use networks_dartsync.FileTable.{
  FileNode, FileTable, file_type, zero_peers, name_in, find_peer, push_peer,
}
use networks_dartsync.FileTable.Sync.{
  sync_from_client, prune, keeps, merge_all, merge, merge_first, merge_node, join_peers, new_node,
  replaced,
}
use networks_dartsync.FileTable.Disconnect.{
  delete_disconn_peer, delete_peers, delete_peer, remove_at,
}
use networks_dartsync.FileTable.Peers.{has}
use networks_dartsync.FileTable.Sync.View.{find_view, find}
use networks_dartsync.Tracker.{
  Tracker, tracker_initial, authorise, max_try, heartbeat, file_update, unknown, Event, connected,
  signal, disconnected, checked, run, step, handle_signal, address_table, from_sender,
}
use networks_dartsync.Tracker.Connected.{without}
use networks_dartsync.Tracker.Holders.{Sound}
use networks_dartsync.Tracker.Reachable.{Orderly, connected_after, run-tracker_initial}

abbrev offer : Bytes → ℕ → FileNode
offer name timestamp = record {
  size = 10;
  name = name;
  type = file_type;
  timestamp = timestamp;
  num_peers = 1;
  peers = set zero_peers 0 0;
}

abbrev table_of : List FileNode → FileTable
table_of nodes = record { head = offer [] 0; nodes = nodes }

-- Two clients offer the same edition of `a`, the first one also `b`, and the first one goes.
abbrev day : List Event
day =
    connected 100 7 4
    ∷ signal 7
        (file_update (some (table_of (offer (codes "d/a") 50 ∷ offer (codes "d/b") 60 ∷ []))))
    ∷ connected 101 8 5
    ∷ signal 8 (file_update (some (table_of (offer (codes "d/a") 50 ∷ []))))
    ∷ signal 8 (heartbeat 105)
    ∷ signal 8 (unknown 9)
    ∷ checked 112
    ∷ disconnected 7
    ∷ []

holders_under : Bytes → Option Tracker → Option (List ℕ)
holders_under name result = do t ← result; e ← find_view name t.files.nodes; some e.holders

day-Orderly : Orderly [] day
unfolding has without name_in bytes_eq zero_peers
day-Orderly = (
  omega arith,
  (
    refl,
    (
      record { one_peer = (refl, (refl, tt)); unique = (refl, (refl, tt)) },
      omega arith,
      (inl refl, (inl refl, tt)),
    ),
    (
      omega arith,
      (
        refl,
        (record { one_peer = (refl, tt); unique = (refl, tt) }, omega arith, (inl refl, tt)),
        (refl, tt, (refl, tt, (refl, tt))),
      ),
    ),
  ),
)

run-tracker_initial_example :
    (t : Tracker) × (run day (tracker_initial 1) ≡ some t) × Sound (connected_after [] day) t
run-tracker_initial_example = run-tracker_initial 1 day day-Orderly

day_result : holders_under (codes "d/a") (run day (tracker_initial 1)) ≡ some (8 ∷ [])
unfolding holders_under run step handle_signal address_table from_sender tracker_initial
    sync_from_client prune keeps merge_all merge merge_first merge_node join_peers new_node replaced
    find_peer push_peer name_in bytes_eq zero_peers delete_disconn_peer delete_peers delete_peer
    remove_at find
day_result = refl

abbrev tries : List Bytes
tries = codes "wrong" ∷ codes "right" ∷ codes "late" ∷ []

tries_run :
    authorise (codes "right") max_try tries ≡ some (record { replies = 0 ∷ 1 ∷ []; pass = true })
unfolding authorise bytes_eq
tries_run = refl
