-- ===== src/Tracker/Reachable.antt =====
-- The states that the tracker reaches by whole steps of its threads, one behind the other.
use mathlib.Core.Bool.{false≢true}
use mathlib.Core.Path.{subst}
use networks_dartsync.Base.{
  ℕ, suc, ◌<◌, ◌⊎◌, All, ◌≡◌, refl, sym, List, [], ◌∷◌, true, false, none, some, arith, get_or, set,
  length,
}
use networks_dartsync.PeerTable.{peer_table_add, peer_table_delete}
use networks_dartsync.FileTable.{FileTable, FileNode, max_peers, file_type, folder_type}
use networks_dartsync.FileTable.Peers.{has}
use networks_dartsync.FileTable.Sync.View.{find, IsClientTable}
use networks_dartsync.FileTable.Sync.Refine.{Takeover, sync_from_client-synced}
use networks_dartsync.FileTable.Disconnect.Laws.{delete_disconn_peer-AllReleased}
use networks_dartsync.Tracker.{
  Tracker, tracker_initial, Signal, heartbeat, file_update, unknown, from_sender, address_table,
  broadcast_file_table, handle_signal, Event, connected, signal, disconnected, checked, step, run,
}
use networks_dartsync.Tracker.Connected.{without, length-without}
use networks_dartsync.Tracker.Holders.{Known, Sound, Sound-AllRoom, Takeover-Known, released-Known}

-- What `file_table_print` looks up in `file_type_string`.
abbrev pub IsPrinted : FileNode → Type 0
IsPrinted s = (s.type ≡ file_type) ⊎ (s.type ≡ folder_type)

-- A signal that brings a file table has received it, and the table is one of a client, of files and
-- folders.
abbrev pub Readable : Signal → Type 0
Readable (heartbeat now) = Unit
Readable (file_update none) = (true ≡ false)
Readable (file_update (some table)) =
    IsClientTable table.nodes × (0 < length table.head.peers) × All IsPrinted table.nodes
Readable (unknown state) = Unit

-- The events of clients that send signals and disconnect while they are connected, and are fewer
-- than the array of peers has room for, from the addresses of the connected clients.
abbrev pub Orderly : List ℕ → List Event → Type 0
Orderly ips [] = Unit
Orderly ips (connected now ip socket ∷ es) = (suc (length ips) < max_peers) × Orderly (ip ∷ ips) es
Orderly ips (signal ip s ∷ es) = (has ip ips ≡ true) × Readable s × Orderly ips es
Orderly ips (disconnected ip ∷ es) = (has ip ips ≡ true) × Orderly (without ip ips) es
Orderly ips (checked now ∷ es) = Orderly ips es

abbrev pub connected_after : List ℕ → List Event → List ℕ
connected_after ips [] = ips
connected_after ips (connected now ip socket ∷ es) = connected_after (ip ∷ ips) es
connected_after ips (signal ip s ∷ es) = connected_after ips es
connected_after ips (disconnected ip ∷ es) = connected_after (without ip ips) es
connected_after ips (checked now ∷ es) = connected_after ips es

pub get-set_first : (ip : ℕ) (xs : List ℕ) → 0 < length xs → get_or (set xs 0 ip) 0 0 ≡ ip
get-set_first ip [] h = absurd (omega arith)
get-set_first ip (x ∷ xs) h = refl

pub file_update-Takeover :
    (ip : ℕ) (ips : List ℕ) (table : FileTable) (t : Tracker)
    → IsClientTable table.nodes
    → 0 < length table.head.peers
    → Sound ips t
    → (after : FileTable) × (handle_signal ip (file_update (some table)) t
        ≡ some (record t { files = after; sent = broadcast_file_table t.peers after t.sent }))
      × Takeover ip t.files (from_sender ip table) after
unfolding handle_signal address_table from_sender
file_update-Takeover ip ips table t readable room v =
    let (after, took) =
      sync_from_client-synced t.files (from_sender ip table) v.files_valid (Sound-AllRoom ips t v)
        readable in
    let e : get_or (from_sender ip table).head.peers 0 0 ≡ ip =
      get-set_first ip table.head.peers room in
    let took' : Takeover ip t.files (from_sender ip table) after =
      subst (λ i. Takeover i t.files (from_sender ip table) after) e took in
    (after, rw took'.result refl, took')

file_update-Sound :
    (ip : ℕ) (ips : List ℕ) (table : FileTable) (t : Tracker)
    → has ip ips ≡ true
    → IsClientTable table.nodes
    → 0 < length table.head.peers
    → Sound ips t
    → (t' : Tracker) × (handle_signal ip (file_update (some table)) t ≡ some t') × Sound ips t'
file_update-Sound ip ips table t here readable room v =
    let (after, done, took) = file_update-Takeover ip ips table t readable room v in
    (
      record t { files = after; sent = broadcast_file_table t.peers after t.sent },
      done,
      record {
        files_valid = took.valid;
        holders_known =
            Takeover-Known ip ips t.files (from_sender ip table) after here v.holders_known took;
        few = v.few;
      },
    )

disconnected-Sound :
    (ip : ℕ) (ips : List ℕ) (t : Tracker)
    → has ip ips ≡ true
    → Sound ips t
    → (t' : Tracker) × (step (disconnected ip) t ≡ some t') × Sound (without ip ips) t'
unfolding step
disconnected-Sound ip ips t here v =
    let (after, e, valid, rs) = delete_disconn_peer-AllReleased ip t.files v.files_valid in
    (
      record t { peers = peer_table_delete ip t.peers; files = after },
      rw e refl,
      record {
        files_valid = valid;
        holders_known = released-Known ip ips t.files.nodes after.nodes v.holders_known rs;
        few = omega (arith, length-without ip ips here, v.few);
      },
    )

step-Sound :
    (e : Event) (ips : List ℕ) (es : List Event) (t : Tracker)
    → Orderly ips (e ∷ es)
    → Sound ips t
    → (ips' : List ℕ) × (t' : Tracker) × (step e t ≡ some t')
      × Sound ips' t'
      × Orderly ips' es
      × (connected_after ips (e ∷ es) ≡ connected_after ips' es)
unfolding step handle_signal has
step-Sound (connected now ip socket) ips es t (few, o) v =
    let known : Known (ip ∷ ips) t.files.nodes =
      λ name s got j h. let k = v.holders_known name s got j h in ground arith in
    (
      ip ∷ ips,
      record t { peers = peer_table_add now ip socket t.peers },
      refl,
      record { files_valid = v.files_valid; holders_known = known; few = few },
      o,
      refl,
    )
step-Sound (signal ip (heartbeat now)) ips es t (here, _, o) v = (
  ips,
  _,
  refl,
  record { files_valid = v.files_valid; holders_known = v.holders_known; few = v.few },
  o,
  refl,
)
step-Sound (signal ip (file_update none)) ips es t (here, bad, o) v = absurd (false≢true (sym bad))
step-Sound (signal ip (file_update (some table))) ips es t (here, (readable, room, _), o) v =
    let (t', e, v') = file_update-Sound ip ips table t here readable room v in
    (ips, t', e, v', o, refl)
step-Sound (signal ip (unknown state)) ips es t (here, _, o) v = (ips, t, refl, v, o, refl)
step-Sound (disconnected ip) ips es t (here, o) v =
    let (t', e, v') = disconnected-Sound ip ips t here v in (without ip ips, t', e, v', o, refl)
step-Sound (checked now) ips es t o v = (
  ips,
  _,
  refl,
  record { files_valid = v.files_valid; holders_known = v.holders_known; few = v.few },
  o,
  refl,
)

pub run-Sound :
    (ips : List ℕ) (es : List Event) (t : Tracker)
    → Orderly ips es
    → Sound ips t
    → (t' : Tracker) × (run es t ≡ some t') × Sound (connected_after ips es) t'
unfolding run
run-Sound ips [] t o v = (t, refl, v)
run-Sound ips (e ∷ es) t o v =
    let (ips', t', r, v', o', c) = step-Sound e ips es t o v in
    let (t2, r2, v2) = run-Sound ips' es t' o' v' in (t2, rw r r2, rw c v2)

tracker_initial-Sound : (my_ip : ℕ) → Sound [] (tracker_initial my_ip)
unfolding tracker_initial find
tracker_initial-Sound my_ip = record {
  files_valid = record { nodes_valid = tt; unique = tt };
  holders_known = λ name s got. absurd (cc);
  few = omega arith;
}

-- From its start the tracker goes through any sequence of whole steps of its threads, as long as no
-- thread runs between the statements of another one's step, and the file table is never accessed
-- out of bounds, where fewer than 200 clients are connected at a time and each table that arrives is
-- one of a client, of files and folders. Behind them the file table is well formed, and lists
-- connected clients only.
pub run-tracker_initial :
    (my_ip : ℕ) (es : List Event)
    → Orderly [] es
    → (t : Tracker) × (run es (tracker_initial my_ip) ≡ some t) × Sound (connected_after [] es) t
run-tracker_initial my_ip es o =
    run-Sound [] es (tracker_initial my_ip) o (tracker_initial-Sound my_ip)
