-- ===== src/PeerTable/Lookup.antt =====
-- What the operations of the peer table do to the entry of one address.
use networks_dartsync.Base.{
  ℕ, ◌+◌, ◌≤◌, ◌≡◌, refl, ◌≢◌, Option, none, some, List, [], ◌∷◌, arith, ◌==◌, if◌then◌else◌,
}
use networks_dartsync.PeerTable.{
  PeerEntry, heartbeat_interval_sec, peer_table_add, peer_table_update_timestamp, peer_table_delete,
  peer_live_check,
}

-- The time stamp of the first entry with the address.
unfoldable pub last_seen : ℕ → List PeerEntry → Option ℕ
last_seen ip [] = none
last_seen ip (e ∷ table) = if e.ip == ip then some e.last_time_stamp else last_seen ip table

pub last_seen-peer_table_add :
    (now j socket ip : ℕ) (table : List PeerEntry)
    → last_seen ip (peer_table_add now j socket table)
      ≡ (if j == ip then some now else last_seen ip table)
unfolding last_seen peer_table_add
last_seen-peer_table_add now j socket ip table = refl

pub last_seen-update_self :
    (now ip v : ℕ) (table : List PeerEntry)
    → last_seen ip table ≡ some v
    → last_seen ip (peer_table_update_timestamp now ip table) ≡ some now
unfolding last_seen peer_table_update_timestamp
last_seen-update_self now ip v [] h = cc
last_seen-update_self now ip v (e ∷ table) h = ground (arith, last_seen-update_self now ip v table)

pub last_seen-update_other :
    (now j ip : ℕ) (table : List PeerEntry)
    → j ≢ ip
    → last_seen ip (peer_table_update_timestamp now j table) ≡ last_seen ip table
unfolding last_seen peer_table_update_timestamp
last_seen-update_other now j ip [] h = refl
last_seen-update_other now j ip (e ∷ table) h =
    ground (arith, last_seen-update_other now j ip table h)

-- A heartbeat of an address that is not in the table changes nothing.
pub update-absent :
    (now ip : ℕ) (table : List PeerEntry)
    → last_seen ip table ≡ none
    → peer_table_update_timestamp now ip table ≡ table
unfolding last_seen peer_table_update_timestamp
update-absent now ip [] h = refl
update-absent now ip (e ∷ table) h = ground (arith, update-absent now ip table)

pub last_seen-delete_other :
    (j ip : ℕ) (table : List PeerEntry)
    → j ≢ ip
    → last_seen ip (peer_table_delete j table) ≡ last_seen ip table
unfolding last_seen peer_table_delete
last_seen-delete_other j ip [] h = refl
last_seen-delete_other j ip (e ∷ table) h = ground (arith, last_seen-delete_other j ip table h)

pub last_seen-peer_live_check :
    (now ip v : ℕ) (table : List PeerEntry)
    → last_seen ip table ≡ some v
    → now ≤ v + heartbeat_interval_sec + 1
    → last_seen ip (peer_live_check now table) ≡ some v
unfolding last_seen peer_live_check
last_seen-peer_live_check now ip v [] h fresh = cc
last_seen-peer_live_check now ip v (e ∷ table) h fresh =
    ground (arith, last_seen-peer_live_check now ip v table)
