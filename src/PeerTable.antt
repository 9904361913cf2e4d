-- ===== src/PeerTable.antt =====
-- The tracker's table of connected peers: utils/tracker_peer_table.c. The C list hangs behind a
-- dummy first node, which holds no peer; the model is the list of the nodes behind it. The clock,
-- `time()`, is an argument.
pub mod Lookup
pub mod Alive
mod Tests
use networks_dartsync.Base.{ℕ, ◌+◌, ◌-◌, List, [], ◌∷◌, ltb, ◌==◌, if◌then◌else◌}

pub record PeerEntry : Type 0 where
  pub ip : ℕ
  pub last_time_stamp : ℕ
  pub sockfd : ℕ

-- HEARTBEAT_INTERVAL_SEC of utils/network.h.
abbrev pub heartbeat_interval_sec : ℕ
heartbeat_interval_sec = 10

abbrev pub peer_table_initial : List PeerEntry
peer_table_initial = []

unfoldable pub peer_table_add : ℕ → ℕ → ℕ → List PeerEntry → List PeerEntry
peer_table_add now ip socket table =
    record { ip = ip; last_time_stamp = now; sockfd = socket } ∷ table

-- The first entry with the address is stamped.
unfoldable pub peer_table_update_timestamp : ℕ → ℕ → List PeerEntry → List PeerEntry
peer_table_update_timestamp now ip [] = []
peer_table_update_timestamp now ip (e ∷ table) =
    let rest = peer_table_update_timestamp now ip table in
    if e.ip == ip then record e { last_time_stamp = now } ∷ table else e ∷ rest

-- The first entry with the address is unlinked.
unfoldable pub peer_table_delete : ℕ → List PeerEntry → List PeerEntry
peer_table_delete ip [] = []
peer_table_delete ip (e ∷ table) =
    let rest = peer_table_delete ip table in if e.ip == ip then table else e ∷ rest

-- In C the difference is signed: a clock that was set back gives a negative number, which is not
-- above the limit, and neither is the 0 that `-` gives here.
unfoldable pub peer_live_check : ℕ → List PeerEntry → List PeerEntry
peer_live_check now [] = []
peer_live_check now (e ∷ table) =
    let rest = peer_live_check now table in
    if ltb (heartbeat_interval_sec + 1) (now - e.last_time_stamp) then rest else e ∷ rest
