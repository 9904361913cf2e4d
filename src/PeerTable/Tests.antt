-- ===== src/PeerTable/Tests.antt =====
-- Runs of the peer table, and the theorems at concrete events.
use networks_dartsync.Base.{◌≡◌, refl, none, some, List, [], ◌∷◌, arith}
use networks_dartsync.PeerTable.{
  PeerEntry, peer_table_initial, peer_table_add, peer_table_update_timestamp, peer_table_delete,
  peer_live_check,
}
use networks_dartsync.PeerTable.Lookup.{last_seen}
use networks_dartsync.PeerTable.Alive.{
  Event, joined, heartbeat, left, checked, handle_all, last_seen-handle_all, peer_live_check-silent,
}

abbrev two_peers : List PeerEntry
unfolding peer_table_add
two_peers = peer_table_add 104 8 6 (peer_table_add 100 7 5 peer_table_initial)

abbrev events : List Event
events = checked 111 ∷ heartbeat 111 7 ∷ joined 112 9 8 ∷ left 8 ∷ checked 122 ∷ []

events_run :
    handle_all events two_peers
    ≡ record { ip = 9; last_time_stamp = 112; sockfd = 8 }
      ∷ record { ip = 7; last_time_stamp = 111; sockfd = 5 }
      ∷ []
unfolding handle_all two_peers peer_table_add peer_table_update_timestamp peer_table_delete
    peer_live_check
events_run = refl

last_seen-handle_all_example : last_seen 7 (handle_all events two_peers) ≡ some 111
unfolding last_seen two_peers
last_seen-handle_all_example = last_seen-handle_all 7 100 events two_peers refl (omega arith)

peer_live_check-silent_example : last_seen 7 (peer_live_check 112 two_peers) ≡ none
unfolding two_peers
peer_live_check-silent_example = peer_live_check-silent 112 7 two_peers (ground arith)
