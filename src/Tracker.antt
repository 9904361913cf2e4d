-- ===== src/Tracker.antt =====
-- The tracker, src/server.c: `handshake_handler` for each client, with its authorisation and its
-- loop over the signals of the client, and the thread that checks which peers live. A run is a
-- sequence of whole steps of the threads. No lock guards the two tables, so between the statements
-- of a step another thread may run; such runs are not modelled, nor is what is printed.
pub mod Password
pub mod Connected
pub mod Holders
pub mod Reachable
mod Tests
use networks_dartsync.Base.{
  ℕ, zero, suc, List, [], ◌∷◌, Bool, true, false, Option, none, some, if◌then◌else◌, ◌>>=◌, set,
}
use networks_dartsync.Base.Bytes.{Bytes, bytes_eq}
use networks_dartsync.PeerTable.{
  PeerEntry, peer_table_initial, peer_table_add, peer_table_update_timestamp, peer_table_delete,
  peer_live_check,
}
use networks_dartsync.FileTable.{FileTable, zero_peers}
use networks_dartsync.FileTable.Sync.{sync_from_client}
use networks_dartsync.FileTable.Disconnect.{delete_disconn_peer}

-- MAX_TRY of common/constants.h.
abbrev pub max_try : ℕ
max_try = 3

-- What the client has been told, a `pass` for each try, and the last of them.
pub record Authorisation : Type 0 where
  pub replies : List ℕ
  pub pass : Bool

-- The loop over `get_authorization`, with the passwords that the client sends. A client that sends
-- none leaves the buffer uninitialised: the result is `none`.
unfoldable pub authorise : Bytes → ℕ → List Bytes → Option Authorisation
authorise password zero tries = some (record { replies = []; pass = false })
authorise password (suc n) [] = none
authorise password (suc n) (received ∷ tries) =
    let refused = (do
      a ← authorise password n tries
      some (record a { replies = 0 ∷ a.replies })) in
    if bytes_eq received password then some (record { replies = 1 ∷ []; pass = true }) else refused

-- The two tables, and what has been sent to which socket, the last first.
pub record Tracker : Type 0 where
  pub peers : List PeerEntry
  pub files : FileTable
  pub sent : List (ℕ × FileTable)

-- The tables before the first client, for the tracker's own address.
unfoldable pub tracker_initial : ℕ → Tracker
tracker_initial my_ip = record {
  peers = peer_table_initial;
  files = record {
    head = record {
      size = 0;
      name = [];
      type = 0;
      timestamp = 0;
      num_peers = 0;
      peers = set zero_peers 0 my_ip;
    };
    nodes = [];
  };
  sent = [];
}

-- A signal of a client. A file update brings the table, or none if it could not be received.
pub data Signal : Type 0 where
  heartbeat : (now : ℕ) → Signal
  file_update : Option FileTable → Signal
  unknown : ℕ → Signal

-- `recv_file_table` writes the sender's address into the first node.
unfoldable pub from_sender : ℕ → FileTable → FileTable
from_sender ip table = record table {
  head = record (table.head) { peers = set table.head.peers 0 ip };
}

unfoldable pub address_table : ℕ → Option FileTable → Option FileTable
address_table ip none = none
address_table ip (some table) = some (from_sender ip table)

-- The table goes to every peer of the peer table, in its order.
unfoldable pub broadcast_file_table :
    List PeerEntry → FileTable → List (ℕ × FileTable) → List (ℕ × FileTable)
broadcast_file_table [] files sent = sent
broadcast_file_table (e ∷ peers) files sent =
    broadcast_file_table peers files ((e.sockfd, files) ∷ sent)

-- The body of the loop over the signals.
unfoldable pub handle_signal : ℕ → Signal → Tracker → Option Tracker
handle_signal ip (heartbeat now) t =
    some (record t { peers = peer_table_update_timestamp now ip t.peers })
handle_signal ip (file_update table) t = do
  files ← sync_from_client t.files (address_table ip table)
  some (record t { files = files; sent = broadcast_file_table t.peers files t.sent })
handle_signal ip (unknown state) t = some t

-- A whole step of one of the threads: a client has passed the authorisation, a signal of a client, the
-- end of a client's loop, and a round of `peer_live_handler`.
pub data Event : Type 0 where
  connected : (now ip socket : ℕ) → Event
  signal : (ip : ℕ) → Signal → Event
  disconnected : (ip : ℕ) → Event
  checked : (now : ℕ) → Event

-- The step, if no other thread runs between its statements.
unfoldable pub step : Event → Tracker → Option Tracker
step (connected now ip socket) t = some (record t { peers = peer_table_add now ip socket t.peers })
step (signal ip s) t = handle_signal ip s t
step (disconnected ip) t = do
  files ← delete_disconn_peer ip t.files
  some (record t { peers = peer_table_delete ip t.peers; files = files })
step (checked now) t = some (record t { peers = peer_live_check now t.peers })

-- Whole steps, one behind the other.
unfoldable pub run : List Event → Tracker → Option Tracker
run [] t = some t
run (e ∷ es) t = do t' ← step e t; run es t'
