-- ===== src/Client/Tests.antt =====
-- The client's threads at concrete inputs.
use networks_dartsync.Base.{◌≡◌, refl, [], ◌∷◌, ◌++◌, List, some, true, arith, take}
use networks_dartsync.Base.Bytes.{Bytes, codes, bytes_eq}
use networks_dartsync.PeerTable.{PeerEntry}
use networks_dartsync.PeerTable.Lookup.{last_seen}
use networks_dartsync.PeerTable.Alive.{checked, joined, handle_all}
use networks_dartsync.FileTable.{FileNode, name_in}
use networks_dartsync.FileTable.Peers.{has}
use networks_dartsync.FileTable.Sync.View.{find}
use networks_dartsync.LocalSync.{Action, Monitor}
use networks_dartsync.Scan.{end, file, Directory, record_of}
use networks_dartsync.Scan.Listed.{listed}
use networks_dartsync.Scan.Names.{sibling}
use networks_dartsync.Scan.Unique.{client_table}
use networks_dartsync.Wire.{Socket, closed}
use networks_dartsync.TableMessage.{send_file_table}
use networks_dartsync.TableMessage.Sample.{row, sent_table, sent_table-IsSendable}
use networks_dartsync.Tracker.{Tracker}
use networks_dartsync.Tracker.Holders.{Sound}
use networks_dartsync.Session.{heartbeat, file_update, send_all}
use networks_dartsync.Client.{heartbeat_times, stopped, stuck, tracker_handler}
use networks_dartsync.Client.Agreement.{Agreed, send_passwords, tried, login-authorise_on}
use networks_dartsync.Client.Whole.{said}
use networks_dartsync.Client.Heartbeats.{Beat, arrivals, last_arrival, last_seen-heartbeats}
use networks_dartsync.Client.Checker.{CanWatch, Published, check_files-Published}
use networks_dartsync.Client.Tables.{
  send_tables, take_over, length-send_file_table_room, tracker_handler-take_over,
}

-- A wrong password, the right one, and one that is not asked for.
abbrev typed : List Bytes
typed = codes "no" ∷ codes "yes" ∷ codes "so" ∷ []

abbrev knock : Socket
unfolding send_passwords
knock = record {
  bytes = send_passwords (tried (codes "yes") 3 typed) ++ (1 ∷ 0 ∷ 0 ∷ 0 ∷ []);
  cuts = 3 ∷ 5 ∷ 99 ∷ [];
  ending = closed;
}

login-authorise_on_example : Agreed 4 (codes "yes") 3 typed (1 ∷ 0 ∷ 0 ∷ 0 ∷ []) knock
unfolding has knock
login-authorise_on_example =
    login-authorise_on 4 (codes "yes") 3 typed (1 ∷ 0 ∷ 0 ∷ 0 ∷ []) knock (omega arith)
      (omega arith) (omega arith)
      ((refl, omega arith), ((refl, omega arith), ((refl, omega arith), tt)))
      (omega arith, (omega arith, (omega arith, tt))) refl

-- Two heartbeats of the client 7, the second a second late.
abbrev beats : List Beat
beats =
    record { before = joined 100 8 5 ∷ checked 100 ∷ []; transit = 0 }
    ∷ record { before = checked 105 ∷ checked 111 ∷ []; transit = 0 }
    ∷ []

abbrev present : List PeerEntry
present = record { ip = 7; last_time_stamp = 95; sockfd = 4 } ∷ []

last_seen-heartbeats_example :
    last_seen 7 (handle_all (arrivals 7 (heartbeat_times 100 (1 ∷ [])) beats) present)
    ≡ some (last_arrival 95 (heartbeat_times 100 (1 ∷ [])) beats)
unfolding heartbeat_times last_seen
last_seen-heartbeats_example =
    last_seen-heartbeats 7 1 0 95 100 (1 ∷ []) beats present (omega arith) (omega arith)
      (omega arith) ((omega arith, (omega arith, tt)), ((omega arith, (omega arith, tt)), tt))
      (omega arith) refl

abbrev watched : Directory
watched = record { mtime = 40; entries = file (codes "a") 70 2 end }

abbrev before : Monitor
unfolding record_of
before = record {
  table = record { head = record_of 7 [] 0 0 0; nodes = [] };
  last_table_update_time = 65;
  update_enable = true;
}

abbrev tracker : Tracker
tracker = record { peers = []; files = record { head = row [] 0; nodes = [] }; sent = [] }

tracker-Sound : Sound (7 ∷ []) tracker
unfolding name_in has find
tracker-Sound = record {
  files_valid = record { nodes_valid = tt; unique = tt };
  holders_known = λ name s got j h. ground arith;
  few = omega arith;
}

watched-CanWatch : CanWatch 7 (codes "d") watched
unfolding has sibling bytes_eq listed
watched-CanWatch = record {
  address = omega arith;
  plain = refl;
  fits = omega arith;
  tidy = (refl, refl, tt);
  says = (refl, omega arith, tt);
  few = omega arith;
}

abbrev heard_line : Socket
unfolding listed record_of
heard_line = record {
  bytes =
      send_all
        (file_update (client_table 7 (listed 7 (codes "d") watched.entries)) ∷ heartbeat ∷ []);
  cuts = [];
  ending = closed;
}

check_files-Published_example :
    Published 100 7 (codes "d") watched before (heartbeat ∷ []) heard_line tracker
unfolding listed record_of
check_files-Published_example =
    check_files-Published 100 7 (codes "d") watched before (heartbeat ∷ []) (7 ∷ []) heard_line
      tracker refl (omega arith) watched-CanWatch refl (tt, tt) tt refl refl tracker-Sound

abbrev whole_line : Socket
unfolding send_tables
whole_line = record {
  bytes = send_tables (sent_table ∷ sent_table ∷ []);
  cuts = 99 ∷ [];
  ending = closed;
}

abbrev cut_line : Socket
unfolding send_tables
cut_line = record {
  bytes = send_tables (sent_table ∷ sent_table ∷ []) ++ take 100 (send_file_table sent_table);
  cuts = [];
  ending = closed;
}

abbrev scanned : List Action → List FileNode
scanned actions = []

tracker_handler-take_over_example :
    (tracker_handler 9 scanned whole_line before
      ≡ take_over 9 scanned (sent_table ∷ sent_table ∷ []) stopped before)
    × (tracker_handler 9 scanned cut_line before
        ≡ take_over 9 scanned (sent_table ∷ sent_table ∷ []) stuck before)
unfolding whole_line cut_line
tracker_handler-take_over_example =
    tracker_handler-take_over 9 scanned (sent_table ∷ sent_table ∷ []) sent_table 100 whole_line
      cut_line before (sent_table-IsSendable, (sent_table-IsSendable, tt)) sent_table-IsSendable
      (omega arith) (omega (arith, length-send_file_table_room sent_table sent_table-IsSendable))
      (omega arith, tt) tt refl refl refl refl

abbrev visit : Socket
unfolding send_passwords
visit = record {
  bytes = said (codes "yes") typed (heartbeat ∷ file_update sent_table ∷ []);
  cuts = 3 ∷ 5 ∷ 99 ∷ [];
  ending = closed;
}
