-- ===== src/Session/Tests.antt =====
-- A short session, and a heartbeat in the wrong place.
use networks_dartsync.Base.{◌≡◌, refl, [], ◌∷◌, ◌++◌, List, some, arith, map}
use networks_dartsync.Base.Bytes.{Bytes}
use networks_dartsync.FileTable.{FileTable, name_in}
use networks_dartsync.FileTable.Peers.{has}
use networks_dartsync.FileTable.Sync.View.{find, find_view}
use networks_dartsync.Wire.{Socket, closed, silent, to_bytes}
use networks_dartsync.TableMessage.{int_size, send_file_table}
use networks_dartsync.TableMessage.Sample.{sent_table, sent_table-IsSendable}
use networks_dartsync.Tracker.{Tracker, Signal, broadcast_file_table, handle_signal}
use networks_dartsync.Tracker.Holders.{Sound}
use networks_dartsync.Session.{
  Sending, heartbeat, send_one, send_all, update, hung_up, dialogue, read_message, message,
  signal_file_update,
}
use networks_dartsync.Session.RoundTrip.{heard, dialogue-heard}
use networks_dartsync.Session.Race.{dropped, update-torn}

abbrev said : List Sending
said = heartbeat ∷ Sending.file_update sent_table ∷ heartbeat ∷ []

abbrev line : Socket
line = record { bytes = send_all said; cuts = 3 ∷ 9 ∷ 1500 ∷ 3 ∷ []; ending = closed }

dialogue-heard_example : dialogue 9 line ≡ record { messages = map (heard 9) said; how = hung_up }
dialogue-heard_example =
    dialogue-heard 9 said line (tt, (sent_table-IsSendable, (tt, tt))) (omega arith) refl refl

-- The tracker knows that the client 7 has `d/a`.
abbrev tracker : Tracker
tracker = record { peers = []; files = sent_table; sent = [] }

tracker-Sound : Sound (7 ∷ []) tracker
unfolding name_in has find
tracker-Sound = record {
  files_valid = record {
    nodes_valid = (record { size = refl; within = omega arith; distinct = (refl, tt) }, tt);
    unique = (refl, tt);
  };
  holders_known = λ name s got j h. ground arith;
  few = omega arith;
}

abbrev torn_line : Socket
torn_line = record {
  bytes =
      to_bytes int_size signal_file_update
      ++ (send_one heartbeat ++ (send_file_table sent_table ++ []));
  cuts = [];
  ending = silent;
}

update-torn_example :
    (read_table after : FileTable) × (s' : Socket) × (read_message 7 torn_line
      ≡ message (update (some read_table)) s')
    × (handle_signal 7 (Signal.file_update (some read_table)) tracker
        ≡ some (record tracker {
          files = after;
          sent = broadcast_file_table tracker.peers after tracker.sent;
        }))
    × ((name : Bytes) → find_view name after.nodes ≡ dropped 7 (find name tracker.files.nodes))
update-torn_example =
    update-torn 7 (7 ∷ []) sent_table [] torn_line tracker sent_table-IsSendable tt refl
      tracker-Sound
