-- ===== src/Greeting/Tests.antt =====
-- A client that is let in at its second try.
use networks_dartsync.Base.{
  ◌++◌, replicate, ◌≡◌, refl, [], ◌∷◌, List, some, none, true, arith, if◌then◌else◌,
}
use networks_dartsync.Base.Bytes.{Bytes, codes, bytes_eq}
use networks_dartsync.FileTable.Peers.{has}
use networks_dartsync.FileTable.{FileNode}
use networks_dartsync.LocalSync.{Action, Monitor}
use networks_dartsync.Wire.{Socket, closed}
use networks_dartsync.TableMessage.Sample.{sent_table, sent_table-IsSendable}
use networks_dartsync.Tracker.{Authorisation, max_try, authorise}
use networks_dartsync.Client.{Login, login, stopped}
use networks_dartsync.Client.Tables.{take_over}
use networks_dartsync.Greeting.{directory_name, directory_array, tracker_sends, start_client}
use networks_dartsync.Greeting.Welcome.{start_client-welcome}

abbrev typed : List Bytes
typed = codes "no" ∷ codes "yes" ∷ codes "so" ∷ []

abbrev admission : Authorisation
admission = record { replies = 0 ∷ 1 ∷ []; pass = true }

admission_run : authorise (codes "yes") max_try typed ≡ some admission
unfolding authorise bytes_eq
admission_run = refl

-- The default directory.
abbrev directory : Bytes
directory = codes "dartsync" ++ replicate 92 0

abbrev line : Socket
unfolding tracker_sends
line = record {
  bytes = tracker_sends admission directory (sent_table ∷ []);
  cuts = 120 ∷ 99 ∷ [];
  ending = closed;
}

abbrev scanned : List Action → List FileNode
scanned actions = []

abbrev before : Monitor
before = record { table = sent_table; last_table_update_time = 0; update_enable = true }

start_client-welcome_example :
    (l : Login) × (login max_try typed admission.replies ≡ some l)
    × (l.pass ≡ admission.pass)
    × (start_client typed 9 scanned line before
        ≡ some (record {
          login = l;
          running =
              if admission.pass
              then some (directory_name none, take_over 9 scanned (sent_table ∷ []) stopped before)
              else none;
        }))
unfolding line directory_array has
start_client-welcome_example =
    start_client-welcome (codes "yes") typed none directory (sent_table ∷ []) admission 9 scanned
      line before admission_run refl refl (sent_table-IsSendable, tt)
      (omega arith, (omega arith, tt)) refl refl
