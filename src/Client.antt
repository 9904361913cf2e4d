-- ===== src/Client.antt =====
-- The client, src/client.c: its side of the authorisation, and the rounds of its threads.
pub mod Agreement
pub mod Whole
pub mod Heartbeats
pub mod Checker
pub mod Tables
mod Tests
use networks_dartsync.Base.{
  ℕ, zero, suc, ◌+◌, List, [], ◌∷◌, ◌++◌, Bool, true, false, Option, none, some, ◌==◌,
  if◌then◌else◌, ◌>>=◌, length,
}
use networks_dartsync.Base.Bytes.{Bytes}
use networks_dartsync.FileTable.{FileNode}
use networks_dartsync.PeerTable.{heartbeat_interval_sec}
use networks_dartsync.Wire.{Socket, to_bytes}
use networks_dartsync.TableMessage.{
  int_size, Outcome, table, blocked, spinning, undefined, recv_file_table,
}
use networks_dartsync.LocalSync.{Action, Monitor, sync_with_server}
use networks_dartsync.Scan.{Root, file_table_update}
use networks_dartsync.Session.{Sending, file_update}

-- What `get_authorization` sends: the length of the password, and the password with its NUL.
unfoldable pub send_password : Bytes → Bytes
send_password password = to_bytes int_size (length password) ++ (password ++ 0 ∷ [])

-- What has been sent, and whether the client was let in.
pub record Login : Type 0 where
  pub sent : Bytes
  pub pass : Bool

-- The loop over `get_authorization`, with the passwords that the user types and the answers of the
-- tracker. Without an answer the result stays uninitialised: `none`.
unfoldable pub login : ℕ → List Bytes → List ℕ → Option Login
login zero typed answers = some (record { sent = []; pass = false })
login (suc n) [] answers = none
login (suc n) (password ∷ typed) [] = none
login (suc n) (password ∷ typed) (answer ∷ answers) =
    let again = (do
      l ← login n typed answers
      some (record l { sent = send_password password ++ l.sent })) in
    if answer == 0 then again else some (record { sent = send_password password; pass = true })

-- When `heartbeat` sends: each round sleeps for the interval, and may be late.
unfoldable pub heartbeat_times : ℕ → List ℕ → List ℕ
heartbeat_times now [] = now ∷ []
heartbeat_times now (late ∷ rounds) =
    now ∷ heartbeat_times (now + heartbeat_interval_sec + late) rounds

-- A round of `file_checker`: the monitor behind it, and what it sends.
pub record Checked : Type 0 where
  pub monitor : Monitor
  pub sending : List Sending

unfoldable pub check_files : ℕ → ℕ → Bytes → Root → Monitor → Option Checked
check_files now my_ip name root m = do
  (updated, m') ← file_table_update now my_ip name root m
  some (record { monitor = m'; sending = if updated then file_update m'.table ∷ [] else [] })

-- How `tracker_handler` ends: a table could not be received, and it clears `main_thread_alive`; or
-- it waits or loops in `recv_file_table` for ever.
pub data Handled : Type 0 where
  stopped stuck uninitialised out_of_fuel : Handled

-- What `tracker_handler` has done to the directory, the monitor behind it, and how it ended.
pub record Handler : Type 0 where
  pub actions : List (List Action)
  pub monitor : Monitor
  pub how : Handled

-- `tracker_handler` while `main_thread_alive` is 1. `directory` is what a scan finds after the
-- actions of a round.
unfoldable pub handle_tables : ℕ → ℕ → (List Action → List FileNode) → Socket → Monitor → Handler
handle_tables zero ip directory s m = record { actions = []; monitor = m; how = out_of_fuel }
handle_tables (suc fuel) ip directory s m = elim (recv_file_table ip s) [
  | blocked ↦ record { actions = []; monitor = m; how = stuck }
  | spinning ↦ record { actions = []; monitor = m; how = stuck }
  | undefined ↦ record { actions = []; monitor = m; how = uninitialised }
  | Outcome.no_fuel ↦ record { actions = []; monitor = m; how = out_of_fuel }
  | table none s' ↦ record { actions = []; monitor = m; how = stopped }
  | table (some t) s' ↦
      let done = sync_with_server directory t m in
      let rest = handle_tables fuel ip directory s' done.monitor in
      record rest { actions = done.actions ∷ rest.actions }
]

-- A table takes a byte at least.
unfoldable pub tracker_handler : ℕ → (List Action → List FileNode) → Socket → Monitor → Handler
tracker_handler ip directory s m = handle_tables (suc (length s.bytes)) ip directory s m
