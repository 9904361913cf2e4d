-- ===== src/Greeting.antt =====
-- What the tracker sends to a client before and with its tables, and how a client begins with it:
-- `main` and `handshake_handler` of src/server.c, and `main` and `get_authorization` of src/client.c.
pub mod Answers
pub mod Welcome
mod Tests
use networks_dartsync.Base.{
  ℕ, zero, suc, ◌-◌, List, [], ◌∷◌, ◌++◌, Bool, true, false, Option, none, some, ltb, ◌==◌,
  if◌then◌else◌, ◌>>=◌, length, replicate,
}
use networks_dartsync.Base.Bytes.{Bytes, codes}
use networks_dartsync.FileTable.{FileNode, FileTable}
use networks_dartsync.Wire.{Socket, received, ended, recv, to_bytes, from_bytes}
use networks_dartsync.TableMessage.{int_size, c_string, send_file_table}
use networks_dartsync.LocalSync.{Action, Monitor}
use networks_dartsync.Tracker.{Authorisation, max_try}
use networks_dartsync.Client.{Login, send_password, Handler, tracker_handler}
use networks_dartsync.Client.Tables.{send_tables}

abbrev pub max_dir_len : ℕ
max_dir_len = 100

abbrev pub default_dir : Bytes
default_dir = codes "dartsync"

-- The name of the directory: the line that `fscanf` has read, or, if it has read nothing, the default.
abbrev pub directory_name : Option Bytes → Bytes
directory_name none = default_dir
directory_name (some line) = line

-- The array `directory` of the tracker. A line that overruns it is undefined.
unfoldable pub directory_array : Option Bytes → Option Bytes
directory_array line =
    let name = directory_name line in
    if ltb (length name) max_dir_len
    then some (name ++ replicate (max_dir_len - length name) 0)
    else none

unfoldable pub send_replies : List ℕ → Bytes
send_replies [] = []
send_replies (reply ∷ replies) = to_bytes int_size reply ++ send_replies replies

-- What the tracker sends on the connection: an answer for each password, and to a client that is let
-- in the array, and then the tables that it broadcasts.
unfoldable pub tracker_sends : Authorisation → Bytes → List FileTable → Bytes
tracker_sends a directory tables =
    send_replies a.replies ++ (if a.pass then directory ++ send_tables tables else [])

-- The answer that `get_authorization` reads. Without a whole one, `result` is not initialised.
unfoldable pub read_result : Socket → Option (ℕ × Socket)
read_result s = elim (recv int_size s) [
  | ended e ↦ none
  | received part s' ↦ if length part == int_size then some (from_bytes part, s') else none
]

-- The loop over `get_authorization`, with the passwords that the user types.
unfoldable pub login_on : ℕ → List Bytes → Socket → Option (Login × Socket)
login_on zero typed s = some (record { sent = []; pass = false }, s)
login_on (suc n) [] s = none
login_on (suc n) (password ∷ typed) s = do
  (result, s') ← read_result s
  let again = (do
    (l, s2) ← login_on n typed s'
    some (record l { sent = send_password password ++ l.sent }, s2))
  if result == 0 then again else some (record { sent = send_password password; pass = true }, s')

-- One call of `recv` fills the array `directory` of the client, which was zero.
unfoldable pub receive_directory : Socket → Bytes × Socket
receive_directory s = elim (recv max_dir_len s) [
  | ended e ↦ ([], s)
  | received part s' ↦ (c_string (part ++ replicate (max_dir_len - length part) 0), s')
]

-- The outcome of the authorisation, and, for a client that was let in, the name of its directory and
-- what `tracker_handler` does.
pub record Started : Type 0 where
  pub login : Login
  pub running : Option (Bytes × Handler)

unfoldable pub start_client :
    List Bytes → ℕ → (List Action → List FileNode) → Socket → Monitor → Option Started
start_client typed my_ip scan s m = do
  (l, s1) ← login_on max_try typed s
  let (directory, s2) = receive_directory s1
  some (record {
    login = l;
    running = if l.pass then some (directory, tracker_handler my_ip scan s2 m) else none;
  })
