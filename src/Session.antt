-- ===== src/Session.antt =====
-- What a client says to the tracker after the authorisation, byte by byte: `heartbeat` and
-- `file_checker` of src/client.c send it, and the loop of `handshake_handler` in src/server.c reads
-- it.
pub mod Int
pub mod Asking
pub mod RoundTrip
pub mod Race
mod Tests
use networks_dartsync.Base.{ℕ, zero, suc, List, [], ◌∷◌, ◌++◌, Option, ◌==◌, if◌then◌else◌, length}
use networks_dartsync.Base.Bytes.{Bytes}
use networks_dartsync.FileTable.{FileTable}
use networks_dartsync.Wire.{
  closed, broken, silent, Socket, received, ended, recv, to_bytes, from_bytes,
}
use networks_dartsync.TableMessage.{
  int_size, send_file_table, Outcome, table, blocked, spinning, undefined, recv_file_table,
}

-- SIGNAL_HEARTBEAT and SIGNAL_FILE_UPDATE of utils/network.h.
abbrev pub signal_heartbeat : ℕ
signal_heartbeat = 1

abbrev pub signal_file_update : ℕ
signal_file_update = 2

-- What the threads of the client send: a round of `heartbeat`, and a round of `file_checker` that
-- found an update.
pub data Sending : Type 0 where
  heartbeat : Sending
  file_update : FileTable → Sending

unfoldable pub send_one : Sending → Bytes
send_one heartbeat = to_bytes int_size signal_heartbeat
send_one (file_update t) = to_bytes int_size signal_file_update ++ send_file_table t

unfoldable pub send_all : List Sending → Bytes
send_all [] = []
send_all (m ∷ ms) = send_one m ++ send_all ms

-- What the tracker takes from the connection in a round of its loop.
pub data Message : Type 0 where
  beat : Message
  update : Option FileTable → Message
  unknown : (state : ℕ) → Message

-- How a session ends: the connection does, `recv` waits for ever, `recv_file_table` loops for ever,
-- a call of `recv` left a part of an int uninitialised, or the fuel of the model ran out.
pub data How : Type 0 where
  hung_up waiting endless uninitialised out_of_fuel : How

pub data Round : Type 0 where
  message : Message → Socket → Round
  over : How → Round

abbrev pub of_outcome : Outcome → Round
of_outcome (table t s) = message (update t) s
of_outcome blocked = over waiting
of_outcome spinning = over endless
of_outcome undefined = over uninitialised
of_outcome Outcome.no_fuel = over out_of_fuel

-- The switch over the signal.
unfoldable pub dispatch : ℕ → ℕ → Socket → Round
dispatch ip state s =
    if state == signal_heartbeat
    then message beat s
    else if state == signal_file_update
    then of_outcome (recv_file_table ip s)
    else message (unknown state) s

unfoldable pub read_message : ℕ → Socket → Round
read_message ip s = elim (recv int_size s) [
  | ended silent ↦ over waiting
  | ended closed ↦ over hung_up
  | ended broken ↦ over hung_up
  | received part s' ↦
      if length part == int_size then dispatch ip (from_bytes part) s' else over uninitialised
]

pub record Dialogue : Type 0 where
  pub messages : List Message
  pub how : How

-- The loop. A round that goes on has read a byte at least.
unfoldable pub read_messages : ℕ → ℕ → Socket → Dialogue
read_messages zero ip s = record { messages = []; how = out_of_fuel }
read_messages (suc fuel) ip s = elim (read_message ip s) [
  | over how ↦ record { messages = []; how = how }
  | message m s' ↦
      let rest = read_messages fuel ip s' in record rest { messages = m ∷ rest.messages }
]

unfoldable pub dialogue : ℕ → Socket → Dialogue
dialogue ip s = read_messages (suc (length s.bytes)) ip s
