-- ===== src/Session/Asking.antt =====
-- `get_authorization` of src/server.c, byte by byte, the loop over it in `handshake_handler`, and the
-- whole of that function on its connection.
use networks_dartsync.Base.{
  ℕ, zero, suc, ◌^◌, [], ◌∷◌, Bool, true, false, Option, none, some, ◌==◌, ltb, ◌&&◌, if◌then◌else◌,
  ◌>>=◌, length,
}
use networks_dartsync.Base.Bytes.{Bytes, bytes_eq}
use networks_dartsync.FileTable.Peers.{has}
use networks_dartsync.Wire.{Socket, received, ended, recv, from_bytes}
use networks_dartsync.TableMessage.{int_size, c_string}
use networks_dartsync.Tracker.{Authorisation, max_try}
use networks_dartsync.Session.{Dialogue, dialogue}

-- `strcmp` of what was received with the password. Where the bytes that were received hold no
-- string, it reads memory that nothing has set.
unfoldable pub compare : Bytes → Bytes → Option Bool
compare password part = if has 0 part then some (bytes_eq (c_string part) password) else none

-- The read of the password itself. `none`: `recv` waits for ever, or what it left unset is read.
unfoldable pub read_password : Bytes → ℕ → Socket → Option (Bool × Socket)
read_password password room s = elim (recv room s) [
  | ended e ↦ none
  | received password_received s' ↦ (do
    right ← compare password password_received
    some (right, s'))
]

-- An array whose length is no positive int is undefined.
unfoldable pub get_authorization : Bytes → Socket → Option (Bool × Socket)
get_authorization password s = elim (recv int_size s) [
  | ended e ↦ none
  | received part s' ↦
      let room = suc (from_bytes part) in
      if length part == int_size && ltb room (2 ^ 31) then read_password password room s' else none
]

-- The loop: the answers that are sent, and the connection behind it.
unfoldable pub authorise_on : Bytes → ℕ → Socket → Option (Authorisation × Socket)
authorise_on password zero s = some (record { replies = []; pass = false }, s)
authorise_on password (suc n) s = do
  (right, s') ← get_authorization password s
  let again = (do
    (a, s2) ← authorise_on password n s'
    some (record a { replies = 0 ∷ a.replies }, s2))
  if right then some (record { replies = 1 ∷ []; pass = true }, s') else again

-- What the tracker has of a connection: the authorisation, and what it hears from a client that is let
-- in.
pub record Handshake : Type 0 where
  pub admission : Authorisation
  pub heard : Option Dialogue

-- `handshake_handler` on the connection that it has accepted.
unfoldable pub handshake_handler : Bytes → ℕ → Socket → Option Handshake
handshake_handler password client_ip s = do
  (a, s') ← authorise_on password max_try s
  some (record { admission = a; heard = if a.pass then some (dialogue client_ip s') else none })
