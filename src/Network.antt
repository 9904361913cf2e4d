-- ===== src/Network.antt =====
-- The sockets of utils/network.c, and the search for a port in `handshake_handler` of src/server.c.
-- The calls of the operating system are a parameter; the state is the list of open descriptors.
pub mod Ports
mod Tests
use networks_dartsync.Base.{
  ℕ, zero, suc, ◌+◌, ◌%◌, ◌^◌, List, ◌∷◌, Bool, Option, none, some, if◌then◌else◌,
}
use networks_dartsync.Base.Bytes.{Bytes}

-- Which calls succeed. `socket` depends on the descriptors that are open, `inet_ntoa` and
-- `inet_aton` write and read an address.
pub record Calls : Type 0 where
  pub socket : List ℕ → Option ℕ
  pub setsockopt : ℕ → Bool
  pub bind : (fd port : ℕ) → Bool
  pub listen : ℕ → Bool
  pub connect : (fd ip port : ℕ) → Bool
  pub gethostbyname : Bytes → Option ℕ
  pub inet_ntoa : ℕ → Bytes
  pub inet_aton : Bytes → Option ℕ

-- What a function returns, `none` for -1, and the descriptors that are open behind it.
pub record Opened : Type 0 where
  pub result : Option ℕ
  pub fds : List ℕ

abbrev pub failed : List ℕ → Opened
failed fds = record { result = none; fds = fds }

abbrev pub opened : ℕ → List ℕ → Opened
opened fd fds = record { result = some fd; fds = fds }

-- `htons` keeps 16 bits.
abbrev pub port_bits : ℕ → ℕ
port_bits port = port % 2 ^ 16

-- A socket that cannot be bound is not closed.
unfoldable pub create_server_socket : Calls → ℕ → List ℕ → Opened
create_server_socket os server_port fds = elim (os.socket fds) [
  | none ↦ failed fds
  | some fd ↦
      let now = fd ∷ fds in
      if os.setsockopt fd
      then (if os.bind fd (port_bits server_port)
          then (if os.listen fd then opened fd now else failed now)
          else failed now)
      else failed now
]

-- The end of both functions that connect, for the address that `inet_aton` reads.
unfoldable pub connect_to : Calls → ℕ → ℕ → List ℕ → Option ℕ → Opened
connect_to os fd server_port now none = failed now
connect_to os fd server_port now (some ip) =
    if os.connect fd ip (port_bits server_port) then opened fd now else failed now

unfoldable pub create_client_socket_by_ip : Calls → ℕ → ℕ → List ℕ → Opened
create_client_socket_by_ip os server_ip server_port fds = elim (os.socket fds) [
  | none ↦ failed fds
  | some fd ↦
      let now = fd ∷ fds in
      let address = os.inet_aton (os.inet_ntoa (server_ip % 2 ^ 32)) in
      if os.bind fd 0 then connect_to os fd server_port now address else failed now
]

unfoldable pub create_client_socket : Calls → Bytes → ℕ → List ℕ → Opened
create_client_socket os host_name server_port fds = elim (os.socket fds) [
  | none ↦ failed fds
  | some fd ↦
      let now = fd ∷ fds in
      let connected = elim (os.gethostbyname host_name) as (λ _. Opened) [
        | none ↦ failed now
        | some ip ↦ connect_to os fd server_port now (os.inet_aton (os.inet_ntoa ip))
      ] in
      if os.bind fd 0 then connected else failed now
]

-- The port that is sent to the client, with its socket.
pub record Found : Type 0 where
  pub server_handshake_port : ℕ
  pub server_handshake_socket : ℕ
  pub fds : List ℕ

-- The test of the loop: the socket that has been made, or what the later rounds find.
abbrev pub found_or : ℕ → Opened → Option Found → Option Found
found_or port o later = elim o.result [
  | none ↦ later
  | some fd ↦
      some (record { server_handshake_port = port; server_handshake_socket = fd; fds = o.fds })
]

-- `while ((server_handshake_socket = create_server_socket(server_handshake_port)) < 0)`. There is no
-- result while the search goes on.
unfoldable pub find_port : ℕ → Calls → ℕ → List ℕ → Option Found
find_port zero os port fds = none
find_port (suc fuel) os port fds =
    let o = create_server_socket os port fds in found_or port o (find_port fuel os (port + 1) o.fds)
