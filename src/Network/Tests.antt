-- ===== src/Network/Tests.antt =====
-- A system with four descriptors, in which the first ports are taken.
use networks_dartsync.Base.{
  ℕ, ◌+◌, ◌≡◌, refl, List, [], ◌∷◌, ◌++◌, true, not, ◌||◌, Option, none, some, arith, ltb, leb,
  ◌==◌, if◌then◌else◌, length,
}
use networks_dartsync.Base.Bytes.{Bytes, codes}
use networks_dartsync.Network.{
  Calls, failed, connect_to, create_client_socket, create_client_socket_by_ip, find_port,
}
use networks_dartsync.Network.Ports.{find_port-first, find_port-Exhausted}

-- An address is written as one character.
abbrev read_address : Bytes → Option ℕ
read_address [] = none
read_address (c ∷ rest) = some c

abbrev small : Calls
small = record {
  socket = λ fds. if ltb (length fds) 4 then some (3 + length fds) else none;
  setsockopt = λ fd. true;
  bind = λ fd port. not (leb 7372 port) || leb 7374 port;
  listen = λ fd. true;
  connect = λ fd ip port. ip == 9;
  gethostbyname = λ host. some 9;
  inet_ntoa = λ ip. ip ∷ [];
  inet_aton = read_address;
}

-- A name, its address, and an address that nobody answers at.
client_runs :
    (create_client_socket small (codes "h") 7371 [] ≡ create_client_socket_by_ip small 9 7371 [])
    × (create_client_socket_by_ip small 8 7371 [] ≡ failed (3 ∷ []))
unfolding create_client_socket create_client_socket_by_ip connect_to
client_runs = (refl, refl)

find_port-first_example :
    (fd : ℕ) × (lost : List ℕ) × (find_port 9 small 7372 (3 ∷ [])
      ≡ some (record {
        server_handshake_port = 7372 + 2;
        server_handshake_socket = fd;
        fds = fd ∷ (lost ++ 3 ∷ []);
      }))
    × (length lost ≡ 2)
find_port-first_example =
    find_port-first small (λ fd. refl) 2 9 7372 (3 ∷ []) (omega arith)
      ((λ fd. refl), ((λ fd. refl), tt)) (λ fd. refl) (λ fd. refl)
      (4, refl, (5, refl, (6, refl, tt)))

find_port-Exhausted_example : find_port 99 small 7372 (5 ∷ 4 ∷ 3 ∷ []) ≡ none
find_port-Exhausted_example =
    find_port-Exhausted small (λ fd. refl) 1 7372 (5 ∷ 4 ∷ 3 ∷ []) ((λ fd. refl), tt)
      (6, refl, refl) 99
