-- ===== src/Network/Ports.antt =====
-- The search for a port.
use networks_dartsync.Base.{
  ℕ, zero, suc, ◌+◌, ◌<◌, ◌≡◌, refl, sym, ap, ◌∙◌, List, [], ◌∷◌, ◌++◌, true, false, none, some,
  arith, length, length-append, append_assoc,
}
use networks_dartsync.Network.{
  Calls, failed, opened, port_bits, create_server_socket, Found, find_port,
}

abbrev at_port : ℕ → ℕ → List ℕ → Found
at_port port fd others = record {
  server_handshake_port = port;
  server_handshake_socket = fd;
  fds = fd ∷ others;
}

-- No port from `port` on, as many as the first number says, can be bound.
abbrev pub Refused : Calls → ℕ → ℕ → Type 0
Refused os zero port = Unit
Refused os (suc k) port = ((fd : ℕ) → os.bind fd (port_bits port) ≡ false) × Refused os k (port + 1)

-- So many sockets can be opened.
abbrev pub CanOpen : Calls → ℕ → List ℕ → Type 0
CanOpen os zero fds = Unit
CanOpen os (suc k) fds = (fd : ℕ) × (os.socket fds ≡ some fd) × CanOpen os k (fd ∷ fds)

-- So many sockets can be opened, and then no other.
abbrev pub Exhausted : Calls → ℕ → List ℕ → Type 0
Exhausted os zero fds = (os.socket fds ≡ none)
Exhausted os (suc k) fds = (fd : ℕ) × (os.socket fds ≡ some fd) × Exhausted os k (fd ∷ fds)

module _ (os : Calls) (options : (fd : ℕ) → os.setsockopt fd ≡ true) where
  refused_once :
      (fd port : ℕ) (fds : List ℕ)
      → os.socket fds ≡ some fd
      → os.bind fd (port_bits port) ≡ false
      → create_server_socket os port fds ≡ failed (fd ∷ fds)
  unfolding create_server_socket
  refused_once fd port fds made taken = rw (create_server_socket, made, options fd, taken) refl

  accepted :
      (fd port : ℕ) (fds : List ℕ)
      → os.socket fds ≡ some fd
      → os.bind fd (port_bits port) ≡ true
      → os.listen fd ≡ true
      → create_server_socket os port fds ≡ opened fd (fd ∷ fds)
  unfolding create_server_socket
  accepted fd port fds made free listens =
      rw (create_server_socket, made, options fd, free, listens) refl

  spent :
      (port : ℕ) (fds : List ℕ)
      → os.socket fds ≡ none
      → create_server_socket os port fds ≡ failed fds
  unfolding create_server_socket
  spent port fds none_left = rw (create_server_socket, none_left) refl

  -- The search ends at the first port that is free, if there are sockets enough and neither
  -- `setsockopt` nor `listen` fails. Behind it the socket of each port that was not free is still
  -- open.
  pub find_port-first :
      (k fuel port : ℕ) (fds : List ℕ)
      → k < fuel
      → Refused os k port
      → ((fd : ℕ) → os.bind fd (port_bits (port + k)) ≡ true)
      → ((fd : ℕ) → os.listen fd ≡ true)
      → CanOpen os (suc k) fds
      → (fd : ℕ) × (lost : List ℕ) × (find_port fuel os port fds
          ≡ some (record {
            server_handshake_port = port + k;
            server_handshake_socket = fd;
            fds = fd ∷ (lost ++ fds);
          }))
        × (length lost ≡ k)
  unfolding find_port
  find_port-first k zero port fds h r free listens can = absurd (omega arith)
  find_port-first zero (suc fuel) port fds h r free listens (fd, made, can) =
      let z : port ≡ port + 0 = omega arith in
      (
        fd,
        [],
        rw (find_port, accepted fd port fds made (free' fd) (listens fd))
            (ap (λ n. some (at_port n fd fds)) z),
        refl,
      )
    where
      free' : (fd : ℕ) → os.bind fd (port_bits port) ≡ true
      free' fd =
          let z : port ≡ port + 0 = omega arith in ap (λ n. os.bind fd (port_bits n)) z ∙ free fd
  find_port-first (suc k) (suc fuel) port fds h (taken, r) free listens (fd, made, can) =
      let once = refused_once fd port fds made (taken fd) in
      let next : port + 1 + k ≡ port + suc k = omega arith in
      let (last, lost, found, count) =
        find_port-first k fuel (port + 1) (fd ∷ fds) (omega arith) r
          (λ fd'. ap (λ n. os.bind fd' (port_bits n)) next ∙ free fd') listens can in
      (
        last,
        lost ++ fd ∷ [],
        rw (find_port, once) found
            ∙ ap (λ n. some (at_port n last (lost ++ fd ∷ fds))) next
            ∙ ap (λ l. some (at_port (port + suc k) last l))
                (sym (append_assoc lost (fd ∷ []) fds)),
        omega (arith, count, length-append lost (fd ∷ [])),
      )

  -- The search never ends if the sockets are used up before a port is free, where `setsockopt` does
  -- not fail: each port that is not free costs one.
  pub find_port-Exhausted :
      (k port : ℕ) (fds : List ℕ)
      → Refused os k port
      → Exhausted os k fds
      → (fuel : ℕ) → find_port fuel os port fds ≡ none
  unfolding find_port
  find_port-Exhausted zero port fds r full zero = refl
  find_port-Exhausted (suc k) port fds r full zero = refl
  find_port-Exhausted zero port fds r full (suc fuel) =
      rw (find_port, spent port fds full) (find_port-Exhausted zero (port + 1) fds tt full fuel)
  find_port-Exhausted (suc k) port fds (taken, r) (fd, made, full) (suc fuel) =
      rw (find_port, refused_once fd port fds made (taken fd))
        (find_port-Exhausted k (port + 1) (fd ∷ fds) r full fuel)
