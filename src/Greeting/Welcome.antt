-- ===== src/Greeting/Welcome.antt =====
-- A client hears what the tracker says, from the first answer to the last table.
use networks_dartsync.Base.{
  ℕ, ◌-◌, ◌≡◌, refl, sym, ap, ◌∙◌, List, [], ◌++◌, Bool, true, false, Option, none, some, arith,
  ltb, ltb→lt, if◌then◌else◌, length, replicate, All, All-mono, length-append, length-replicate,
  append-nil, Bool-cases, inl, inr,
}
use networks_dartsync.Base.Bytes.{Bytes}
use networks_dartsync.FileTable.{FileNode, FileTable}
use networks_dartsync.FileTable.Peers.{has}
use networks_dartsync.Wire.{Socket, closed, recv, received}
use networks_dartsync.Wire.Exact.{IsPrompt}
use networks_dartsync.TableMessage.{c_string}
use networks_dartsync.TableMessage.Layout.{c_string-append_zeros}
use networks_dartsync.TableMessage.Receiving.{IsSendable}
use networks_dartsync.LocalSync.{Action, Monitor}
use networks_dartsync.Tracker.{Authorisation, max_try, authorise}
use networks_dartsync.Session.Int.{recv-front}
use networks_dartsync.Client.{Login, login, stopped, Handler, tracker_handler}
use networks_dartsync.Client.Tables.{
  send_tables, take_over, handle_tables-take_over, EndsAt-closed, enough,
}
use networks_dartsync.Greeting.{
  max_dir_len, directory_name, directory_array, tracker_sends, receive_directory, start_client,
}
use networks_dartsync.Greeting.Answers.{IsWhole, after, next-IsWhole, one_call, login_on-Answered}

-- The directory arrives whole.
receive_directory-name :
    (line : Option Bytes) (directory rest : Bytes) (s : Socket)
    → directory_array line ≡ some directory
    → has 0 (directory_name line) ≡ false
    → IsWhole s
    → s.bytes ≡ directory ++ rest
    → receive_directory s ≡ (directory_name line, after rest s)
unfolding receive_directory directory_array
receive_directory-name line directory rest s e no_nul h b =
    let name = directory_name line in
    elim (Bool-cases (ltb (length name) max_dir_len)) [
      | inl fits ↦
          let l = ltb→lt (length name) max_dir_len fits in
          let k = max_dir_len - length name in
          let x = name ++ replicate k 0 in
          let e' : ◌≡◌ {A = Option Bytes} (some x) (some directory) = rw (sym e, fits) refl in
          let same : x ≡ directory = cc in
          let lx : length x ≡ max_dir_len =
            omega (arith, length-append name (replicate k 0), length-replicate {A = ℕ} k 0, l) in
          let read : recv max_dir_len s ≡ received x (after rest s) =
            ap (λ (n : ℕ). recv n s) (sym lx)
            ∙ recv-front x rest s (omega (arith, lx)) (omega (arith, lx, one_call s h))
                (b ∙ ap (λ d. d ++ rest) (sym same)) in
          let none_left : max_dir_len - length x ≡ 0 = omega (arith, lx) in
          let string : c_string (x ++ replicate (max_dir_len - length x) 0) ≡ name =
            ap (λ (n : ℕ). c_string (x ++ replicate n 0)) none_left
            ∙ ap c_string (append-nil x)
            ∙ c_string-append_zeros name k no_nul in
          rw (receive_directory, read) (ap (λ d. (d, after rest s)) string)
      | inr long ↦
          let e' : ◌≡◌ {A = Option Bytes} none (some directory) = rw (sym e, long) refl in
          absurd (cc)
    ]

handler-take_over :
    (my_ip : ℕ) (scan : List Action → List FileNode) (tables : List FileTable) (s : Socket)
    (m : Monitor)
    → All IsSendable tables
    → IsPrompt s
    → s.ending ≡ closed
    → s.bytes ≡ send_tables tables ++ []
    → tracker_handler my_ip scan s m ≡ take_over my_ip scan tables stopped m
unfolding tracker_handler
handler-take_over my_ip scan tables s m v p c b =
    handle_tables-take_over my_ip scan tables [] closed stopped _ s m (EndsAt-closed my_ip scan) v
      (enough my_ip scan tables [] s b) p c b

-- A client that is let in reads the directory and then the tables.
client-begins :
    (line : Option Bytes) (directory : Bytes) (tables : List FileTable) (my_ip : ℕ)
    (scan : List Action → List FileNode) (s : Socket) (m : Monitor) (pass : Bool)
    → directory_array line ≡ some directory
    → has 0 (directory_name line) ≡ false
    → All IsSendable tables
    → IsWhole s
    → s.ending ≡ closed
    → s.bytes ≡ (if pass then directory ++ send_tables tables else [])
    → ◌≡◌ {A = Option (Bytes × Handler)}
        (if pass
          then some ((receive_directory s).0, tracker_handler my_ip scan (receive_directory s).1 m)
          else none)
        (if pass then some (directory_name line, take_over my_ip scan tables stopped m) else none)
client-begins line directory tables my_ip scan s m false arr no_nul v h c b = refl
client-begins line directory tables my_ip scan s m true arr no_nul v h c b =
    let rest = send_tables tables in
    let s' = after rest s in
    let d = receive_directory-name line directory rest s arr no_nul h b in
    let whole : s'.bytes ≡ send_tables tables ++ [] = sym (append-nil (send_tables tables)) in
    let prompt : IsPrompt s' = All-mono (λ n m. omega (arith, m)) _ (next-IsWhole rest s h) in
    let heard : tracker_handler my_ip scan s' m ≡ take_over my_ip scan tables stopped m =
      handler-take_over my_ip scan tables s' m v prompt c whole in
    ap (λ p. some (p.0, tracker_handler my_ip scan p.1 m)) d
    ∙ ap (λ t. some (directory_name line, t)) heard

-- What the tracker says to a client arrives in its order: where every call of `recv` delivers what it
-- asks for, a client that the tracker answers by `authorise` takes the outcome of the loop over its
-- passwords from the answers; if it is let in, it watches the directory that the tracker has been
-- given, and takes over each table that the tracker broadcasts until the connection is closed.
pub start_client-welcome :
    (password : Bytes) (typed : List Bytes) (line : Option Bytes) (directory : Bytes)
    (tables : List FileTable) (a : Authorisation) (my_ip : ℕ) (scan : List Action → List FileNode)
    (s : Socket) (m : Monitor)
    → authorise password max_try typed ≡ some a
    → directory_array line ≡ some directory
    → has 0 (directory_name line) ≡ false
    → All IsSendable tables
    → IsWhole s
    → s.ending ≡ closed
    → s.bytes ≡ tracker_sends a directory tables
    → (l : Login) × (login max_try typed a.replies ≡ some l)
      × (l.pass ≡ a.pass)
      × (start_client typed my_ip scan s m
          ≡ some (record {
            login = l;
            running =
                if a.pass
                then some (directory_name line, take_over my_ip scan tables stopped m)
                else none;
          }))
unfolding start_client tracker_sends
start_client-welcome password typed line directory tables a my_ip scan s m e arr no_nul v h c b =
    let rest = if a.pass then directory ++ send_tables tables else [] in
    let r = login_on-Answered password max_try typed a rest s e h b in
    (
      r.logged,
      r.same_login,
      r.same_pass,
      rw (start_client, r.result, r.same_pass)
          (ap (λ o. some (record { login = r.logged; running = o }))
            (client-begins line directory tables my_ip scan r.behind m a.pass arr no_nul v
              r.is_whole (r.ending ∙ c) r.bytes)),
    )
