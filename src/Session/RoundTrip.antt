-- ===== src/Session/RoundTrip.antt =====
-- The tracker hears what the client says.
use networks_dartsync.Base.{
  ℕ, zero, suc, ◌≤◌, ◌<◌, ◌≡◌, refl, ap, ◌∙◌, List, [], ◌∷◌, ◌++◌, some, arith, length, map, All,
  length-append, append_assoc, ◌^◌,
}
use networks_dartsync.Base.Bytes.{Bytes}
use networks_dartsync.Wire.{closed, Socket, recv, to_bytes, from_bytes}
use networks_dartsync.Wire.Length.{length-to_bytes, from_bytes-to_bytes}
use networks_dartsync.Wire.Exact.{IsPrompt}
use networks_dartsync.TableMessage.{int_size, send_file_table}
use networks_dartsync.TableMessage.Receiving.{IsSendable}
use networks_dartsync.Tracker.{from_sender}
use networks_dartsync.Session.{
  signal_heartbeat, signal_file_update, Sending, heartbeat, file_update, send_one, send_all,
  Message, beat, update, hung_up, message, over, of_outcome, dispatch, read_message, read_messages,
  dialogue,
}
use networks_dartsync.Session.Int.{GoesOn, recv-int, recv-table}

-- What the tracker is to hear from the client with that address.
abbrev pub heard : ℕ → Sending → Message
heard ip heartbeat = beat
heard ip (file_update t) = update (some (from_sender ip t))

abbrev pub CanSend : Sending → Type 0
CanSend heartbeat = Unit
CanSend (file_update t) = IsSendable t

-- The signal is read, and the rest of the message is left to `dispatch`.
pub read_message-dispatch :
    (ip state : ℕ) (rest : Bytes) (s : Socket)
    → state < 2 ^ 32
    → IsPrompt s
    → s.bytes ≡ to_bytes int_size state ++ rest
    → (s' : Socket) × (read_message ip s ≡ dispatch ip state s') × GoesOn rest s s'
unfolding read_message
read_message-dispatch ip state rest s small p e =
    let (s', read, goes) = recv-int state rest s p e in
    let value : from_bytes (to_bytes int_size state) ≡ state =
      from_bytes-to_bytes int_size state (omega arith) in
    (s', rw (read_message, read, length-to_bytes int_size state, value) refl, goes)

read_message-heard :
    (ip : ℕ) (m : Sending) (rest : Bytes) (s : Socket)
    → CanSend m
    → IsPrompt s
    → s.bytes ≡ send_one m ++ rest
    → (s' : Socket) × (read_message ip s ≡ message (heard ip m) s') × GoesOn rest s s'
unfolding send_one dispatch from_sender
read_message-heard ip heartbeat rest s v p e =
    let (s', read, goes) = read_message-dispatch ip signal_heartbeat rest s (omega arith) p e in
    (s', read, goes)
read_message-heard ip (file_update t) rest s v p e =
    let sent = send_file_table t in
    let (s1, read, goes) =
      read_message-dispatch ip signal_file_update (sent ++ rest) s (omega arith) p
        (e ∙ append_assoc (to_bytes int_size signal_file_update) sent rest) in
    let (s2, got, on) = recv-table ip t rest s1 v goes.prompt goes.bytes in
    (
      s2,
      read ∙ ap of_outcome got,
      record { bytes = on.bytes; ending = on.ending ∙ goes.ending; prompt = on.prompt },
    )

-- Behind the last byte the loop ends.
read_message-closed :
    (ip : ℕ) (s : Socket) → s.bytes ≡ [] → s.ending ≡ closed → read_message ip s ≡ over hung_up
unfolding read_message recv
read_message-closed ip s e c = ground (arith, e, c)

read_messages-heard :
    (fuel ip : ℕ) (ms : List Sending) (s : Socket)
    → length ms < fuel
    → All CanSend ms
    → IsPrompt s
    → s.ending ≡ closed
    → s.bytes ≡ send_all ms
    → read_messages fuel ip s ≡ record { messages = map (heard ip) ms; how = hung_up }
unfolding read_messages send_all
read_messages-heard zero ip ms s h v p c e = absurd (omega arith)
read_messages-heard (suc fuel) ip [] s h v p c e =
    let over_now : read_message ip s ≡ over hung_up = read_message-closed ip s e c in
    rw (read_messages, over_now) refl
read_messages-heard (suc fuel) ip (m ∷ ms) s h (w, v) p c e =
    let (s', read, goes) = read_message-heard ip m (send_all ms) s w p e in
    let rest =
      read_messages-heard fuel ip ms s' (omega arith) v goes.prompt (goes.ending ∙ c) goes.bytes in
    rw (read_messages, read, rest) refl

length-send_all : (ms : List Sending) → length ms ≤ length (send_all ms)
unfolding send_all send_one
length-send_all [] = omega arith
length-send_all (heartbeat ∷ ms) = omega (
  arith,
  length-send_all ms,
  length-append (to_bytes int_size signal_heartbeat) (send_all ms),
  length-to_bytes int_size signal_heartbeat,
)
length-send_all (file_update t ∷ ms) =
    let a = to_bytes int_size signal_file_update in
    omega (
      arith,
      length-send_all ms,
      length-append (a ++ send_file_table t) (send_all ms),
      length-append a (send_file_table t),
      length-to_bytes int_size signal_file_update,
    )

-- Where each round of the client's threads sends without the other between, the tables keep their
-- layout, and every call of `recv` delivers an int at least, the tracker hears each heartbeat and each
-- table, in order, with the client's address in the table, until the client closes the connection.
pub dialogue-heard :
    (ip : ℕ) (ms : List Sending) (s : Socket)
    → All CanSend ms
    → IsPrompt s
    → s.ending ≡ closed
    → s.bytes ≡ send_all ms
    → dialogue ip s ≡ record { messages = map (heard ip) ms; how = hung_up }
unfolding dialogue
dialogue-heard ip ms s v p c e =
    let l : length ms < suc (length s.bytes) = omega (arith, length-send_all ms, ap length e) in
    read_messages-heard (suc (length s.bytes)) ip ms s l v p c e
