-- ===== src/Client/Tables.antt =====
-- The tables that the tracker broadcasts, and what `tracker_handler` makes of them.
use networks_dartsync.Base.{
  ℕ, zero, suc, ◌≤◌, ◌<◌, ◌≡◌, refl, sym, ap, ◌∙◌, List, [], ◌∷◌, ◌++◌, arith, length, All,
  length-append, append_assoc, append-nil, take,
}
use networks_dartsync.Base.Bytes.{Bytes}
use networks_dartsync.FileTable.{FileNode, FileTable}
use networks_dartsync.LocalSync.{Action, Monitor, sync_with_server}
use networks_dartsync.Wire.{Socket, Ending, closed, recv, to_bytes}
use networks_dartsync.Wire.Length.{length-to_bytes}
use networks_dartsync.Wire.Exact.{IsPrompt, next_cut-le}
use networks_dartsync.TableMessage.{
  on_cut, record_size, int_size, send_file_table, encode_node, encode_nodes, spinning,
  recv_file_table,
}
use networks_dartsync.TableMessage.Layout.{length-encode_node}
use networks_dartsync.TableMessage.Receiving.{IsSendable, recv_file_table-cut}
use networks_dartsync.Tracker.{from_sender}
use networks_dartsync.Session.Int.{recv-table}
use networks_dartsync.Client.{Handled, stopped, stuck, Handler, handle_tables, tracker_handler}

unfoldable pub send_tables : List FileTable → Bytes
send_tables [] = []
send_tables (t ∷ ts) = send_file_table t ++ send_tables ts

-- The client takes over one table after the other.
abbrev pub take_over :
    ℕ → (List Action → List FileNode) → List FileTable → Handled → Monitor → Handler
take_over ip directory [] how m = record { actions = []; monitor = m; how = how }
take_over ip directory (t ∷ ts) how m =
    let done = sync_with_server directory (from_sender ip t) m in
    let rest = take_over ip directory ts how done.monitor in
    record rest { actions = done.actions ∷ rest.actions }

length-send_file_table : (t : FileTable) → 0 < length (send_file_table t)
unfolding send_file_table
length-send_file_table t = omega (
  arith,
  length-append (to_bytes int_size (suc (length t.nodes)))
      (encode_node t.head ++ encode_nodes t.nodes),
  length-to_bytes int_size (suc (length t.nodes)),
)

length-send_tables : (ts : List FileTable) → length ts ≤ length (send_tables ts)
unfolding send_tables
length-send_tables [] = omega arith
length-send_tables (t ∷ ts) = omega (
  arith,
  length-append (send_file_table t) (send_tables ts),
  length-send_file_table t,
  length-send_tables ts,
)

module _ (ip : ℕ) (directory : List Action → List FileNode) where
  -- Where the connection has come to `rest`, the loop ends, and with it the thread.
  abbrev pub EndsAt : Bytes → Ending → Handled → Type 0
  EndsAt rest ending how =
      (fuel : ℕ) (s : Socket) (m : Monitor)
      → s.bytes ≡ rest
      → s.ending ≡ ending
      → IsPrompt s
      → handle_tables (suc fuel) ip directory s m ≡ record { actions = []; monitor = m; how = how }

  pub EndsAt-closed : EndsAt [] closed stopped
  unfolding handle_tables recv_file_table recv
  EndsAt-closed fuel s m e c p = ground (arith, e, c)

  EndsAt-cut :
      (t : FileTable) (n : ℕ)
      → IsSendable t
      → int_size ≤ n
      → n < length (send_file_table t)
      → EndsAt (take n (send_file_table t)) closed stuck
  unfolding handle_tables
  EndsAt-cut t n v h short fuel s m e c p =
      let arrives : s.bytes ≡ take n (send_file_table t ++ []) =
        e ∙ ap (take n) (sym (append-nil (send_file_table t))) in
      let read : recv_file_table ip s ≡ spinning =
        recv_file_table-cut t v [] n s arrives (next_cut-le s p) ip h short ∙ ap on_cut c in
      rw (handle_tables, read) refl

  pub handle_tables-take_over :
      (ts : List FileTable) (rest : Bytes) (ending : Ending) (how : Handled) (fuel : ℕ) (s : Socket)
      (m : Monitor)
      → EndsAt rest ending how
      → All IsSendable ts
      → length ts < fuel
      → IsPrompt s
      → s.ending ≡ ending
      → s.bytes ≡ send_tables ts ++ rest
      → handle_tables fuel ip directory s m ≡ take_over ip directory ts how m
  unfolding handle_tables send_tables from_sender
  handle_tables-take_over ts rest ending how zero s m last v h p c e = absurd (omega arith)
  handle_tables-take_over [] rest ending how (suc fuel) s m last v h p c e = last fuel s m e c p
  handle_tables-take_over (t ∷ ts) rest ending how (suc fuel) s m last (w, v) h p c e =
      let (s', read, goes) =
        recv-table ip t (send_tables ts ++ rest) s w p
          (e ∙ append_assoc (send_file_table t) (send_tables ts) rest) in
      let m' = (sync_with_server directory (from_sender ip t) m).monitor in
      let tail =
        handle_tables-take_over ts rest ending how fuel s' m' last v (omega arith) goes.prompt
          (goes.ending ∙ c) goes.bytes in
      rw (handle_tables, read, tail) refl

  pub enough :
      (ts : List FileTable) (rest : Bytes) (s : Socket)
      → s.bytes ≡ send_tables ts ++ rest
      → length ts < suc (length s.bytes)
  enough ts rest s e =
      omega (arith, ap length e, length-append (send_tables ts) rest, length-send_tables ts)

-- The client takes over every table that the tracker broadcasts, in order, each from where the last
-- one left its monitor, if the tables keep their layout and every call of `recv` delivers an int at
-- least. When the tracker has closed the connection behind a table, the thread stops. When it has
-- closed it within a table, behind the count, the thread loops for ever.
pub tracker_handler-take_over :
    (ip : ℕ) (directory : List Action → List FileNode) (ts : List FileTable) (t : FileTable) (n : ℕ)
    (whole cut : Socket) (m : Monitor)
    → All IsSendable ts
    → IsSendable t
    → int_size ≤ n
    → n < length (send_file_table t)
    → IsPrompt whole
    → IsPrompt cut
    → whole.ending ≡ closed
    → cut.ending ≡ closed
    → whole.bytes ≡ send_tables ts
    → cut.bytes ≡ send_tables ts ++ take n (send_file_table t)
    → (tracker_handler ip directory whole m ≡ take_over ip directory ts stopped m)
      × (tracker_handler ip directory cut m ≡ take_over ip directory ts stuck m)
unfolding tracker_handler
tracker_handler-take_over ip directory ts t n whole cut m v w h short pw pc ew ec bw bc =
    let bw' : whole.bytes ≡ send_tables ts ++ [] = bw ∙ sym (append-nil (send_tables ts)) in
    let piece = take n (send_file_table t) in
    (
      handle_tables-take_over ip directory ts [] closed stopped _ whole m
          (EndsAt-closed ip directory) v (enough ip directory ts [] whole bw') pw ew bw',
      handle_tables-take_over ip directory ts piece closed stuck _ cut m
          (EndsAt-cut ip directory t n w h short) v (enough ip directory ts piece cut bc) pc ec bc,
    )

-- A record at least is behind the count.
pub length-send_file_table_room :
    (t : FileTable) → IsSendable t → record_size < length (send_file_table t)
unfolding send_file_table
length-send_file_table_room t v = omega (
  arith,
  length-append (to_bytes int_size (suc (length t.nodes)))
      (encode_node t.head ++ encode_nodes t.nodes),
  length-append (encode_node t.head) (encode_nodes t.nodes),
  length-encode_node t.head v.head,
  length-to_bytes int_size (suc (length t.nodes)),
)
