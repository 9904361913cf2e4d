-- ===== src/PeerTable/Alive.antt =====
-- How long a peer stays in the table: the events of the tracker's threads, in the order in which
-- they reach the table.
use networks_dartsync.Base.{
  ℕ, ◌+◌, ◌≤◌, ◌<◌, ◌≡◌, refl, ◌≢◌, none, some, List, [], ◌∷◌, arith, ◌==◌, if◌then◌else◌, All, inl,
  inr, Bool-cases, ==_iff,
}
use networks_dartsync.PeerTable.{
  PeerEntry, heartbeat_interval_sec, peer_table_add, peer_table_update_timestamp, peer_table_delete,
  peer_live_check,
}
use networks_dartsync.PeerTable.Lookup.{
  last_seen, last_seen-peer_table_add, last_seen-update_self, last_seen-update_other,
  last_seen-delete_other, last_seen-peer_live_check,
}

pub data Event : Type 0 where
  joined : (now ip socket : ℕ) → Event
  heartbeat : (now ip : ℕ) → Event
  left : (ip : ℕ) → Event
  checked : (now : ℕ) → Event

unfoldable pub handle : Event → List PeerEntry → List PeerEntry
handle (joined now ip socket) table = peer_table_add now ip socket table
handle (heartbeat now ip) table = peer_table_update_timestamp now ip table
handle (left ip) table = peer_table_delete ip table
handle (checked now) table = peer_live_check now table

unfoldable pub handle_all : List Event → List PeerEntry → List PeerEntry
unfolding handle
handle_all [] table = table
handle_all (e ∷ es) table = handle_all es (handle e table)

-- The time of the last sign of life of `ip`, from `v` before the events.
abbrev pub seen_after : ℕ → ℕ → Event → ℕ
seen_after ip v (joined now j socket) = if j == ip then now else v
seen_after ip v (heartbeat now j) = if j == ip then now else v
seen_after ip v (left j) = v
seen_after ip v (checked now) = v

abbrev pub latest : ℕ → ℕ → List Event → ℕ
latest ip v [] = v
latest ip v (e ∷ es) = latest ip (seen_after ip v e) es

-- The peer does not leave, and each check comes at most 11 seconds after its last sign of life.
abbrev pub InTime : ℕ → ℕ → Event → Type 0
InTime ip v (left j) = j ≢ ip
InTime ip v (checked now) = now ≤ v + heartbeat_interval_sec + 1
InTime ip v (joined now j socket) = Unit
InTime ip v (heartbeat now j) = Unit

abbrev pub Punctual : ℕ → ℕ → List Event → Type 0
Punctual ip v [] = Unit
Punctual ip v (e ∷ es) = InTime ip v e × Punctual ip (seen_after ip v e) es

last_seen-handle :
    (ip v : ℕ) (e : Event) (table : List PeerEntry)
    → last_seen ip table ≡ some v
    → InTime ip v e
    → last_seen ip (handle e table) ≡ some (seen_after ip v e)
unfolding handle
last_seen-handle ip v (joined now j socket) table h t =
    ground (arith, last_seen-peer_table_add now j socket ip table)
last_seen-handle ip v (heartbeat now j) table h t = elim (Bool-cases (j == ip)) [
  | inl same ↦
      let e : j ≡ ip = (==_iff j ip).0 same in
      ground (arith, last_seen-update_self now ip v table h)
  | inr other ↦ ground (arith, last_seen-update_other now j ip table)
]
last_seen-handle ip v (left j) table h t = ground (arith, last_seen-delete_other j ip table t)
last_seen-handle ip v (checked now) table h t = last_seen-peer_live_check now ip v table h t

-- A peer that is in the table stays in it through any events of any peers, with the time of its
-- latest sign of life, as long as it does not leave and every liveness check comes at most 11
-- seconds after that time.
pub last_seen-handle_all :
    (ip v : ℕ) (es : List Event) (table : List PeerEntry)
    → last_seen ip table ≡ some v
    → Punctual ip v es
    → last_seen ip (handle_all es table) ≡ some (latest ip v es)
unfolding handle_all
last_seen-handle_all ip v [] table h p = h
last_seen-handle_all ip v (e ∷ es) table h (t, p) =
    last_seen-handle_all ip (seen_after ip v e) es (handle e table)
      (last_seen-handle ip v e table h t) p

-- An entry that the check keeps.
abbrev pub IsFresh : ℕ → PeerEntry → Type 0
IsFresh now e = now ≤ e.last_time_stamp + heartbeat_interval_sec + 1

peer_live_check-All :
    (now : ℕ) (table : List PeerEntry) → All (IsFresh now) (peer_live_check now table)
unfolding peer_live_check
peer_live_check-All now [] = tt
peer_live_check-All now (e ∷ table) = ground (arith, peer_live_check-All now table)

-- A peer that stays silent is dropped: where every entry of an address is more than 11 seconds
-- old, the address is not in the table after the check.
pub peer_live_check-silent :
    (now ip : ℕ) (table : List PeerEntry)
    → All (λ e. e.ip ≡ ip → e.last_time_stamp + heartbeat_interval_sec + 1 < now) table
    → last_seen ip (peer_live_check now table) ≡ none
unfolding last_seen peer_live_check
peer_live_check-silent now ip [] h = refl
peer_live_check-silent now ip (e ∷ table) (old, h) =
    ground (arith, peer_live_check-silent now ip table h)
