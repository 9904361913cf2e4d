-- ===== src/Client/Heartbeats.antt =====
-- The heartbeats of a client, as they reach the peer table of the tracker between the events of
-- other clients and the liveness checks.
use networks_dartsync.Base.{
  ℕ, ◌+◌, ◌≤◌, ◌≡◌, ◌≢◌, refl, ap, ◌∙◌, List, [], ◌∷◌, ◌++◌, some, arith, All,
}
use networks_dartsync.PeerTable.{PeerEntry, heartbeat_interval_sec}
use networks_dartsync.PeerTable.Lookup.{last_seen}
use networks_dartsync.PeerTable.Alive.{
  Event, joined, heartbeat, left, checked, handle, handle_all, latest, Punctual,
  last_seen-handle_all,
}
use networks_dartsync.Client.{heartbeat_times}

-- A heartbeat on its way: what the tracker does before it arrives, and how long that takes.
pub record Beat : Type 0 where
  pub before : List Event
  pub transit : ℕ

-- The events of the tracker: the heartbeats of the client, at their times, among the others.
abbrev pub arrivals : ℕ → List ℕ → List Beat → List Event
arrivals ip [] beats = []
arrivals ip (t ∷ ts) [] = []
arrivals ip (t ∷ ts) (b ∷ beats) = b.before ++ (heartbeat (t + b.transit) ip ∷ arrivals ip ts beats)

-- When the last one arrives.
abbrev pub last_arrival : ℕ → List ℕ → List Beat → ℕ
last_arrival v [] beats = v
last_arrival v (t ∷ ts) [] = v
last_arrival v (t ∷ ts) (b ∷ beats) = last_arrival (t + b.transit) ts beats

-- An event that is not of the client, and before `limit` if it is a check.
abbrev pub Foreign : ℕ → ℕ → Event → Type 0
Foreign ip limit (joined now j socket) = j ≢ ip
Foreign ip limit (heartbeat now j) = j ≢ ip
Foreign ip limit (left j) = j ≢ ip
Foreign ip limit (checked now) = now ≤ limit

abbrev pub Before : ℕ → List ℕ → List Beat → Type 0
Before ip [] beats = Unit
Before ip (t ∷ ts) [] = Unit
Before ip (t ∷ ts) (b ∷ beats) = All (Foreign ip (t + b.transit)) b.before × Before ip ts beats

Punctual-Foreign :
    (ip v limit : ℕ) (es : List Event)
    → limit ≤ v + heartbeat_interval_sec + 1
    → All (Foreign ip limit) es
    → Punctual ip v es × (latest ip v es ≡ v)
Punctual-Foreign ip v limit [] h f = (tt, refl)
Punctual-Foreign ip v limit (joined now j socket ∷ es) h (other, f) =
    let (p, l) = Punctual-Foreign ip v limit es h f in ground (arith, p, l)
Punctual-Foreign ip v limit (heartbeat now j ∷ es) h (other, f) =
    let (p, l) = Punctual-Foreign ip v limit es h f in ground (arith, p, l)
Punctual-Foreign ip v limit (left j ∷ es) h (other, f) =
    let (p, l) = Punctual-Foreign ip v limit es h f in ((other, p), l)
Punctual-Foreign ip v limit (checked now ∷ es) h (early, f) =
    let (p, l) = Punctual-Foreign ip v limit es h f in ((omega arith, p), l)

handle_all-append :
    (es fs : List Event) (table : List PeerEntry)
    → handle_all (es ++ fs) table ≡ handle_all fs (handle_all es table)
unfolding handle_all
handle_all-append [] fs table = refl
handle_all-append (e ∷ es) fs table = handle_all-append es fs (handle e table)

-- One heartbeat, with what comes before it.
last_seen-beat :
    (ip v t : ℕ) (b : Beat) (rest : List Event) (table : List PeerEntry)
    → last_seen ip table ≡ some v
    → All (Foreign ip (t + b.transit)) b.before
    → t + b.transit ≤ v + heartbeat_interval_sec + 1
    → (table' : List PeerEntry) × (last_seen ip table' ≡ some (t + b.transit))
      × (handle_all (b.before ++ (heartbeat (t + b.transit) ip ∷ rest)) table
          ≡ handle_all rest table')
unfolding handle_all
last_seen-beat ip v t b rest table h f soon =
    let (p, l) = Punctual-Foreign ip v (t + b.transit) b.before soon f in
    let kept : last_seen ip (handle_all b.before table) ≡ some v =
      last_seen-handle_all ip v b.before table h p ∙ ap some l in
    let here = last_seen-handle_all ip v (heartbeat (t + b.transit) ip ∷ []) _ kept (tt, tt) in
    (
      handle (heartbeat (t + b.transit) ip) (handle_all b.before table),
      here ∙ ap some (ground arith),
      handle_all-append b.before (heartbeat (t + b.transit) ip ∷ rest) table,
    )

-- A client that is in the peer table stays in it: whatever other clients do, and whenever the
-- liveness checks come, the entry has the time of the client's last heartbeat, if the client does
-- not leave, the first heartbeat comes within 11 seconds, and a round of the heartbeat is late, and
-- a heartbeat travels, for a second at most in sum.
pub last_seen-heartbeats :
    (ip late transit v now : ℕ) (rounds : List ℕ) (beats : List Beat) (table : List PeerEntry)
    → late + transit ≤ 1
    → All (λ l. l ≤ late) rounds
    → All (λ b. b.transit ≤ transit) beats
    → Before ip (heartbeat_times now rounds) beats
    → now + transit ≤ v + heartbeat_interval_sec + 1
    → last_seen ip table ≡ some v
    → last_seen ip (handle_all (arrivals ip (heartbeat_times now rounds) beats) table)
      ≡ some (last_arrival v (heartbeat_times now rounds) beats)
unfolding heartbeat_times handle_all
last_seen-heartbeats ip late transit v now [] [] table slow ls bs f soon h = h
last_seen-heartbeats ip late transit v now [] (b ∷ beats) table slow ls (quick, bs) (f, fs) soon h =
    let (table', seen, e) = last_seen-beat ip v now b [] table h f (omega arith) in
    ap (last_seen ip) e ∙ seen
last_seen-heartbeats ip late transit v now (l ∷ rounds) [] table slow ls bs f soon h = h
last_seen-heartbeats ip late transit v now (l ∷ rounds) (b ∷ beats) table slow (lk, ls) (quick, bs)
      (f, fs) soon h =
    let next = now + heartbeat_interval_sec + l in
    let (table', seen, e) =
      last_seen-beat ip v now b (arrivals ip (heartbeat_times next rounds) beats) table h f
        (omega arith) in
    ap (last_seen ip) e
    ∙ last_seen-heartbeats ip late transit (now + b.transit) next rounds beats table' slow ls bs fs
        (omega arith) seen
