-- ===== src/Tracker/Holders.antt =====
-- Who is listed as a holder of a file: what the operations on the file table do to that.
use mathlib.Core.Path.{subst}
use networks_dartsync.Base.{
  ℕ, ◌<◌, ◌≡◌, refl, sym, ◌∙◌, List, [], ◌∷◌, true, Option, none, some, arith, ◌==◌, if◌then◌else◌,
  length, length-take, All, Bool-cases, inl, inr, ==_iff,
}
use networks_dartsync.Base.Bytes.{Bytes, bytes_eq, bytes_eq_iff, bytes_eq_refl}
use networks_dartsync.FileTable.{FileNode, FileTable, max_peers}
use networks_dartsync.FileTable.Peers.{has, has-append, holders, IsNode}
use networks_dartsync.FileTable.Sync.View.{
  Entry, view, find, find_view, merged, synced, IsTable, UniqueNames,
}
use networks_dartsync.FileTable.Sync.Prune.{find-absent, All-find}
use networks_dartsync.FileTable.Sync.Refine.{Takeover, AllRoom}
use networks_dartsync.FileTable.Disconnect.Laws.{Released, AllReleased, none_left, one_more}
use networks_dartsync.Tracker.{Tracker}
use networks_dartsync.Tracker.Connected.{Within, Within-length, without, has-without}

merged-Within :
    (ip : ℕ) (ips : List ℕ) (c s : FileNode)
    → has ip ips ≡ true
    → Within (holders s) ips
    → Within ((merged ip c s).holders) ips
unfolding merged has
merged-Within ip ips c s here w j h =
    let e : (j == ip) ≡ true → has j ips ≡ true =
      λ q. let p : j ≡ ip = (==_iff j ip).0 q in rw p here in
    ground (arith, w j, e, has-append j (holders s) (ip ∷ []))

-- The holders in an entry that `synced` leaves.
synced-Within :
    (ip : ℕ) (ips : List ℕ) (c s : Option FileNode) (e : Entry)
    → has ip ips ≡ true
    → ((t : FileNode) → s ≡ some t → Within (holders t) ips)
    → synced ip c s ≡ some e
    → Within e.holders ips
unfolding synced has
synced-Within ip ips none none e here w h = absurd (cc)
synced-Within ip ips none (some t) e here w h = λ j q. ground (arith, w t refl j)
synced-Within ip ips (some c) none e here w h = λ j q. ground (arith, ==_iff j ip)
synced-Within ip ips (some c) (some t) e here w h = λ j q.
    let m = merged-Within ip ips c t here (w t refl) j in
    let r : merged ip c t ≡ e = cc in m (rw r q)

-- Every file is held by connected clients only.
abbrev pub Known : List ℕ → List FileNode → Type 0
Known ips nodes = (name : Bytes) (s : FileNode) → find name nodes ≡ some s → Within (holders s) ips

-- With the addresses `ips` of the connected clients, fewer than an array of peers has room for.
pub record Sound (ips : List ℕ) (t : Tracker) : Type 0 where
  pub files_valid : IsTable t.files.nodes
  pub holders_known : Known ips t.files.nodes
  pub few : length ips < max_peers

All-of_find {κ} :
    (P : FileNode → Type κ) (nodes : List FileNode)
    → UniqueNames nodes
    → ((name : Bytes) (s : FileNode) → find name nodes ≡ some s → P s)
    → All P nodes
unfolding find
All-of_find P [] u f = tt
All-of_find P (s ∷ nodes) (fresh, u) f =
    let first : bytes_eq s.name s.name ≡ true = bytes_eq_refl s.name in
    (f s.name s (rw first refl), All-of_find P nodes u (λ name t got. f name t (behind name t got)))
  where
    behind :
        (name : Bytes) (t : FileNode)
        → find name nodes ≡ some t
        → (if bytes_eq name s.name then some s else find name nodes) ≡ some t
    behind name t got = elim (Bool-cases (bytes_eq name s.name)) [
      | inl same ↦
          let e : name ≡ s.name = (bytes_eq_iff name s.name).0 same in
          let none_there = find-absent s.name nodes fresh in absurd (ground (arith))
      | inr other ↦ rw other got
    ]

-- Fewer clients than the array has room for: each node has room for one more.
node_room :
    (ips : List ℕ) (s : FileNode)
    → IsNode s
    → length ips < max_peers
    → Within (holders s) ips
    → s.num_peers < max_peers
node_room ips s v few w = omega (
  arith,
  v.size,
  v.within,
  length-take s.num_peers s.peers,
  Within-length (holders s) ips v.distinct w,
)

pub Sound-AllRoom : (ips : List ℕ) (t : Tracker) → Sound ips t → AllRoom t.files.nodes
Sound-AllRoom ips t v = All-of_find _ t.files.nodes v.files_valid.unique (λ name s got.
    node_room ips s (All-find IsNode name t.files.nodes got v.files_valid.nodes_valid) v.few
      (v.holders_known name s got))

find-Released :
    {ip : ℕ} {nodes nodes' : List FileNode} (name : Bytes) (s' : FileNode)
    → AllReleased ip nodes nodes'
    → find name nodes' ≡ some s'
    → (s : FileNode) × (find name nodes ≡ some s) × Released ip s s'
unfolding find
find-Released name s' none_left got = absurd (cc)
find-Released name s' (one_more {s = t} {s' = t'} {nodes} r rs) got =
    elim (Bool-cases (bytes_eq name t'.name)) [
      | inl same ↦
          let e : t' ≡ s' = ground arith in (t, ground (arith, r.name), subst (Released _ t) e r)
      | inr other ↦
          let (s, e, q) = find-Released name s' rs (rw other at got) in
          (s, ground (arith, r.name, e), q)
    ]

pub Takeover-Known :
    (ip : ℕ) (ips : List ℕ) (server client after : FileTable)
    → has ip ips ≡ true
    → Known ips server.nodes
    → Takeover ip server client after
    → Known ips after.nodes
Takeover-Known ip ips server client after here known took name s got =
    synced-Within ip ips (find name client.nodes) (find name server.nodes) (view s) here
      (λ t held. known name t held) (sym (took.entries name) ∙ rw (find_view, got) refl)

pub released-Known :
    (ip : ℕ) (ips : List ℕ) (nodes nodes' : List FileNode)
    → Known ips nodes
    → AllReleased ip nodes nodes'
    → Known (without ip ips) nodes'
released-Known ip ips nodes nodes' known rs name s' got =
    let (s, e, r) = find-Released name s' rs got in
    λ j h. elim (Bool-cases (j == ip)) [
      | inl same ↦ absurd (ground (arith, r.members j))
      | inr other ↦ rw (has-without ip j ips other) (known name s e j (ground (arith, r.members j)))
    ]
