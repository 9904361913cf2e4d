-- ===== src/Scan/Unique.antt =====
-- A scan lists each path once, so that its table is one of a client.
use mathlib.Core.Bool.{false≢true}
use networks_dartsync.Base.{
  All-mono, ℕ, ◌<◌, ◌≡◌, refl, sym, ap, ◌∙◌, List, [], ◌∷◌, ◌++◌, true, false, ◌||◌, arith, length,
  length-append, All, All-append, Bool-cases, inl, inr, if_cases, some, leb, ◌^◌, ◌%◌,
}
use networks_dartsync.Base.Bytes.{Bytes, bytes_eq, bytes_eq_iff}
use networks_dartsync.LocalSync.{Monitor}
use networks_dartsync.FileTable.{FileNode, FileTable, name_in, file_type, folder_type, zero_peers}
use networks_dartsync.FileTable.Peers.{holders, take_one-set, length-zero_peers}
use networks_dartsync.FileTable.Sync.View.{UniqueNames, IsClientTable}
use networks_dartsync.Scan.{
  Entries, end, file, folder, other, visible, path, record_of, Directory, opened, file_table_update,
}
use networks_dartsync.Scan.Listed.{listed, Fits, any_newer, file_table_update_helper-listed}
use networks_dartsync.Scan.Names.{
  sibling, Tidy, component, component-path, inner-component, Under, Through, listed-Under,
  listed-Through,
}

name_in-absent :
    (name : Bytes) (nodes : List FileNode)
    → All (λ s. bytes_eq name s.name ≡ false) nodes
    → name_in name nodes ≡ false
unfolding name_in
name_in-absent name [] h = refl
name_in-absent name (s ∷ nodes) (p, h) = ground (arith, name_in-absent name nodes h)

name_in-append :
    (name : Bytes) (xs ys : List FileNode)
    → name_in name (xs ++ ys) ≡ (name_in name xs || name_in name ys)
unfolding name_in
name_in-append name [] ys = refl
name_in-append name (x ∷ xs) ys = ground (arith, name_in-append name xs ys)

UniqueNames-append :
    (xs ys : List FileNode)
    → UniqueNames xs
    → UniqueNames ys
    → All (λ s. name_in s.name ys ≡ false) xs
    → UniqueNames (xs ++ ys)
UniqueNames-append [] ys u v h = v
UniqueNames-append (x ∷ xs) ys (fresh, u) v (p, h) =
    (rw (name_in-append x.name xs ys, fresh) p, UniqueNames-append xs ys u v h)

-- A path through an entry that is not among the others is not listed for them.
behind-fresh :
    (ip : ℕ) (directory n : Bytes) (rest : Entries) (name : Bytes)
    → Tidy rest
    → component directory name ≡ n
    → sibling n rest ≡ false
    → name_in name (listed ip directory rest) ≡ false
behind-fresh ip directory n rest name h e fresh = name_in-absent name _ (
    All-mono {P = Through directory rest} {Q = λ s. bytes_eq name s.name ≡ false} apart _
      (listed-Through ip directory rest h))
  where
    apart : (s : FileNode) → Through directory rest s → bytes_eq name s.name ≡ false
    apart s q = elim (Bool-cases (bytes_eq name s.name)) [
      | inl same ↦
          let f : name ≡ s.name = (bytes_eq_iff name s.name).0 same in
          let g : component directory s.name ≡ n = rw (← f) e in
          absurd (false≢true (sym fresh ∙ (rw g at q)))
      | inr differs ↦ differs
    ]

length-path : (directory t : Bytes) → length directory < length (path directory t)
length-path directory t = omega (arith, length-append directory (b'/' ∷ t))

-- A folder is not among its own entries.
folder-fresh :
    (ip : ℕ) (full : Bytes) (entries : Entries) → name_in full (listed ip full entries) ≡ false
folder-fresh ip full entries = name_in-absent full _ (
    All-mono {P = Under full} {Q = λ s. bytes_eq full s.name ≡ false} apart _
      (listed-Under ip full entries))
  where
    apart : (s : FileNode) → Under full s → bytes_eq full s.name ≡ false
    apart s (t, e) = elim (Bool-cases (bytes_eq full s.name)) [
      | inl same ↦
          let f : full ≡ path full t = (bytes_eq_iff full s.name).0 same ∙ e in
          let g : length full ≡ length (path full t) = ap length f in
          absurd (omega (arith, g, length-path full t))
      | inr differs ↦ differs
    ]

listed-UniqueNames :
    (ip : ℕ) (directory : Bytes) (entries : Entries)
    → Tidy entries
    → UniqueNames (listed ip directory entries)
unfolding listed record_of
listed-UniqueNames ip directory end h = tt
listed-UniqueNames ip directory (file name mtime size rest) (plain, fresh, h) =
    let behind = listed-UniqueNames ip directory rest h in
    let new = behind-fresh ip directory name rest _ h (component-path directory name plain) fresh in
    if_cases UniqueNames (visible name) (new, behind) behind
listed-UniqueNames ip directory (folder name mtime entries rest) (plain, fresh, hi, h) =
    let behind = listed-UniqueNames ip directory rest h in
    let full = path directory name in
    let new =
      behind-fresh ip directory name rest full h (component-path directory name plain) fresh in
    let apart =
      All-mono {P = Under full} {Q = λ s. name_in s.name (listed ip directory rest) ≡ false}
        (λ s u.
          behind-fresh ip directory name rest s.name h (inner-component directory name s plain u)
            fresh)
        _ (listed-Under ip full entries) in
    if_cases UniqueNames (visible name)
      (
        rw
            (
              name_in-append full (listed ip full entries) (listed ip directory rest),
              folder-fresh ip full entries,
            )
            new,
        UniqueNames-append _ _ (listed-UniqueNames ip full entries hi) behind apart,
      )
      behind
listed-UniqueNames ip directory (other name mtime rest) (plain, fresh, h) =
    let behind = listed-UniqueNames ip directory rest h in
    let new = behind-fresh ip directory name rest _ h (component-path directory name plain) fresh in
    if_cases UniqueNames (visible name) (new, behind) behind

-- Each record names one peer, the client.
abbrev pub IsOwn : ℕ → FileNode → Type 0
IsOwn ip s = (s.num_peers ≡ 1) × (holders s ≡ ip ∷ [])

record_of-IsOwn :
    (ip : ℕ) (name : Bytes) (mtime size type : ℕ) → IsOwn ip (record_of ip name mtime size type)
unfolding record_of
record_of-IsOwn ip name mtime size type =
    (refl, take_one-set ip zero_peers (omega (arith, length-zero_peers)))

listed-IsOwn :
    (ip : ℕ) (directory : Bytes) (entries : Entries) → All (IsOwn ip) (listed ip directory entries)
unfolding listed
listed-IsOwn ip directory end = tt
listed-IsOwn ip directory (file name mtime size rest) =
    let behind = listed-IsOwn ip directory rest in
    if_cases (All (IsOwn ip)) (visible name) (record_of-IsOwn ip _ mtime size file_type, behind)
      behind
listed-IsOwn ip directory (folder name mtime entries rest) =
    let behind = listed-IsOwn ip directory rest in
    let inner = listed-IsOwn ip (path directory name) entries in
    if_cases (All (IsOwn ip)) (visible name)
      (record_of-IsOwn ip _ mtime 0 folder_type, All-append _ _ _ inner behind) behind
listed-IsOwn ip directory (other name mtime rest) =
    let behind = listed-IsOwn ip directory rest in
    if_cases (All (IsOwn ip)) (visible name) (record_of-IsOwn ip _ mtime 0 0, behind) behind

-- The table of a client: the first node has its address.
abbrev pub client_table : ℕ → List FileNode → FileTable
client_table ip nodes = record {
  head = record (record_of ip [] 0 0 0) { num_peers = 0 };
  nodes = nodes;
}

-- What an update leaves in the monitor.
pub record Refreshed (now ip : ℕ) (nodes : List FileNode) (m : Monitor) : Type 0 where
  pub table : m.table ≡ client_table ip nodes
  pub sound : IsClientTable m.table.nodes
  pub own : All (IsOwn ip) m.table.nodes
  pub time : m.last_table_update_time ≡ now
  pub enabled : m.update_enable ≡ true

-- While updates are enabled, `file_table_update` of a directory whose paths fit a record, and of
-- which no file system entry stands twice, lists all visible entries. Its table is one of a client:
-- no name twice, and the client the only peer of each. The time becomes the present, and the
-- answer says whether the directory, or a file or a folder listed, was modified since the last time.
pub file_table_update-Refreshed :
    (now ip : ℕ) (name : Bytes) (directory : Directory) (m : Monitor)
    → m.update_enable ≡ true
    → now < 2 ^ 32
    → Fits name directory.entries
    → Tidy directory.entries
    → let nodes = listed ip name directory.entries in
      (m' : Monitor) × (file_table_update now ip name (opened directory) m
        ≡ some (
          leb m.last_table_update_time directory.mtime || any_newer m.last_table_update_time nodes,
          m',
        ))
      × Refreshed now ip nodes m'
unfolding file_table_update
file_table_update-Refreshed now ip name directory m enabled small fits tidy =
    let own = listed-IsOwn ip name directory.entries in
    (
      record m {
        table = record {
          head = record (record_of ip [] 0 0 0) { num_peers = 0 };
          nodes = listed ip name directory.entries;
        };
        last_table_update_time = now % 2 ^ 32;
      },
      rw (enabled, file_table_update_helper-listed m.last_table_update_time ip name directory fits)
          refl,
      record {
        table = refl;
        sound = record {
          one_peer = All-mono {P = IsOwn ip} (λ s o. o.0) _ own;
          unique = listed-UniqueNames ip name directory.entries tidy;
        };
        own = own;
        time = omega arith;
        enabled = enabled;
      },
    )
