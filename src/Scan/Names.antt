-- ===== src/Scan/Names.antt =====
-- The paths that a scan lists: each goes through one of the entries of the directory.
use networks_dartsync.Base.{
  All-mono, ℕ, suc, ◌≡◌, refl, ap, ◌∙◌, [], ◌∷◌, ◌++◌, Bool, true, false, ◌||◌, arith, ◌==◌,
  if◌then◌else◌, length, drop, All, All-append, Bool-cases, inl, inr,
}
use networks_dartsync.Base.Bytes.{Bytes, bytes_eq, bytes_eq_refl}
use networks_dartsync.FileTable.{FileNode}
use networks_dartsync.FileTable.Peers.{has}
use networks_dartsync.Scan.{Entries, end, file, folder, other, visible, path, record_of}
use networks_dartsync.Scan.Listed.{listed}

abbrev pub IsPlain : Bytes → Type 0
IsPlain name = (has b'/' name ≡ false)

unfoldable pub sibling : Bytes → Entries → Bool
sibling name end = false
sibling name (file n mtime size rest) = bytes_eq name n || sibling name rest
sibling name (folder n mtime entries rest) = bytes_eq name n || sibling name rest
sibling name (other n mtime rest) = bytes_eq name n || sibling name rest

-- No name has a slash, and no directory has a name twice.
abbrev pub Tidy : Entries → Type 0
Tidy end = Unit
Tidy (file name mtime size rest) = IsPlain name × (sibling name rest ≡ false) × Tidy rest
Tidy (folder name mtime entries rest) =
    IsPlain name × (sibling name rest ≡ false) × Tidy entries × Tidy rest
Tidy (other name mtime rest) = IsPlain name × (sibling name rest ≡ false) × Tidy rest

before_slash : Bytes → Bytes
before_slash [] = []
before_slash (c ∷ s) = if c == b'/' then [] else c ∷ before_slash s

-- The entry of the directory that a path goes through.
pub component : Bytes → Bytes → Bytes
component directory name = before_slash (drop (suc (length directory)) name)

before_slash-plain : (n : Bytes) → IsPlain n → before_slash n ≡ n
unfolding before_slash has
before_slash-plain [] h = refl
before_slash-plain (c ∷ s) h = ground (arith, before_slash-plain s)

before_slash-append : (n t : Bytes) → IsPlain n → before_slash (n ++ (b'/' ∷ t)) ≡ n
unfolding before_slash has
before_slash-append [] t h = refl
before_slash-append (c ∷ s) t h = ground (arith, before_slash-append s t)

drop-path : (directory t : Bytes) → drop (suc (length directory)) (path directory t) ≡ t
drop-path [] t = refl
drop-path (c ∷ directory) t = drop-path directory t

pub component-path : (directory n : Bytes) → IsPlain n → component directory (path directory n) ≡ n
unfolding component
component-path directory n h = rw (drop-path directory n) (before_slash-plain n h)

path-path : (directory n t : Bytes) → path (path directory n) t ≡ path directory (n ++ (b'/' ∷ t))
path-path [] n t = refl
path-path (c ∷ directory) n t = ap (λ s. c ∷ s) (path-path directory n t)

component-path-path :
    (directory n t : Bytes) → IsPlain n → component directory (path (path directory n) t) ≡ n
unfolding component
component-path-path directory n t h =
    rw (path-path directory n t, drop-path directory (n ++ (b'/' ∷ t))) (before_slash-append n t h)

-- The path of a record begins with the directory.
abbrev pub Under : Bytes → FileNode → Type 0
Under directory s = (t : Bytes) × (s.name ≡ path directory t)

-- The path of a record goes through one of the entries.
abbrev pub Through : Bytes → Entries → FileNode → Type 0
Through directory entries s = (sibling (component directory s.name) entries ≡ true)

pub listed-Under :
    (ip : ℕ) (directory : Bytes) (entries : Entries)
    → All (Under directory) (listed ip directory entries)
unfolding listed record_of
listed-Under ip directory end = tt
listed-Under ip directory (file name mtime size rest) = elim (Bool-cases (visible name)) [
  | inl shown ↦ rw shown ((name, refl), listed-Under ip directory rest)
  | inr hidden ↦ rw hidden (listed-Under ip directory rest)
]
listed-Under ip directory (folder name mtime entries rest) = elim (Bool-cases (visible name)) [
  | inl shown ↦
      let inner =
        All-mono {P = Under (path directory name)} {Q = Under directory}
          (λ s (t, e). (name ++ (b'/' ∷ t), e ∙ path-path directory name t)) _
          (listed-Under ip (path directory name) entries) in
      rw shown ((name, refl), All-append _ _ _ inner (listed-Under ip directory rest))
  | inr hidden ↦ rw hidden (listed-Under ip directory rest)
]
listed-Under ip directory (other name mtime rest) = elim (Bool-cases (visible name)) [
  | inl shown ↦ rw shown ((name, refl), listed-Under ip directory rest)
  | inr hidden ↦ rw hidden (listed-Under ip directory rest)
]

pub inner-component :
    (directory n : Bytes) (s : FileNode)
    → IsPlain n
    → Under (path directory n) s
    → component directory s.name ≡ n
inner-component directory n s h (t, e) = rw e (component-path-path directory n t h)

own_entry :
    (directory name : Bytes) (rest : Entries)
    → IsPlain name
    → (bytes_eq (component directory (path directory name)) name
        || sibling (component directory (path directory name)) rest)
      ≡ true
own_entry directory name rest plain =
    rw (component-path directory name plain, bytes_eq_refl name) refl

pub listed-Through :
    (ip : ℕ) (directory : Bytes) (entries : Entries)
    → Tidy entries
    → All (Through directory entries) (listed ip directory entries)
unfolding listed record_of sibling
listed-Through ip directory end h = tt
listed-Through ip directory (file name mtime size rest) (plain, fresh, h) =
    let behind =
      All-mono {P = Through directory rest} {Q = Through directory (file name mtime size rest)}
        (λ s q. ground arith) _ (listed-Through ip directory rest h) in
    elim (Bool-cases (visible name)) [
      | inl shown ↦ rw shown (own_entry directory name rest plain, behind)
      | inr hidden ↦ rw hidden behind
    ]
listed-Through ip directory (folder name mtime entries rest) (plain, fresh, hi, h) =
    let whole = folder name mtime entries rest in
    let behind =
      All-mono {P = Through directory rest} {Q = Through directory whole} (λ s q. ground arith) _
        (listed-Through ip directory rest h) in
    let inner =
      All-mono {P = Under (path directory name)} {Q = Through directory whole}
        (λ s u. rw (inner-component directory name s plain u, bytes_eq_refl name) refl) _
        (listed-Under ip (path directory name) entries) in
    elim (Bool-cases (visible name)) [
      | inl shown ↦ rw shown (own_entry directory name rest plain, All-append _ _ _ inner behind)
      | inr hidden ↦ rw hidden behind
    ]
listed-Through ip directory (other name mtime rest) (plain, fresh, h) =
    let behind =
      All-mono {P = Through directory rest} {Q = Through directory (other name mtime rest)}
        (λ s q. ground arith) _ (listed-Through ip directory rest h) in
    elim (Bool-cases (visible name)) [
      | inl shown ↦ rw shown (own_entry directory name rest plain, behind)
      | inr hidden ↦ rw hidden behind
    ]
