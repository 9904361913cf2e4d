-- ===== src/Folders/Mirror/Deleting.antt =====
-- The deletions of `sync_with_server` on the tree.
use networks_dartsync.Base.{
  ◌≤◌, ◌≡◌, ◌⊎◌, refl, sym, ap, ◌∙◌, List, [], ◌∷◌, true, false, ◌||◌, none, some, arith, length,
  All, All-mono, Bool-cases, inl, inr,
}
use networks_dartsync.Base.Bytes.{Bytes, bytes_eq, bytes_eq_iff, bytes_eq_refl}
use networks_dartsync.FileTable.{FileNode, name_in, folder_type}
use networks_dartsync.FileTable.Sync.View.{find, UniqueNames}
use networks_dartsync.FileTable.Sync.Prune.{find-present}
use networks_dartsync.LocalSync.{deletions}
use networks_dartsync.Folders.{Disk, Os, perform, perform_all}
use networks_dartsync.Folders.Laws.{above, IsLawful, above-length}
use networks_dartsync.Folders.Steps.{safe_delete-Without}
use networks_dartsync.Folders.Mirror.{all_arrive, base, CanName, Agrees}

-- Every record is the first one of its name.
pub find-own :
    (nodes : List FileNode) → UniqueNames nodes → All (λ s. find s.name nodes ≡ some s) nodes
unfolding find name_in
find-own [] u = tt
find-own (s ∷ nodes) (fresh, u) = (
  rw (bytes_eq_refl s.name) refl,
  All-mono (λ t h. behind t h (find-present t.name nodes h).0) nodes (find-own nodes u),
)
  where
    behind :
        (t : FileNode)
        → find t.name nodes ≡ some t
        → name_in t.name nodes ≡ true
        → find t.name (s ∷ nodes) ≡ some t
    behind t h there = elim (Bool-cases (bytes_eq t.name s.name)) [
      | inl same ↦
          let e : t.name ≡ s.name = (bytes_eq_iff t.name s.name).0 same in
          let e2 : true ≡ false = sym there ∙ ap (λ n. name_in n nodes) e ∙ fresh in cc
      | inr other ↦ rw other h
    ]

-- The base is shorter than what is within the watched directory.
pub base-length : (root q : Bytes) → base root q ≡ true → length q ≤ length root
base-length root q h = elim (Bool-cases (bytes_eq q root)) [
  | inl same ↦ let e : q ≡ root = (bytes_eq_iff q root).0 same in omega (arith, ap length e)
  | inr other ↦ omega (arith, above-length q root (ground (arith, h, other)))
]

module _ (os : Os) (L : IsLawful os) (fetch : FileNode → Bytes) (root : Bytes)
    (cs ss : List FileNode) (d0 : Disk) (A : Agrees root cs ss d0) where
  -- What is to stay: the base, and what the tracker lists.
  abbrev pub Stays : Bytes → Type 0
  Stays q = (base root q ≡ true) ⊎ ((s : FileNode) × (find q ss ≡ some s))

  not_listed : (p : Bytes) (s : FileNode) → name_in p ss ≡ false → find p ss ≡ some s → ⊥
  not_listed p s absent h = let e : true ≡ false = sym (find-present p ss h).0 ∙ absent in cc

  -- A name that the tracker does not list is not on the way to what stays.
  apart :
      (p q : Bytes)
      → CanName root p
      → name_in p ss ≡ false
      → Stays q
      → (bytes_eq q p || above p q) ≡ false
  apart p q can absent stays = elim (Bool-cases (bytes_eq q p)) [
    | inl same ↦ absurd (itself ((bytes_eq_iff q p).0 same) stays)
    | inr other ↦ elim (Bool-cases (above p q)) [
      | inl on_way ↦ absurd (way on_way stays)
      | inr off ↦ rw (other, off) refl
    ]
  ]
    where
      itself : q ≡ p → Stays q → ⊥
      itself e (inl b) =
          omega (arith, base-length root q b, above-length root p can.within, ap length e)
      itself e (inr (s, h)) = not_listed p s absent (ap (λ n. find n ss) (sym e) ∙ h)

      way : above p q ≡ true → Stays q → ⊥
      way on_way (inl b) =
          omega
            (arith, base-length root q b, above-length root p can.within, above-length p q on_way)
      way on_way (inr (s, h)) = folder (A.closed p q s h on_way)
        where
          folder :
              (base root p ≡ true)
                ⊎ ((f : FileNode) × (find p ss ≡ some f) × (f.type ≡ folder_type))
              → ⊥
          folder (inl b) = omega (arith, base-length root p b, above-length root p can.within)
          folder (inr (f, g, t)) = not_listed p f absent g

  -- The tree behind the deletions.
  pub record Deleted (todo : List FileNode) (d d' : Disk) : Type 0 where
    pub kept : (q : Bytes) → Stays q → d' q ≡ d q
    pub gone : (q : Bytes) → name_in q todo ≡ true → name_in q ss ≡ false → d' q ≡ none
    pub nothing_new : (q : Bytes) → d q ≡ none → d' q ≡ none

  pub deletions-Deleted :
      (todo : List FileNode) (d : Disk)
      → All (λ c. find c.name cs ≡ some c) todo
      → (d' : Disk) × (perform_all os (all_arrive fetch) (deletions todo ss) d ≡ some d')
        × Deleted todo d d'
  unfolding deletions perform_all perform name_in
  deletions-Deleted [] d own = (
    d,
    refl,
    record {
      kept = λ q s. refl;
      gone = λ q h a. absurd (ground (arith, h));
      nothing_new = λ q h. h;
    },
  )
  deletions-Deleted (c ∷ todo) d (here, own) = elim (Bool-cases (name_in c.name ss)) [
    | inl listed ↦
        let (d', done, r) = deletions-Deleted todo d own in
        (
          d',
          rw listed done,
          record {
            kept = r.kept;
            gone = λ q h a. r.gone q (later q h (listed_other q listed a)) a;
            nothing_new = r.nothing_new;
          },
        )
    | inr absent ↦
        let can = A.client_names c.name c here in
        let (d1, deleted, w) = safe_delete-Without os c.name d L can.path can.short in
        let (d', done, r) = deletions-Deleted todo d1 own in
        (
          d',
          rw (absent, perform_all, perform, deleted) done,
          record {
            kept = λ q s. r.kept q s ∙ w.kept q (apart c.name q can absent s);
            gone = λ q h a. elim (Bool-cases (bytes_eq q c.name)) [
              | inl same ↦ r.nothing_new q (ap d1 ((bytes_eq_iff q c.name).0 same) ∙ w.gone)
              | inr other ↦ r.gone q (later q h other) a
            ];
            nothing_new = λ q h. r.nothing_new q (w.nothing_new q h);
          },
        )
  ]
    where
      later :
          (q : Bytes)
          → (bytes_eq q c.name || name_in q todo) ≡ true
          → bytes_eq q c.name ≡ false
          → name_in q todo ≡ true
      later q h other = ground (arith, h, other)

      listed_other :
          (q : Bytes) → name_in c.name ss ≡ true → name_in q ss ≡ false → bytes_eq q c.name ≡ false
      listed_other q listed a = elim (Bool-cases (bytes_eq q c.name)) [
        | inl same ↦
            let e : q ≡ c.name = (bytes_eq_iff q c.name).0 same in
            let e2 : true ≡ false = sym listed ∙ ap (λ n. name_in n ss) (sym e) ∙ a in cc
        | inr other ↦ other
      ]
