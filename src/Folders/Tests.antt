-- ===== src/Folders/Tests.antt =====
-- A folder made in a small tree.
use networks_dartsync.Base.{
  ◌≡◌, refl, [], ◌∷◌, true, false, ◌||◌, none, some, if◌then◌else◌, arith, inl, inr, Bool-cases,
  sym, ap, ◌∙◌,
}
use networks_dartsync.Base.Bytes.{Bytes, codes, bytes_eq, bytes_eq_iff}
use networks_dartsync.Folders.{a_folder, a_file, Disk, safe_add_folder}
use networks_dartsync.Folders.Laws.{neat, above}
use networks_dartsync.Folders.Shell.{small_os, small_os-IsLawful}
use networks_dartsync.Folders.Making.{IsFree, safe_add_folder-made}

-- The folder `d` is there, with a file.
abbrev tree : Disk
unfolding bytes_eq
tree q =
    if bytes_eq q (codes "d")
    then some a_folder
    else if bytes_eq q (codes "d/f")
    then some (a_file (1 ∷ []))
    else none

tree-IsFree :
    (q : Bytes) → (above q (codes "d/s/t") || bytes_eq q (codes "d/s/t")) ≡ true → IsFree tree q
unfolding tree bytes_eq above
tree-IsFree q h = elim (Bool-cases (bytes_eq q (codes "d"))) [
  | inl top ↦ inr (rw top refl)
  | inr below ↦ elim (Bool-cases (bytes_eq q (codes "d/f"))) [
    | inl f ↦
        let e : q ≡ codes "d/f" = (bytes_eq_iff q (codes "d/f")).0 f in absurd (other_name q e h)
    | inr other ↦ inl (rw (below, other) refl)
  ]
]
  where
    other_name :
        (q : Bytes)
        → q ≡ codes "d/f"
        → (above q (codes "d/s/t") || bytes_eq q (codes "d/s/t")) ≡ true
        → ⊥
    other_name q e h =
        let f : false ≡ true =
          ap (λ p. above p (codes "d/s/t") || bytes_eq p (codes "d/s/t")) (sym e) ∙ h in
        cc

safe_add_folder-made_example :
    (d' : Disk) × (safe_add_folder small_os (codes "d/s/t") tree ≡ some d')
    × ((q : Bytes)
        → d' q ≡ (
            if above q (codes "d/s/t") || bytes_eq q (codes "d/s/t")
            then some a_folder
            else tree q))
unfolding neat tree bytes_eq above
safe_add_folder-made_example =
    safe_add_folder-made small_os (codes "d/s/t") tree small_os-IsLawful refl (omega arith)
      tree-IsFree
