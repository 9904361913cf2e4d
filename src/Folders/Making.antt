-- ===== src/Folders/Making.antt =====
-- `safe_add_folder` makes the folder and the folders above it.
use mathlib.Core.Path.{subst}
use networks_dartsync.Base.{
  ℕ, ◌+◌, ◌<◌, ◌≡◌, ◌⊎◌, refl, sym, ap, ◌∙◌, [], ◌∷◌, ◌++◌, Bool, true, false, ◌||◌, Option, none,
  some, ◌==◌, arith, if◌then◌else◌, length, length-append, append_assoc, append-nil, Bool-cases,
  inl, inr, ==_iff,
}
use networks_dartsync.Base.Bytes.{Bytes, bytes_eq, bytes_eq_iff, bytes_eq_refl}
use networks_dartsync.TempName.{copy_to_buffer}
use networks_dartsync.TempName.RoundTrip.{copy_to_buffer-some}
use networks_dartsync.Folders.{
  Node, a_folder, Disk, Os, command_size, mkdir, make_if_missing, make_parents, safe_add_folder,
}
use networks_dartsync.Folders.Laws.{
  is_folder, IsPath, above, slash, IsLawful, neat-front, above-append, above-front, above-nil,
}

-- No file is in the way.
abbrev pub IsFree : Disk → Bytes → Type 0
IsFree d q = (d q ≡ none) ⊎ (d q ≡ some a_folder)

abbrev FoldersAbove : Disk → Bytes → Type 0
FoldersAbove d p = (q : Bytes) → above q p ≡ true → d q ≡ some a_folder

-- The tree with one more folder.
abbrev with_folder : Bytes → Disk → Bytes → Option Node
with_folder p d q = if bytes_eq q p then some a_folder else d q

abbrev pub with_parents : Bytes → Disk → Bytes → Option Node
with_parents p d q = if above q p then some a_folder else d q

with_folder-same :
    (p : Bytes) (d : Disk) (q : Bytes) → d p ≡ some a_folder → d q ≡ with_folder p d q
with_folder-same p d q there = elim (Bool-cases (bytes_eq q p)) [
  | inl same ↦ let e : q ≡ p = (bytes_eq_iff q p).0 same in rw (e, bytes_eq_refl p) there
  | inr other ↦ rw other refl
]

-- One folder more on the way to `whole`.
module _ (whole acc : Bytes) (d d1 : Disk) (q : Bytes) (each : d1 q ≡ with_folder acc d q) where
  after_folder :
      (c : ℕ) → FoldersAbove d acc → above q (acc ++ c ∷ []) ≡ true → d1 q ≡ some a_folder
  after_folder c ready h = elim (Bool-cases (bytes_eq q acc)) [
    | inl here ↦ each ∙ rw here refl
    | inr elsewhere ↦ each ∙ rw elsewhere (ready q (ground (arith, above-append q acc c)))
  ]

  still-IsFree : IsFree d q → IsFree d1 q
  still-IsFree free = elim (Bool-cases (bytes_eq q acc)) [
    | inl here ↦ inr (each ∙ rw here refl)
    | inr elsewhere ↦ rw (each, elsewhere) free
  ]

  joined : above acc whole ≡ true → with_parents whole d1 q ≡ with_parents whole d q
  joined on_way = elim (Bool-cases (above q whole)) [
    | inl there ↦ rw there refl
    | inr not_there ↦ elim (Bool-cases (bytes_eq q acc)) [
      | inl here ↦ let e : q ≡ acc = (bytes_eq_iff q acc).0 here in absurd (ground (arith, e))
      | inr elsewhere ↦ rw not_there (each ∙ rw elsewhere refl)
    ]
  ]

module _ (os : Os) (L : IsLawful os) where
  -- The path with or without a slash behind it.
  made :
      (path p : Bytes) (d : Disk)
      → length path + 6 < command_size
      → os.opendir path d ≡ is_folder (d p)
      → ((q : Bytes) → d p ≡ none → os.system (mkdir ++ path) d q ≡ with_folder p d q)
      → IsFree d p
      → (d' : Disk) × (make_if_missing os path d ≡ some d')
        × ((q : Bytes) → d' q ≡ with_folder p d q)
  unfolding make_if_missing
  made path p d short opens makes (inl missing) =
      let fits : copy_to_buffer command_size (mkdir ++ path) ≡ some (mkdir ++ path) =
        copy_to_buffer-some command_size (mkdir ++ path) (omega arith) in
      (
        os.system (mkdir ++ path) d,
        rw (make_if_missing, opens, missing, fits) refl,
        λ q. makes q missing,
      )
  made path p d short opens makes (inr there) =
      (d, rw (make_if_missing, opens, there) refl, λ q. with_folder-same p d q there)

  -- The round of the loop at a slash.
  made_above :
      (whole folder_path name : Bytes) (d : Disk)
      → folder_path ++ b'/' ∷ name ≡ whole
      → IsPath whole
      → length whole + 6 < command_size
      → FoldersAbove d folder_path
      → IsFree d folder_path
      → (d1 : Disk) × (make_if_missing os (folder_path ++ slash) d ≡ some d1)
        × ((q : Bytes) → d1 q ≡ with_folder folder_path d q)
  made_above whole folder_path name d e whole_path short ready free =
      let path : IsPath folder_path =
        neat-front true folder_path name (subst IsPath (sym e) whole_path) in
      let l : length (folder_path ++ slash) + 6 < command_size = omega (
        arith,
        ap length e,
        length-append folder_path slash,
        length-append folder_path (b'/' ∷ name),
      ) in
      made (folder_path ++ slash) folder_path d l (L.opendir-slash folder_path d path)
        (λ q missing. L.mkdir-slash folder_path d q path missing ready) free

  -- `whole` is the name, of which `folder_path` has been read.
  pub make_parents-made :
      (whole folder_path name : Bytes) (d : Disk)
      → folder_path ++ name ≡ whole
      → IsPath whole
      → length whole + 6 < command_size
      → FoldersAbove d folder_path
      → ((q : Bytes) → above q whole ≡ true → IsFree d q)
      → (d' : Disk) × (make_parents os folder_path name d ≡ some d')
        × ((q : Bytes) → d' q ≡ with_parents whole d q)
  unfolding make_parents
  make_parents-made whole folder_path [] d e whole_path short ready free =
      let same : folder_path ≡ whole = sym (append-nil folder_path) ∙ e in
      (d, refl, λ q. kept q (subst (FoldersAbove d) same ready))
    where
      kept : (q : Bytes) → FoldersAbove d whole → d q ≡ with_parents whole d q
      kept q h = elim (Bool-cases (above q whole)) [
        | inl on_way ↦ rw on_way (h q on_way)
        | inr not_on_way ↦ rw not_on_way refl
      ]
  make_parents-made whole folder_path (c ∷ name) d e whole_path short ready free =
      let path = folder_path ++ c ∷ [] in
      let e2 : path ++ name ≡ whole = append_assoc folder_path (c ∷ []) name ∙ e in
      elim (Bool-cases (c == b'/')) [
        | inr other ↦
            let r =
              make_parents-made whole path name d e2 whole_path short
                (λ q h. ready q (ground (arith, above-append q folder_path c))) free in
            rw (make_parents, other) r
        | inl same ↦
            let is_slash : c ≡ b'/' = (==_iff c b'/').0 same in
            let on_way : above folder_path whole ≡ true =
              rw (← e, is_slash) (above-front folder_path name) in
            let (d1, begun, each1) =
              made_above whole folder_path name d (rw (← is_slash) e) whole_path short ready
                (free folder_path on_way) in
            let begun' : make_if_missing os path d ≡ some d1 = rw is_slash begun in
            let (d2, ended, each2) =
              make_parents-made whole path name d1 e2 whole_path short
                (λ q h. after_folder whole folder_path d d1 q (each1 q) c ready h)
                (λ q h. still-IsFree whole folder_path d d1 q (each1 q) (free q h)) in
            (
              d2,
              rw (make_parents, same, begun') ended,
              λ q. each2 q ∙ joined whole folder_path d d1 q (each1 q) on_way,
            )
      ]

name_counts : (name : Bytes) → (above name name || bytes_eq name name) ≡ true
name_counts name = rw (bytes_eq_refl name) (or_true (above name name))
  where
    or_true : (a : Bool) → (a || true) ≡ true
    or_true a = ground arith

-- Behind the loop, the name itself.
module _ (name : Bytes) (d d1 : Disk) (each : (q : Bytes) → d1 q ≡ with_parents name d q) where
  own-IsFree : IsFree d name → IsFree d1 name
  own-IsFree free = elim (Bool-cases (above name name)) [
    | inl there ↦ inr (each name ∙ rw there refl)
    | inr not_there ↦ rw (each name, not_there) free
  ]

  both :
      (q : Bytes)
      → with_folder name d1 q ≡ (if above q name || bytes_eq q name then some a_folder else d q)
  both q =
      ap (λ o. if bytes_eq q name then some a_folder else o) (each q)
      ∙ of (above q name) (bytes_eq q name)
    where
      of :
          (a b : Bool)
          → (if b then some a_folder else if a then some a_folder else d q)
            ≡ (if a || b then some a_folder else d q)
      of true true = refl
      of true false = refl
      of false true = refl
      of false false = refl

-- The folder and the folders above it are made, whichever of them were missing; nothing else of the
-- tree changes. This holds for a name that the shell takes as one word and that leaves room for
-- the command, if no file is in the way.
pub safe_add_folder-made :
    (os : Os) (name : Bytes) (d : Disk)
    → IsLawful os
    → IsPath name
    → length name + 6 < command_size
    → ((q : Bytes) → (above q name || bytes_eq q name) ≡ true → IsFree d q)
    → (d' : Disk) × (safe_add_folder os name d ≡ some d')
      × ((q : Bytes) → d' q ≡ (if above q name || bytes_eq q name then some a_folder else d q))
unfolding safe_add_folder above
safe_add_folder-made os name d L path short free =
    let (d1, begun, each1) =
      make_parents-made os L name [] name d refl path short
        (λ q h. absurd (ground (arith, above-nil q, h))) (λ q h. free q (ground arith)) in
    let ready : FoldersAbove d1 name = λ q h. each1 q ∙ rw h refl in
    let own : IsFree d1 name = own-IsFree name d d1 each1 (free name (name_counts name)) in
    let (d2, ended, each2) =
      made os L name name d1 short (L.opendir-path name d1 path)
        (λ q missing. L.mkdir-path name d1 q path missing ready) own in
    (d2, rw begun ended, λ q. each2 q ∙ both name d d1 each1 q)
