-- ===== src/Folders/Steps.antt =====
-- What each action does to the tree.
use mathlib.Core.Option.{some-injective}
use networks_dartsync.Base.{
  ℕ, sym, ◌∷◌, ◌^◌, length-append, ◌+◌, ◌<◌, ◌≡◌, refl, ap, ◌∙◌, [], ◌++◌, Bool, true, false, ◌||◌,
  Option, none, some, ◌==◌, arith, if◌then◌else◌, length, Bool-cases, Option-cases, inl, inr,
}
use networks_dartsync.Base.Bytes.{Bytes, codes, bytes_eq, bytes_eq_refl}
use networks_dartsync.FileTable.{FileNode}
use networks_dartsync.TempName.{copy_to_buffer}
use networks_dartsync.TempName.RoundTrip.{copy_to_buffer-some}
use networks_dartsync.TempName.Decimal.{decimal, length-decimal-le}
use networks_dartsync.Folders.{
  Node, a_file, Disk, Os, command_size, rm, safe_delete, split_at_slash, find_command, touch_size,
  touch_command, download_file,
}
use networks_dartsync.Folders.Laws.{is_folder, IsPath, above, IsLawful, above-nil, above-length}
use networks_dartsync.Folders.Making.{IsFree, with_parents, make_parents-made}

-- `d'` is the tree without `p` and what is below it. Where there was no `p`, nothing has changed.
pub record Without (p : Bytes) (d d' : Disk) : Type 0 where
  pub gone : d' p ≡ none
  pub kept : (q : Bytes) → (bytes_eq q p || above p q) ≡ false → d' q ≡ d q
  pub nothing_new : (q : Bytes) → d q ≡ none → d' q ≡ none

pub not_self : (p : Bytes) → above p p ≡ false
not_self p = elim (Bool-cases (above p p)) [
  | inl h ↦ absurd (omega (arith, above-length p p h))
  | inr h ↦ h
]

pub safe_delete-Without :
    (os : Os) (name : Bytes) (d : Disk)
    → IsLawful os
    → IsPath name
    → length name + 7 < command_size
    → (d' : Disk) × (safe_delete os name d ≡ some d') × Without name d d'
unfolding safe_delete
safe_delete-Without os name d L path short = elim (Option-cases (d name)) [
  | inl missing ↦ (
    d,
    rw (safe_delete, L.access-path name d path, missing) refl,
    record { gone = missing; kept = λ q h. refl; nothing_new = λ q h. h },
  )
  | inr (node, there) ↦
      let fits : copy_to_buffer command_size (rm ++ name) ≡ some (rm ++ name) =
        copy_to_buffer-some command_size (rm ++ name) (omega arith) in
      (
        os.system (rm ++ name) d,
        rw (safe_delete, L.access-path name d path, there, fits) refl,
        record {
          gone = L.rm-path name d name path ∙ rw (bytes_eq_refl name) refl;
          kept = λ q h. L.rm-path name d q path ∙ rw h refl;
          nothing_new = λ q h. L.rm-path name d q path ∙ rw h (both_none _);
        },
      )
]
  where
    both_none : (b : Bool) → ◌≡◌ {A = Option Node} (if b then none else none) none
    both_none true = refl
    both_none false = refl

-- The tree with the file `p` and the folders on the way to it.
abbrev pub with_file : Bytes → Bytes → Disk → Bytes → Option Node
with_file p content d q = if bytes_eq q p then some (a_file content) else with_parents p d q

split_at_slash-length :
    (s dir last : Bytes)
    → split_at_slash s ≡ some (dir, last)
    → length dir + length last + 1 ≡ length s
unfolding split_at_slash
split_at_slash-length [] dir last h = absurd (cc)
split_at_slash-length (c ∷ s) dir last h = elim (Option-cases (split_at_slash s)) [
  | inl nothing ↦ elim (Bool-cases (c == b'/')) [
    | inl here ↦
        let now : split_at_slash (c ∷ s) ≡ some ([], s) = rw (split_at_slash, nothing, here) refl in
        let e = some-injective ([], s) (dir, last) (sym now ∙ h) in
        omega (arith, ap (λ x. length x.0) e, ap (λ x. length x.1) e)
    | inr other ↦
        let now : split_at_slash (c ∷ s) ≡ none = rw (split_at_slash, nothing, other) refl in
        let bad : ◌≡◌ {A = Option (Bytes × Bytes)} none (some (dir, last)) = sym now ∙ h in
        absurd cc
  ]
  | inr ((front, rest), more) ↦
      let now : split_at_slash (c ∷ s) ≡ some (c ∷ front, rest) = rw (split_at_slash, more) refl in
      let e = some-injective (c ∷ front, rest) (dir, last) (sym now ∙ h) in
      omega (
        arith,
        split_at_slash-length s front rest more,
        ap (λ x. length x.0) e,
        ap (λ x. length x.1) e,
      )
]

above-split :
    (q s : Bytes) → above q s ≡ true → (dir last : Bytes) × (split_at_slash s ≡ some (dir, last))
unfolding split_at_slash above
above-split q [] h = absurd (ground (arith, h, above-nil q))
above-split [] (c ∷ s) h = elim (Option-cases (split_at_slash s)) [
  | inr ((front, rest), more) ↦ (c ∷ front, rest, rw (split_at_slash, more) refl)
  | inl nothing ↦
      let here : (c == b'/') ≡ true = h in ([], s, rw (split_at_slash, nothing, here) refl)
]
above-split (x ∷ q) (c ∷ s) h =
    let (front, rest, more) = above-split q s (ground (arith, h)) in
    (c ∷ front, rest, rw (split_at_slash, more) refl)

-- The command that lists the temporary files fits.
find-fits :
    (dir last : Bytes) (t : ℕ)
    → length dir + length last < 125
    → t < 2 ^ 32
    → copy_to_buffer command_size (find_command dir last t) ≡ some (find_command dir last t)
find-fits dir last t short small =
    let stamp = decimal t ++ codes "~\" > tmpt_file~" in
    let name = last ++ (codes "__*__" ++ stamp) in
    copy_to_buffer-some command_size (find_command dir last t) (
      omega (
        arith,
        short,
        length-decimal-le 9 t (omega (arith, small)),
        length-append (decimal t) (codes "~\" > tmpt_file~"),
        length-append last (codes "__*__" ++ stamp),
        length-append dir (codes " -type f -name \"" ++ name),
      ))

touch-fits :
    (date name : Bytes)
    → length date ≡ 15
    → length name < 125
    → copy_to_buffer touch_size (touch_command date name) ≡ some (touch_command date name)
touch-fits date name h short =
    copy_to_buffer-some touch_size (touch_command date name)
      (omega (arith, h, short, length-append date (codes " " ++ name)))

pub download_file-made :
    (os : Os) (content : Bytes) (s : FileNode) (d : Disk) (root : Bytes)
    → IsLawful os
    → IsPath s.name
    → above root s.name ≡ true
    → length s.name < 125
    → s.timestamp < 2 ^ 32
    → 0 < s.num_peers
    → is_folder (d s.name) ≡ false
    → ((q : Bytes) → above q s.name ≡ true → IsFree d q)
    → (d' : Disk) × (download_file os (some content) s d ≡ some d')
      × ((q : Bytes) → d' q ≡ with_file s.name content d q)
unfolding download_file above
download_file-made os content s d root L path within short stamp served no_folder free =
    let (d1, begun, each) =
      make_parents-made os L s.name [] s.name d refl path (omega (arith, short))
        (λ q h. absurd (ground (arith, above-nil q, h))) free in
    let peers : (s.num_peers == 0) ≡ false = ground arith in
    let own : d1 s.name ≡ d s.name = each s.name ∙ rw (not_self s.name) refl in
    let (dir, last, split) = above-split root s.name within in
    let listed =
      find-fits dir last s.timestamp
        (omega (arith, short, split_at_slash-length s.name dir last split)) stamp in
    let touched = touch-fits (os.date s.timestamp) s.name (L.length-date s.timestamp stamp) short in
    let after : (q : Bytes) → os.write s.name content d1 q ≡ with_file s.name content d q = λ q.
      L.write-path s.name content d1 q path (ap is_folder own ∙ no_folder)
        (λ r h. each r ∙ rw h refl)
      ∙ ap (λ o. if bytes_eq q s.name then some (a_file content) else o) (each q) in
    (
      os.system (touch_command (os.date s.timestamp) s.name) (os.write s.name content d1),
      rw (download_file, peers, begun, split, listed, touched) refl,
      λ q.
          L.touch-path (os.date s.timestamp) s.name (os.write s.name content d1) q path content
            (after s.name ∙ rw (bytes_eq_refl s.name) refl)
          ∙ after q,
    )
