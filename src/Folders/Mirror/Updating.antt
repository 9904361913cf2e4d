-- ===== src/Folders/Mirror/Updating.antt =====
-- A round of the second loop of `sync_with_server` on the tree.
use networks_dartsync.Base.{
  ◌^◌, ◌<◌, ◌≡◌, ◌⊎◌, refl, ap, ◌∙◌, true, false, ◌||◌, Option, none, some, arith, length,
  Bool-cases, inl, inr,
}
use networks_dartsync.Base.Bytes.{Bytes, bytes_eq, bytes_eq_iff, bytes_eq_refl}
use networks_dartsync.FileTable.{FileNode, file_type}
use networks_dartsync.LocalSync.{Action}
use networks_dartsync.Folders.{
  Node, a_folder, a_file, Disk, Os, safe_delete, safe_add_folder, perform,
}
use networks_dartsync.Folders.Laws.{is_folder, above, IsLawful, above-length}
use networks_dartsync.Folders.Making.{IsFree, safe_add_folder-made}
use networks_dartsync.Folders.Steps.{safe_delete-Without, download_file-made, not_self}
use networks_dartsync.Folders.Mirror.{all_arrive, CanName}

-- The tree behind a round: the name of the round has what is expected, and of the other names only
-- folders on the way to it have been made, and what was below a file has gone.
pub record Stepped (s : FileNode) (value : Option Node) (d d' : Disk) : Type 0 where
  pub own : d' s.name ≡ value
  pub other :
      (q : Bytes)
      → bytes_eq q s.name ≡ false
      → (s.type ≡ file_type → above s.name q ≡ false)
      → (d' q ≡ d q) ⊎ ((above q s.name ≡ true) × (d' q ≡ some a_folder))
  pub nothing_new :
      (q : Bytes) → bytes_eq q s.name ≡ false → above q s.name ≡ false → d q ≡ none → d' q ≡ none

-- A round without actions.
pub Stepped-refl :
    (s : FileNode) (value : Option Node) (d : Disk) → d s.name ≡ value → Stepped s value d d
Stepped-refl s value d h = record { own = h; other = λ q e a. inl refl; nothing_new = λ q e a h. h }

module _ (os : Os) (L : IsLawful os) (fetch : FileNode → Bytes) (s : FileNode) (root : Bytes)
    (can : CanName root s.name) where
  pub added :
      (d : Disk)
      → IsFree d s.name
      → ((q : Bytes) → above q s.name ≡ true → IsFree d q)
      → (d' : Disk) × (safe_add_folder os s.name d ≡ some d') × Stepped s (some a_folder) d d'
  added d own free =
      let (d', done, each) =
        safe_add_folder-made os s.name d L can.path (omega (arith, can.short)) either in
      (
        d',
        done,
        record {
          own = each s.name ∙ rw (bytes_eq_refl s.name, not_self s.name) refl;
          other = λ q e a. elim (Bool-cases (above q s.name)) [
            | inl on_way ↦ inr (on_way, each q ∙ rw on_way refl)
            | inr off ↦ inl (each q ∙ rw (off, e) refl)
          ];
          nothing_new = λ q e a h. each q ∙ rw (a, e) h;
        },
      )
    where
      either : (q : Bytes) → (above q s.name || bytes_eq q s.name) ≡ true → IsFree d q
      either q h = elim (Bool-cases (above q s.name)) [
        | inl on_way ↦ free q on_way
        | inr off ↦
            let same : bytes_eq q s.name ≡ true = ground (arith, h, off) in
            rw ((bytes_eq_iff q s.name).0 same) own
      ]

  pub downloaded :
      (d : Disk)
      → (length s.name < 125) × (s.timestamp < 2 ^ 32)
      → 0 < s.num_peers
      → is_folder (d s.name) ≡ false
      → ((q : Bytes) → above q s.name ≡ true → IsFree d q)
      → (d' : Disk) × (perform os (all_arrive fetch) (Action.download s) d ≡ some d')
        × Stepped s (some (a_file (fetch s))) d d'
  unfolding perform
  downloaded d (short, stamp) served no_folder free =
      let (d', done, each) =
        download_file-made os (fetch s) s d root L can.path can.within short stamp served no_folder
          free in
      (
        d',
        done,
        record {
          own = each s.name ∙ rw (bytes_eq_refl s.name) refl;
          other = λ q e a. elim (Bool-cases (above q s.name)) [
            | inl on_way ↦ inr (on_way, each q ∙ rw (e, on_way) refl)
            | inr off ↦ inl (each q ∙ rw (e, off) refl)
          ];
          nothing_new = λ q e a h. each q ∙ rw (e, a) h;
        },
      )

  -- An older file is deleted first.
  pub replaced :
      (d : Disk)
      → (length s.name < 125) × (s.timestamp < 2 ^ 32)
      → s.type ≡ file_type
      → 0 < s.num_peers
      → ((q : Bytes) → above q s.name ≡ true → IsFree d q)
      → (d1 d' : Disk) × (safe_delete os s.name d ≡ some d1)
        × (perform os (all_arrive fetch) (Action.download s) d1 ≡ some d')
        × Stepped s (some (a_file (fetch s))) d d'
  replaced d fits kind served free =
      let (d1, deleted, w) = safe_delete-Without os s.name d L can.path can.short in
      let (d', done, st) =
        downloaded d1 fits served (ap is_folder w.gone)
          (λ q h. rw (w.kept q (off q h)) (free q h)) in
      (
        d1,
        d',
        deleted,
        done,
        record {
          own = st.own;
          other = λ q e a. elim (st.other q e a) [
            | inl same ↦ inl (same ∙ w.kept q (rw (e, a kind) refl))
            | inr made ↦ inr made
          ];
          nothing_new = λ q e a h. st.nothing_new q e a (w.nothing_new q h);
        },
      )
    where
      off : (q : Bytes) → above q s.name ≡ true → (bytes_eq q s.name || above s.name q) ≡ false
      off q h = elim (Bool-cases (bytes_eq q s.name)) [
        | inl same ↦
            absurd
              (omega (arith, above-length q s.name h, ap length ((bytes_eq_iff q s.name).0 same)))
        | inr other ↦ elim (Bool-cases (above s.name q)) [
          | inl below ↦ absurd (omega (arith, above-length q s.name h, above-length s.name q below))
          | inr not_below ↦ rw (other, not_below) refl
        ]
      ]
