-- ===== src/Folders/Mirror/Progress.antt =====
-- The second loop of `sync_with_server` on the tree: what holds behind each of its rounds.
use mathlib.Core.Path.{subst}
use networks_dartsync.Base.{
  ◌≤◌, ◌<◌, ◌≡◌, ◌⊎◌, refl, sym, ap, ◌∙◌, List, [], ◌∷◌, ◌++◌, true, false, none, some, arith,
  length, Bool-cases, Option-cases, inl, inr,
}
use networks_dartsync.Base.Bytes.{Bytes, bytes_eq, bytes_eq_iff}
use networks_dartsync.FileTable.{FileNode, name_in, folder_type, file_type}
use networks_dartsync.FileTable.Sync.View.{find}
use networks_dartsync.FileTable.Sync.Prune.{find-present}
use networks_dartsync.LocalSync.{Action}
use networks_dartsync.Folders.{a_folder, Disk, Os, perform, perform_all}
use networks_dartsync.Folders.Laws.{above, IsLawful, above-length}
use networks_dartsync.Folders.Making.{IsFree}
use networks_dartsync.Folders.Mirror.{all_arrive, base, expected, CanName, Agrees}
use networks_dartsync.Folders.Mirror.Deleting.{base-length}
use networks_dartsync.Folders.Mirror.Updating.{Stepped}

pub perform_all-append :
    (os : Os) (fetch : FileNode → Bytes) (xs ys : List Action) (d d' : Disk)
    → perform_all os (all_arrive fetch) xs d ≡ some d'
    → perform_all os (all_arrive fetch) (xs ++ ys) d ≡ perform_all os (all_arrive fetch) ys d'
unfolding perform_all
perform_all-append os fetch [] ys d d' h =
    ap (λ o. elim o [ none ↦ none | some e ↦ perform_all os (all_arrive fetch) ys e ]) h
perform_all-append os fetch (a ∷ xs) ys d d' h =
    elim (Option-cases (perform os (all_arrive fetch) a d)) [
      | inl fails ↦ absurd (ground (arith, h, fails))
      | inr (d1, ok) ↦
          let rest : perform_all os (all_arrive fetch) xs d1 ≡ some d' =
            sym (rw (perform_all, ok) refl) ∙ h in
          rw (perform_all, ok) (perform_all-append os fetch xs ys d1 d' rest)
    ]

module _ (os : Os) (L : IsLawful os) (fetch : FileNode → Bytes) (root : Bytes)
    (cs ss : List FileNode) (d0 : Disk) (A : Agrees root cs ss d0) where
  -- The tree while the records of `rest` are still to be looked at.
  pub record Progress (rest : List FileNode) (d : Disk) : Type 0 where
    pub base_kept : (q : Bytes) → base root q ≡ true → d q ≡ some a_folder
    pub pending :
        (q : Bytes) (s : FileNode)
        → find q ss ≡ some s
        → name_in q rest ≡ true
        → (d q ≡ d0 q) ⊎ ((s.type ≡ folder_type) × (d q ≡ some a_folder))
    pub done :
        (q : Bytes) (s : FileNode)
        → find q ss ≡ some s
        → name_in q rest ≡ false
        → d q ≡ expected fetch (find q cs) s (d0 q)
    pub gone : (q : Bytes) (c : FileNode) → find q cs ≡ some c → name_in q ss ≡ false → d q ≡ none

  -- A folder of the tracker's table is there, or nothing is in its place.
  folder-IsFree :
      (rest : List FileNode) (d : Disk) (q : Bytes) (f : FileNode)
      → Progress rest d
      → find q ss ≡ some f
      → f.type ≡ folder_type
      → IsFree d q
  folder-IsFree rest d q f P listed kind = elim (Bool-cases (name_in q rest)) [
    | inl later ↦ elim (P.pending q f listed later) [
      | inl same ↦ elim (Option-cases (find q cs)) [
        | inl fresh ↦ inl (same ∙ A.missing q f fresh listed)
        | inr (c, have) ↦ inr (same ∙ A.folder_there q c f have listed kind)
      ]
      | inr (folder, made) ↦ inr made
    ]
    | inr before ↦ inr (P.done q f listed before ∙ ground (arith, kind))
  ]

  pub above-IsFree :
      (rest : List FileNode) (d : Disk) (s : FileNode)
      → Progress rest d
      → find s.name ss ≡ some s
      → (q : Bytes) → above q s.name ≡ true
      → IsFree d q
  above-IsFree rest d s P here q h = elim (A.closed q s.name s here h) [
    | inl b ↦ inr (P.base_kept q b)
    | inr (f, listed, kind) ↦ folder-IsFree rest d q f P listed kind
  ]

  no_base : (q : Bytes) → CanName root q → base root q ≡ true → ⊥
  no_base q can b = omega (arith, base-length root q b, above-length root q can.within)

  same_record : (q : Bytes) (s t : FileNode) → find q ss ≡ some s → find q ss ≡ some t → s ≡ t
  same_record q s t h g = let e : some s ≡ some t = sym h ∙ g in cc

  -- One round, with the other names of the tracker's table.
  module _ (s : FileNode) (here : find s.name ss ≡ some s) where
    other_name : (q : Bytes) → (q ≡ s.name → ⊥) → bytes_eq q s.name ≡ false
    other_name q differs = elim (Bool-cases (bytes_eq q s.name)) [
      | inl same ↦ absurd (differs ((bytes_eq_iff q s.name).0 same))
      | inr other ↦ other
    ]

    not_below :
        (q : Bytes) (t : FileNode)
        → find q ss ≡ some t
        → s.type ≡ file_type
        → above s.name q ≡ false
    not_below q t listed kind = elim (Bool-cases (above s.name q)) [
      | inr off ↦ off
      | inl below ↦ elim (A.closed s.name q t listed below) [
        | inl b ↦ absurd (no_base s.name (A.server_names s.name s here) b)
        | inr (f, listed_f, folder) ↦
            let e : f ≡ s = same_record s.name f s listed_f here in
            absurd (omega (arith, kind, folder, ap (λ g. g.type) e))
      ]
    ]

    on_way_folder :
        (q : Bytes) (t : FileNode)
        → find q ss ≡ some t
        → above q s.name ≡ true
        → t.type ≡ folder_type
    on_way_folder q t listed on_way = elim (A.closed q s.name s here on_way) [
      | inl b ↦ absurd (no_base q (A.server_names q t listed) b)
      | inr (f, listed_f, folder) ↦ ap (λ g. g.type) (same_record q t f listed listed_f) ∙ folder
    ]

    module _ (rest : List FileNode) (d d' : Disk) (fresh : name_in s.name rest ≡ false)
        (P : Progress (s ∷ rest) d)
        (st : Stepped s (expected fetch (find s.name cs) s (d0 s.name)) d d') where
      next_base : (q : Bytes) → base root q ≡ true → d' q ≡ some a_folder
      next_base q b =
          let l = base-length root q b in
          let w = above-length root s.name (A.server_names s.name s here).within in
          let apart : bytes_eq q s.name ≡ false =
            other_name q (λ e. omega (arith, l, w, ap length e)) in
          elim (st.other q apart (λ kind. off l w)) [
            | inl same ↦ same ∙ P.base_kept q b
            | inr (on_way, made) ↦ made
          ]
        where
          off : length q ≤ length root → length root < length s.name → above s.name q ≡ false
          off l w = elim (Bool-cases (above s.name q)) [
            | inl below ↦ absurd (omega (arith, above-length s.name q below))
            | inr apart ↦ apart
          ]

      next_pending :
          (q : Bytes) (t : FileNode)
          → find q ss ≡ some t
          → name_in q rest ≡ true
          → (d' q ≡ d0 q) ⊎ ((t.type ≡ folder_type) × (d' q ≡ some a_folder))
      unfolding name_in
      next_pending q t listed later =
          let apart : bytes_eq q s.name ≡ false =
            other_name q (λ e. absurd_in (sym later ∙ ap (λ n. name_in n rest) e ∙ fresh)) in
          elim (st.other q apart (not_below q t listed)) [
            | inl same ↦ elim (P.pending q t listed (rw (apart, later) refl)) [
              | inl start ↦ inl (same ∙ start)
              | inr (folder, made) ↦ inr (folder, same ∙ made)
            ]
            | inr (on_way, made) ↦ inr (on_way_folder q t listed on_way, made)
          ]
        where
          absurd_in : true ≡ false → ⊥
          absurd_in e = cc

      next_done :
          (q : Bytes) (t : FileNode)
          → find q ss ≡ some t
          → name_in q rest ≡ false
          → d' q ≡ expected fetch (find q cs) t (d0 q)
      unfolding name_in
      next_done q t listed before = elim (Bool-cases (bytes_eq q s.name)) [
        | inl same ↦
            let e : q ≡ s.name = (bytes_eq_iff q s.name).0 same in
            let r : s ≡ t = same_record q s t (ap (λ n. find n ss) e ∙ here) listed in
            subst (λ n. d' n ≡ expected fetch (find n cs) t (d0 n)) (sym e)
              (subst (λ u. d' s.name ≡ expected fetch (find s.name cs) u (d0 s.name)) r st.own)
        | inr apart ↦ elim (st.other q apart (not_below q t listed)) [
          | inl same ↦ same ∙ P.done q t listed (rw (apart, before) refl)
          | inr (on_way, made) ↦ made ∙ sym (ground (arith, on_way_folder q t listed on_way))
        ]
      ]

      next_gone :
          (q : Bytes) (c : FileNode) → find q cs ≡ some c → name_in q ss ≡ false → d' q ≡ none
      next_gone q c have absent =
          let apart : bytes_eq q s.name ≡ false =
            other_name q (λ e. listed_not s.name here (sym (ap (λ n. name_in n ss) e) ∙ absent)) in
          st.nothing_new q apart off (P.gone q c have absent)
        where
          listed_not : (p : Bytes) {t : FileNode} → find p ss ≡ some t → name_in p ss ≡ false → ⊥
          listed_not p h a = let e : true ≡ false = sym (find-present p ss h).0 ∙ a in cc

          off : above q s.name ≡ false
          off = elim (Bool-cases (above q s.name)) [
            | inr apart ↦ apart
            | inl on_way ↦ elim (A.closed q s.name s here on_way) [
              | inl b ↦ absurd (no_base q (A.client_names q c have) b)
              | inr (f, listed, folder) ↦ absurd (listed_not q listed absent)
            ]
          ]

      pub next : Progress rest d'
      next = record {
        base_kept = next_base;
        pending = next_pending;
        done = next_done;
        gone = next_gone;
      }
