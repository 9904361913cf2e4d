-- ===== src/Folders/Mirror/Rounds.antt =====
-- A round of the second loop of `sync_with_server` on the tree: what it finds decides what it does.
use mathlib.Core.Path.{subst}
use networks_dartsync.Base.{
  ◌≡◌, ◌⊎◌, refl, sym, ap, ◌∙◌, List, [], ◌∷◌, true, false, Option, none, some, arith, ltb,
  Bool-cases, Option-cases, inl, inr,
}
use networks_dartsync.Base.Bytes.{Bytes}
use networks_dartsync.FileTable.{FileNode, folder_type, file_type}
use networks_dartsync.FileTable.Sync.View.{find}
use networks_dartsync.FileTable.Sync.Prune.{find-present}
use networks_dartsync.LocalSync.{Action, addition, replacement, round}
use networks_dartsync.Folders.{Node, a_folder, a_file, Disk, Os, perform, perform_all}
use networks_dartsync.Folders.Laws.{is_folder, above, IsLawful}
use networks_dartsync.Folders.Making.{IsFree}
use networks_dartsync.Folders.Mirror.{all_arrive, expected, Agrees}
use networks_dartsync.Folders.Mirror.Updating.{Stepped, Stepped-refl, added, downloaded, replaced}

module _ (os : Os) (L : IsLawful os) (fetch : FileNode → Bytes) (root : Bytes)
    (cs ss : List FileNode) (d0 : Disk) (A : Agrees root cs ss d0) (s : FileNode)
    (here : find s.name ss ≡ some s) (d : Disk)
    (start : (d s.name ≡ d0 s.name) ⊎ ((s.type ≡ folder_type) × (d s.name ≡ some a_folder)))
    (free : (q : Bytes) → above q s.name ≡ true → IsFree d q) where
  abbrev Round : List Action → Option FileNode → Type 0
  Round actions c =
      (d' : Disk) × (perform_all os (all_arrive fetch) actions d ≡ some d')
      × Stepped s (expected fetch c s (d0 s.name)) d d'

  -- What the round does, and what is expected of it, computed.
  as_round :
      (actions todo : List Action) (c : Option FileNode) (value : Option Node) (d' : Disk)
      → actions ≡ todo
      → expected fetch c s (d0 s.name) ≡ value
      → perform_all os (all_arrive fetch) todo d ≡ some d'
      → Stepped s value d d'
      → Round actions c
  as_round actions todo c value d' e v done st = (
    d',
    ap (λ a. perform_all os (all_arrive fetch) a d) e ∙ done,
    subst (λ w. Stepped s w d d') (sym v) st,
  )

  file_start : s.type ≡ file_type → d s.name ≡ d0 s.name
  file_start kind = elim start [
    | inl same ↦ same
    | inr (folder, made) ↦ absurd (omega (arith, kind, folder))
  ]

  new_folder : s.type ≡ folder_type → find s.name cs ≡ none → Round (addition s ∷ []) none
  unfolding addition perform_all perform
  new_folder kind fresh =
      let own : IsFree d s.name = elim start [
        | inl same ↦ inl (same ∙ A.missing s.name s fresh here)
        | inr (folder, made) ↦ inr made
      ] in
      let (d', done, st) = added os L fetch s root (A.server_names s.name s here) d own free in
      as_round (addition s ∷ []) (Action.safe_add_folder s.name ∷ []) none (some a_folder) d'
        (ground (arith, kind)) (ground (arith, kind)) (rw (perform_all, perform, done) refl) st

  new_file : s.type ≡ file_type → find s.name cs ≡ none → Round (addition s ∷ []) none
  unfolding addition perform_all
  new_file kind fresh =
      let gone : is_folder (d s.name) ≡ false =
        ap is_folder (file_start kind ∙ A.missing s.name s fresh here) in
      let (d', done, st) =
        downloaded os L fetch s root (A.server_names s.name s here) d
          (A.fetchable s.name s here kind) (A.served s.name s here) gone free in
      as_round (addition s ∷ []) (Action.download s ∷ []) none (some (a_file (fetch s))) d'
        (ground (arith, kind)) (ground (arith, kind)) (rw (perform_all, done) refl) st

  old_folder :
      (c : FileNode)
      → s.type ≡ folder_type
      → find s.name cs ≡ some c
      → Round (replacement c s) (some c)
  unfolding replacement perform_all
  old_folder c kind have =
      let kind' : c.type ≡ folder_type = A.same_type s.name c s have here ∙ kind in
      let made : d s.name ≡ some a_folder = elim start [
        | inl same ↦ same ∙ A.folder_there s.name c s have here kind
        | inr (folder, made) ↦ made
      ] in
      as_round (replacement c s) [] (some c) (some a_folder) d (ground (arith, kind, kind'))
        (ground (arith, kind)) refl (Stepped-refl s _ d made)

  old_file :
      (c : FileNode)
      → s.type ≡ file_type
      → find s.name cs ≡ some c
      → Round (replacement c s) (some c)
  unfolding replacement perform_all perform
  old_file c kind have = elim (Bool-cases (ltb c.timestamp s.timestamp)) [
    | inl older ↦
        let (d1, d', deleted, done, st) =
          replaced os L fetch s root (A.server_names s.name s here) d
            (A.fetchable s.name s here kind) kind (A.served s.name s here) free in
        let name : c.name ≡ s.name = (find-present s.name cs have).1 in
        let deleted' : perform os (all_arrive fetch) (Action.safe_delete c.name) d ≡ some d1 =
          ap (λ n. perform os (all_arrive fetch) (Action.safe_delete n) d) name ∙ deleted in
        as_round (replacement c s) (Action.safe_delete c.name ∷ Action.download s ∷ []) (some c)
          (some (a_file (fetch s))) d' (ground (arith, kind, older)) (ground (arith, kind, older))
          (rw (perform_all, deleted', done) refl) st
    | inr newer ↦
        as_round (replacement c s) [] (some c) (d0 s.name) d (ground (arith, newer))
          (ground (arith, kind, newer)) refl (Stepped-refl s _ d (file_start kind))
  ]

  pub round-Stepped :
      (d' : Disk) × (perform_all os (all_arrive fetch) (round cs s) d ≡ some d')
      × Stepped s (expected fetch (find s.name cs) s (d0 s.name)) d d'
  unfolding round
  round-Stepped = elim (Option-cases (find s.name cs)) [
    | inl fresh ↦
        let r : Round (addition s ∷ []) none = elim (A.typed s.name s here) [
          | inl file ↦ new_file file fresh
          | inr folder ↦ new_folder folder fresh
        ] in
        rw (round, fresh) r
    | inr (c, have) ↦
        let r : Round (replacement c s) (some c) = elim (A.typed s.name s here) [
          | inl file ↦ old_file c file have
          | inr folder ↦ old_folder c folder have
        ] in
        rw (round, have) r
  ]
