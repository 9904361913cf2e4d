-- ===== src/LocalSync/Plan.antt =====
-- What `sync_with_server` does to each name.
use networks_dartsync.Base.{
  ◌≡◌, refl, ◌∙◌, List, [], ◌∷◌, ◌++◌, Bool, true, false, not, ◌||◌, Option, none, some, arith, ltb,
  ◌==◌, if◌then◌else◌, Bool-cases, Option-cases, inl, inr, append-nil,
}
use networks_dartsync.Base.Bytes.{Bytes, bytes_eq, bytes_eq_iff, bytes_eq_refl}
use networks_dartsync.FileTable.{FileNode, FileTable, file_type, folder_type, name_in}
use networks_dartsync.FileTable.Sync.View.{find, UniqueNames}
use networks_dartsync.FileTable.Sync.Prune.{find-present, name_in_of_find-none}
use networks_dartsync.LocalSync.{
  Action, safe_delete, safe_add_folder, download, remove_temporary, deletions, addition,
  replacement, round, updates, Monitor, sync_with_server,
}

abbrev pub is_about : Bytes → Action → Bool
is_about name (safe_delete n) = bytes_eq name n
is_about name (safe_add_folder n) = bytes_eq name n
is_about name (download s) = bytes_eq name s.name
is_about name remove_temporary = false

-- The actions on one name, in their order.
abbrev pub about : Bytes → List Action → List Action
about name [] = []
about name (a ∷ rest) = if is_about name a then a ∷ about name rest else about name rest

-- What has to be done about a name, from the client's and the tracker's entry: a file that the
-- tracker does not list goes, one that the client lacks is made, an older edition goes before the
-- newer one is made, and a folder stays a folder.
unfoldable pub wanted : Bytes → Option FileNode → Option FileNode → List Action
wanted name none none = []
wanted name (some c) none = safe_delete name ∷ []
wanted name none (some s) =
    if s.type == file_type then download s ∷ [] else safe_add_folder name ∷ []
wanted name (some c) (some s) =
    if s.type == folder_type
    then (if c.type == folder_type || not (ltb c.timestamp s.timestamp)
        then []
        else safe_delete name ∷ safe_add_folder name ∷ [])
    else if ltb c.timestamp s.timestamp
    then safe_delete name ∷ download s ∷ []
    else []

about-append :
    (name : Bytes) (xs ys : List Action) → about name (xs ++ ys) ≡ about name xs ++ about name ys
about-append name [] ys = refl
about-append name (a ∷ xs) ys = ground (arith, about-append name xs ys)

about-deletions_absent :
    (name : Bytes) (client server : List FileNode)
    → name_in name client ≡ false
    → about name (deletions client server) ≡ []
unfolding deletions name_in
about-deletions_absent name [] server h = refl
about-deletions_absent name (c ∷ client) server h =
    ground (arith, about-deletions_absent name client server)

about-deletions :
    (name : Bytes) (client server : List FileNode)
    → UniqueNames client
    → about name (deletions client server) ≡ (elim (find name client) [
      | none ↦ []
      | some c ↦ if name_in name server then [] else safe_delete name ∷ []
    ])
unfolding deletions find
about-deletions name [] server u = refl
about-deletions name (c ∷ client) server (fresh, u) = elim (Bool-cases (bytes_eq name c.name)) [
  | inl same ↦
      let e : name ≡ c.name = (bytes_eq_iff name c.name).0 same in
      let gone : about name (deletions client server) ≡ [] =
        rw e (about-deletions_absent c.name client server fresh) in
      ground (arith, gone, e, same)
  | inr other ↦ ground (arith, about-deletions name client server u)
]

-- A round is about its own name only.
about-round_other :
    (name : Bytes) (client : List FileNode) (s : FileNode)
    → bytes_eq name s.name ≡ false
    → about name (round client s) ≡ []
unfolding round addition replacement
about-round_other name client s other = elim (Option-cases (find s.name client)) [
  | inl fresh ↦ ground arith
  | inr (c, got) ↦
      let e : c.name ≡ s.name = (find-present s.name client got).1 in
      let other' : bytes_eq name c.name ≡ false = rw e other in ground arith
]

about-updates_absent :
    (name : Bytes) (client server : List FileNode)
    → name_in name server ≡ false
    → about name (updates client server) ≡ []
unfolding updates name_in
about-updates_absent name client [] h = refl
about-updates_absent name client (s ∷ server) h =
    about-append name (round client s) (updates client server)
    ∙ rw (about-round_other name client s (ground arith))
        (about-updates_absent name client server (ground arith))

about-round_self :
    (client : List FileNode) (s : FileNode) → about s.name (round client s) ≡ round client s
unfolding round addition replacement
about-round_self client s =
    let self : bytes_eq s.name s.name ≡ true = bytes_eq_refl s.name in
    elim (Option-cases (find s.name client)) [
      | inl fresh ↦ ground arith
      | inr (c, got) ↦
          let e : c.name ≡ s.name = (find-present s.name client got).1 in
          let self' : bytes_eq s.name c.name ≡ true = rw e self in ground arith
    ]

about-updates :
    (name : Bytes) (client server : List FileNode)
    → UniqueNames server
    → about name (updates client server)
      ≡ (elim (find name server) [ none ↦ [] | some s ↦ round client s ])
unfolding updates find
about-updates name client [] u = refl
about-updates name client (s ∷ server) (fresh, u) =
    about-append name (round client s) (updates client server)
    ∙ (elim (Bool-cases (bytes_eq name s.name)) [
      | inl same ↦
          let e : name ≡ s.name = (bytes_eq_iff name s.name).0 same in
          let gone : about name (updates client server) ≡ [] =
            rw e (about-updates_absent s.name client server fresh) in
          let mine : about name (round client s) ≡ round client s =
            rw e (about-round_self client s) in
          rw (gone, mine, same) (append-nil (round client s))
      | inr other ↦
          ground (arith, about-round_other name client s other, about-updates name client server u)
    ])

replacement-wanted :
    (name : Bytes) (c s : FileNode)
    → c.name ≡ name
    → s.name ≡ name
    → replacement c s ≡ wanted name (some c) (some s)
unfolding replacement wanted
replacement-wanted name c s e f = ground arith

wanted_of_parts :
    (name : Bytes) (client server : List FileNode)
    → UniqueNames client
    → UniqueNames server
    → about name (deletions client server) ++ about name (updates client server)
      ≡ wanted name (find name client) (find name server)
unfolding wanted round addition
wanted_of_parts name client server u v =
    rw (about-deletions name client server u, about-updates name client server v)
      (elim (Option-cases (find name client)) [
        | inl fresh ↦ elim (Option-cases (find name server)) [
          | inl gone ↦ ground arith
          | inr (s, got) ↦ let f : s.name ≡ name = (find-present name server got).1 in ground arith
        ]
        | inr (c, have) ↦
            let e : c.name ≡ name = (find-present name client have).1 in
            elim (Option-cases (find name server)) [
              | inl gone ↦ ground (arith, name_in_of_find-none name server gone)
              | inr (s, got) ↦
                  let f : s.name ≡ name = (find-present name server got).1 in
                  let h = (find-present name server got).0 in
                  ground (arith, replacement-wanted name c s e f)
            ]
      ])

-- For tables in which no name stands twice, `sync_with_server` does to each name what `wanted`
-- says, in that order and nothing else, and enables the updates again.
pub sync_with_server-wanted :
    (directory : List Action → List FileNode) (server : FileTable) (m : Monitor)
    → UniqueNames m.table.nodes
    → UniqueNames server.nodes
    → ((name : Bytes)
        → about name ((sync_with_server directory server m).actions)
          ≡ wanted name (find name m.table.nodes) (find name server.nodes))
      × ((sync_with_server directory server m).monitor.update_enable ≡ true)
unfolding sync_with_server
sync_with_server-wanted directory server m u v =
    let dels = deletions m.table.nodes server.nodes in
    let ups = updates m.table.nodes server.nodes in
    (
      λ name.
          about-append name (dels ++ ups) (remove_temporary ∷ [])
          ∙ append-nil (about name (dels ++ ups))
          ∙ about-append name dels ups
          ∙ wanted_of_parts name m.table.nodes server.nodes u v,
      ground arith,
    )
