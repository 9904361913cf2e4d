-- ===== src/Scan/Listed.antt =====
-- The records that a scan lists, where every path fits the name of a record.
use networks_dartsync.Base.{
  ℕ, ◌<◌, ◌≡◌, refl, sym, ap, ◌∙◌, List, [], ◌∷◌, ◌++◌, Bool, true, false, ◌||◌, Option, some,
  arith, leb, ◌==◌, ◌%◌, ◌^◌, if◌then◌else◌, length, Bool-cases, inl, inr, ◌&&◌, not,
}
use networks_dartsync.Base.Bytes.{Bytes}
use networks_dartsync.FileTable.{FileNode, file_type, folder_type}
use networks_dartsync.TempName.RoundTrip.{copy_to_buffer-some}
use networks_dartsync.TempName.{name_size}
use networks_dartsync.Scan.{
  Entries, end, file, folder, other, visible, path, record_of, Scanned, scan_entries, Directory,
  opened, file_table_update_helper,
}

unfoldable pub listed : ℕ → Bytes → Entries → List FileNode
listed ip directory end = []
listed ip directory (file name mtime size rest) =
    let behind = listed ip directory rest in
    if visible name
    then record_of ip (path directory name) mtime size file_type ∷ behind
    else behind
listed ip directory (folder name mtime entries rest) =
    let behind = listed ip directory rest in
    let inner = listed ip (path directory name) entries in
    if visible name
    then record_of ip (path directory name) mtime 0 folder_type ∷ (inner ++ behind)
    else behind
listed ip directory (other name mtime rest) =
    let behind = listed ip directory rest in
    if visible name then record_of ip (path directory name) mtime 0 0 ∷ behind else behind

-- Every path that is listed fits, and every time fits an unsigned int.
abbrev pub Fits : Bytes → Entries → Type 0
Fits directory end = Unit
Fits directory (file name mtime size rest) =
    (length (path directory name) < name_size) × (mtime < 2 ^ 32) × Fits directory rest
Fits directory (folder name mtime entries rest) =
    (length (path directory name) < name_size)
    × (mtime < 2 ^ 32)
    × Fits (path directory name) entries
    × Fits directory rest
Fits directory (other name mtime rest) =
    (length (path directory name) < name_size) × (mtime < 2 ^ 32) × Fits directory rest

-- A file or a folder that was modified since the last update.
abbrev pub is_newer : ℕ → FileNode → Bool
is_newer last s = leb last s.timestamp && not (s.type == 0)

abbrev pub any_newer : ℕ → List FileNode → Bool
any_newer last [] = false
any_newer last (s ∷ nodes) = is_newer last s || any_newer last nodes

any_newer-append :
    (last : ℕ) (xs ys : List FileNode)
    → any_newer last (xs ++ ys) ≡ (any_newer last xs || any_newer last ys)
any_newer-append last [] ys = refl
any_newer-append last (x ∷ xs) ys = ground (arith, any_newer-append last xs ys)

module _ (last ip mtime : ℕ) (name : Bytes) (small : mtime < 2 ^ 32) where
  same_time : mtime % 2 ^ 32 ≡ mtime
  same_time = omega arith

  newer_file : (size : ℕ) → is_newer last (record_of ip name mtime size file_type) ≡ leb last mtime
  unfolding record_of
  newer_file size = rw same_time (and_true (leb last mtime))
    where
      and_true : (b : Bool) → (b && true) ≡ b
      and_true b = ground arith

  newer_folder : is_newer last (record_of ip name mtime 0 folder_type) ≡ leb last mtime
  unfolding record_of newer_file
  newer_folder = newer_file 0

  newer_other : is_newer last (record_of ip name mtime 0 0) ≡ false
  unfolding record_of
  newer_other = and_false (leb last (mtime % 2 ^ 32))
    where
      and_false : (b : Bool) → (b && false) ≡ false
      and_false b = ground arith

some_scanned :
    {a b : Bool} {nodes : List FileNode}
    → a ≡ b
    → ◌≡◌ {A = Option Scanned}
        (some (record { is_updated = a; nodes = nodes }))
        (some (record { is_updated = b; nodes = nodes }))
some_scanned {nodes} e = ap (λ c. some (record { is_updated = c; nodes = nodes })) e

or_assoc : (a b c : Bool) → ((a || b) || c) ≡ (a || (b || c))
or_assoc a b c = ground arith

both_or : {a b c d : Bool} → a ≡ b → c ≡ d → (b || d) ≡ (a || c)
both_or e f = ground (arith, e, f)

scan_entries-listed :
    (last ip : ℕ) (directory : Bytes) (entries : Entries)
    → Fits directory entries
    → scan_entries last ip directory entries
      ≡ some (record {
        is_updated = any_newer last (listed ip directory entries);
        nodes = listed ip directory entries;
      })
unfolding scan_entries listed record_of
scan_entries-listed last ip directory end h = refl
scan_entries-listed last ip directory (file name mtime size rest) (short, small, h) =
    rw
      (
        scan_entries-listed last ip directory rest h,
        copy_to_buffer-some name_size (path directory name) short,
      )
      (elim (Bool-cases (visible name)) [
        | inl shown ↦ rw shown (
            some_scanned (
              ap (λ b. b || any_newer last (listed ip directory rest))
                (sym (newer_file last ip mtime (path directory name) small size))))
        | inr hidden ↦ rw hidden refl
      ])
scan_entries-listed last ip directory (folder name mtime entries rest) (short, small, hi, h) =
    rw
      (
        scan_entries-listed last ip directory rest h,
        copy_to_buffer-some name_size (path directory name) short,
        scan_entries-listed last ip (path directory name) entries hi,
      )
      (elim (Bool-cases (visible name)) [
        | inl shown ↦ rw shown (
            some_scanned (
              or_assoc (leb last mtime) _ _
              ∙ both_or (newer_folder last ip mtime (path directory name) small) (
                  any_newer-append last (listed ip (path directory name) entries)
                    (listed ip directory rest))))
        | inr hidden ↦ rw hidden refl
      ])
scan_entries-listed last ip directory (other name mtime rest) (short, small, h) =
    rw
      (
        scan_entries-listed last ip directory rest h,
        copy_to_buffer-some name_size (path directory name) short,
      )
      (elim (Bool-cases (visible name)) [
        | inl shown ↦ rw shown (
            some_scanned (
              ap (λ b. b || any_newer last (listed ip directory rest))
                (sym (newer_other last ip mtime (path directory name) small))))
        | inr hidden ↦ rw hidden refl
      ])

-- Where every path fits and the times fit an unsigned int, a scan returns the records of all
-- visible entries, and reports an update exactly if the directory itself, or a file or a folder
-- among the records, was modified since the last update.
pub file_table_update_helper-listed :
    (last ip : ℕ) (name : Bytes) (directory : Directory)
    → Fits name directory.entries
    → file_table_update_helper last ip name (opened directory)
      ≡ some (record {
        is_updated = leb last directory.mtime || any_newer last (listed ip name directory.entries);
        nodes = listed ip name directory.entries;
      })
unfolding file_table_update_helper
file_table_update_helper-listed last ip name directory h =
    rw (scan_entries-listed last ip name directory.entries h) refl
