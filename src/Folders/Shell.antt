-- ===== src/Folders/Shell.antt =====
-- A shell that knows three commands: what is assumed of the system can be met. It makes no temporary
-- files.
use networks_dartsync.Base.{
  ◌≡◌, refl, [], ◌∷◌, ◌++◌, Bool, true, false, ◌||◌, none, some, ◌==◌, if◌then◌else◌, arith, take,
  drop,
}
use networks_dartsync.Base.Bytes.{Bytes, codes, bytes_eq}
use networks_dartsync.Folders.{a_folder, a_file, Disk, Os, mkdir}
use networks_dartsync.Folders.Laws.{is_folder, exists, neat, above, slash, IsLawful}

-- A path without a slash behind it.
trim : Bytes → Bytes
trim [] = []
trim (c ∷ []) = if c == b'/' then [] else c ∷ []
trim (c ∷ e ∷ p) = c ∷ trim (e ∷ p)

shell : Bytes → Disk → Disk
shell command d q =
    if bytes_eq (take 6 command) mkdir
    then (if bytes_eq q (trim (drop 6 command)) then some a_folder else d q)
    else if bytes_eq (take 6 command) (codes "touch ")
    then d q
    else if bytes_eq q (drop 7 command) || above (drop 7 command) q
    then none
    else d q

pub small_os : Os
small_os = record {
  opendir = λ p d. is_folder (d (trim p));
  access = λ p d. exists (d (trim p));
  system = shell;
  write = λ p content d q. if bytes_eq q p then some (a_file content) else d q;
  remove_temporary = λ d. d;
  date = λ t. codes "197001010000.00";
}

trim-slash : (p : Bytes) → trim (p ++ slash) ≡ p
unfolding trim
trim-slash [] = refl
trim-slash (c ∷ []) = refl
trim-slash (c ∷ e ∷ p) = ground (arith, trim-slash (e ∷ p))

trim-neat : (first : Bool) (p : Bytes) → neat first p ≡ true → trim p ≡ p
unfolding trim neat
trim-neat first [] h = refl
trim-neat first (c ∷ []) h = ground arith
trim-neat first (c ∷ e ∷ p) h = ground (arith, trim-neat true (e ∷ p), trim-neat false (e ∷ p))

pub small_os-IsLawful : IsLawful small_os
unfolding small_os shell bytes_eq
small_os-IsLawful = record {
  opendir-path = λ p d h. rw (trim-neat true p h) refl;
  opendir-slash = λ p d h. rw (trim-slash p) refl;
  access-path = λ p d h. rw (trim-neat true p h) refl;
  mkdir-path = λ p d q h missing ready. rw (trim-neat true p h) refl;
  mkdir-slash = λ p d q h missing ready. rw (trim-slash p) refl;
  rm-path = λ p d q h. refl;
  write-path = λ p content d q h nothing ready. refl;
  length-date = λ t h. refl;
  touch-path = λ date p d q h content there. refl;
  remove_temporary-path = λ d q h. refl;
}
