-- ===== src/Folders/Laws.antt =====
-- What the client relies on of the system calls and of the commands: `opendir`, `access`, `mkdir`
-- and `rm -rf` for a relative path that the shell takes as one word, and `fopen` to write.
use networks_dartsync.Base.{
  ◌^◌, ℕ, ◌≡◌, [], ◌∷◌, ◌++◌, Bool, true, false, not, ◌&&◌, ◌||◌, Option, none, some, ◌==◌, leb,
  if◌then◌else◌, arith, refl, Bool-cases, inl, inr, length, ◌<◌,
}
use networks_dartsync.Base.Bytes.{Bytes, bytes_eq}
use networks_dartsync.Folders.{Node, a_folder, a_file, Disk, Os, rm, mkdir, touch_command}

abbrev pub is_folder : Option Node → Bool
is_folder none = false
is_folder (some a_folder) = true
is_folder (some (a_file s)) = false

abbrev pub exists : Option Node → Bool
exists none = false
exists (some node) = true

-- Letters, digits, `.`, `_` and `-`.
abbrev pub is_safe : ℕ → Bool
is_safe c =
    leb b'a' c && leb c b'z'
    || (leb b'A' c && leb c b'Z')
    || (leb b'0' c && leb c b'9')
    || (c == b'.' || c == b'_' || c == b'-')

-- No component is empty. `first` says whether a component begins.
unfoldable pub neat : (first : Bool) → Bytes → Bool
neat first [] = not first
neat first (c ∷ p) =
    let slash = neat true p in
    let other = neat false p in if c == b'/' then not first && slash else is_safe c && other

abbrev pub IsPath : Bytes → Type 0
IsPath p = (neat true p ≡ true)

-- `q` is a folder on the way to `p`.
unfoldable pub above : Bytes → Bytes → Bool
above [] [] = false
above [] (c ∷ p) = c == b'/'
above (x ∷ q) [] = false
above (x ∷ q) (c ∷ p) = x == c && above q p

abbrev pub slash : Bytes
slash = b'/' ∷ []

-- `mkdir` makes a folder where there is nothing, if the folders on the way to it are there, and
-- changes nothing else. `rm -rf` removes a path with all that is below it. A slash behind a path
-- makes no difference. `touch` of a file changes no content. A date that an `unsigned int` holds has
-- 15 characters.
pub record IsLawful (os : Os) : Type 0 where
  pub opendir-path : (p : Bytes) (d : Disk) → IsPath p → os.opendir p d ≡ is_folder (d p)
  pub opendir-slash :
      (p : Bytes) (d : Disk) → IsPath p → os.opendir (p ++ slash) d ≡ is_folder (d p)
  pub access-path : (p : Bytes) (d : Disk) → IsPath p → os.access p d ≡ exists (d p)
  pub mkdir-path :
      (p : Bytes) (d : Disk) (q : Bytes)
      → IsPath p
      → d p ≡ none
      → ((r : Bytes) → above r p ≡ true → d r ≡ some a_folder)
      → os.system (mkdir ++ p) d q ≡ (if bytes_eq q p then some a_folder else d q)
  pub mkdir-slash :
      (p : Bytes) (d : Disk) (q : Bytes)
      → IsPath p
      → d p ≡ none
      → ((r : Bytes) → above r p ≡ true → d r ≡ some a_folder)
      → os.system (mkdir ++ (p ++ slash)) d q ≡ (if bytes_eq q p then some a_folder else d q)
  pub rm-path :
      (p : Bytes) (d : Disk) (q : Bytes)
      → IsPath p
      → os.system (rm ++ p) d q ≡ (if bytes_eq q p || above p q then none else d q)
  pub write-path :
      (p content : Bytes) (d : Disk) (q : Bytes)
      → IsPath p
      → is_folder (d p) ≡ false
      → ((r : Bytes) → above r p ≡ true → d r ≡ some a_folder)
      → os.write p content d q ≡ (if bytes_eq q p then some (a_file content) else d q)
  pub length-date : (t : ℕ) → t < 2 ^ 32 → length (os.date t) ≡ 15
  pub touch-path :
      (date p : Bytes) (d : Disk) (q : Bytes)
      → IsPath p
      → (content : Bytes) → d p ≡ some (a_file content)
      → os.system (touch_command date p) d q ≡ d q
  pub remove_temporary-path : (d : Disk) (q : Bytes) → IsPath q → os.remove_temporary d q ≡ d q

pub neat-front :
    (first : Bool) (p rest : Bytes) → neat first (p ++ b'/' ∷ rest) ≡ true → neat first p ≡ true
unfolding neat
neat-front first [] rest h = ground arith
neat-front first (c ∷ p) rest h = elim (Bool-cases (c == b'/')) [
  | inl same ↦ ground (arith, neat-front true p rest)
  | inr other ↦ ground (arith, neat-front false p rest)
]

pub above-nil : (q : Bytes) → above q [] ≡ false
unfolding above
above-nil [] = refl
above-nil (x ∷ q) = refl

pub above-append :
    (q p : Bytes) (c : ℕ) → above q (p ++ c ∷ []) ≡ (above q p || (bytes_eq q p && c == b'/'))
unfolding above bytes_eq
above-append [] [] c = refl
above-append [] (x ∷ p) c = ground arith
above-append (y ∷ q) [] c = ground (arith, above-nil q)
above-append (y ∷ q) (x ∷ p) c = ground (arith, above-append q p c)

pub above-front : (p rest : Bytes) → above p (p ++ b'/' ∷ rest) ≡ true
unfolding above
above-front [] rest = refl
above-front (c ∷ p) rest = ground (arith, above-front p rest)

pub above-length : (q p : Bytes) → above q p ≡ true → length q < length p
unfolding above
above-length [] [] h = absurd (ground (arith, h))
above-length [] (c ∷ p) h = omega arith
above-length (x ∷ q) [] h = absurd (ground (arith, h))
above-length (x ∷ q) (c ∷ p) h = let l = above-length q p (ground (arith, h)) in omega (arith, l)
