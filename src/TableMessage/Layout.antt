-- ===== src/TableMessage/Layout.antt =====
-- A record survives its layout in memory.
use networks_dartsync.Base.{
  ℕ, zero, suc, ◌-◌, ◌*◌, ◌^◌, ◌<◌, ◌≡◌, refl, sym, ap, ◌∙◌, List, [], ◌∷◌, ◌++◌, false, arith,
  length, take, drop, replicate, All, length-append, length-replicate, take-length_append,
  drop-length_append,
}
use networks_dartsync.Base.Bytes.{Bytes}
use networks_dartsync.FileTable.{FileNode, max_peers}
use networks_dartsync.FileTable.Peers.{has}
use networks_dartsync.Wire.{to_bytes, from_bytes}
use networks_dartsync.Wire.Length.{length-to_bytes, from_bytes-to_bytes}
use networks_dartsync.TableMessage.{
  int_size, name_room, record_size, padded, c_string, words_of, words, encode_node, decode_node,
}

take_exact : (n : ℕ) (xs ys : Bytes) → length xs ≡ n → take n (xs ++ ys) ≡ xs
take_exact n xs ys e = ap (λ (k : ℕ). take k (xs ++ ys)) (sym e) ∙ take-length_append xs ys

drop_exact : (n : ℕ) (xs ys : Bytes) → length xs ≡ n → drop n (xs ++ ys) ≡ ys
drop_exact n xs ys e = ap (λ (k : ℕ). drop k (xs ++ ys)) (sym e) ∙ drop-length_append xs ys

-- A number that an int of four bytes holds, read from the front.
abbrev pub IsWord : ℕ → Type 0
IsWord n = (n < 2 ^ 32)

word_front :
    (n : ℕ) (rest : Bytes) → IsWord n → from_bytes (take int_size (to_bytes int_size n ++ rest)) ≡ n
word_front n rest h =
    ap from_bytes (take_exact int_size (to_bytes int_size n) rest (length-to_bytes int_size n))
    ∙ from_bytes-to_bytes int_size n (omega arith)

word_rest : (n : ℕ) (rest : Bytes) → drop int_size (to_bytes int_size n ++ rest) ≡ rest
word_rest n rest = drop_exact int_size (to_bytes int_size n) rest (length-to_bytes int_size n)

words-words_of : (ps : List ℕ) → All IsWord ps → words (length ps) (words_of ps) ≡ ps
unfolding words words_of
words-words_of [] h = refl
words-words_of (p ∷ ps) (w, h) =
    rw (word_front p (words_of ps) w, word_rest p (words_of ps))
      (ap (λ t. p ∷ t) (words-words_of ps h))

length-words_of : (ps : List ℕ) → length (words_of ps) ≡ 4 * length ps
unfolding words_of
length-words_of [] = refl
length-words_of (p ∷ ps) = omega (
  arith,
  length-append (to_bytes int_size p) (words_of ps),
  length-to_bytes int_size p,
  length-words_of ps,
)

c_string-zeros : (k : ℕ) → c_string (replicate k 0) ≡ []
unfolding c_string
c_string-zeros zero = refl
c_string-zeros (suc k) = refl

pub c_string-append_zeros :
    (s : Bytes) (k : ℕ) → has 0 s ≡ false → c_string (s ++ replicate k 0) ≡ s
unfolding c_string has
c_string-append_zeros [] k h = c_string-zeros k
c_string-append_zeros (c ∷ s) k h = ground (arith, c_string-append_zeros s k)

-- The numbers fit their four bytes, the name is a string that fits its array, and the array of
-- peers has its size.
pub record IsRecord (s : FileNode) : Type 0 where
  pub size : IsWord s.size
  pub no_nul : has 0 s.name ≡ false
  pub short : length s.name < name_room
  pub type : IsWord s.type
  pub timestamp : IsWord s.timestamp
  pub num_peers : IsWord s.num_peers
  pub peers_size : length s.peers ≡ max_peers
  pub peers : All IsWord s.peers

length-padded : (name : Bytes) → length name < name_room → length (padded name) ≡ name_room
length-padded name h = omega (
  arith,
  length-append name (replicate (name_room - length name) 0),
  length-replicate {A = ℕ} (name_room - length name) 0,
)

pub length-encode_node : (s : FileNode) → IsRecord s → length (encode_node s) ≡ record_size
unfolding encode_node
length-encode_node s v =
    let a = to_bytes int_size s.size in
    let b = padded s.name in
    let c = to_bytes int_size s.type in
    let d = to_bytes int_size s.timestamp in
    let e = to_bytes int_size s.num_peers in
    let f = words_of s.peers in
    omega (
      arith,
      length-append a (b ++ (c ++ (d ++ (e ++ f)))),
      length-append b (c ++ (d ++ (e ++ f))),
      length-append c (d ++ (e ++ f)),
      length-append d (e ++ f),
      length-append e f,
      length-to_bytes int_size s.size,
      length-padded s.name v.short,
      length-to_bytes int_size s.type,
      length-to_bytes int_size s.timestamp,
      length-to_bytes int_size s.num_peers,
      length-words_of s.peers,
      v.peers_size,
    )

pub decode_node-encode_node : (s : FileNode) → IsRecord s → decode_node (encode_node s) ≡ s
unfolding decode_node encode_node
decode_node-encode_node s v =
    let e = words_of s.peers in
    let d = to_bytes int_size s.num_peers ++ e in
    let c = to_bytes int_size s.timestamp ++ d in
    let b = to_bytes int_size s.type ++ c in
    let peers : words max_peers e ≡ s.peers =
      ap (λ (n : ℕ). words n e) (sym v.peers_size) ∙ words-words_of s.peers v.peers in
    rw
      (
        word_front s.size (padded s.name ++ b) v.size,
        word_rest s.size (padded s.name ++ b),
        take_exact name_room (padded s.name) b (length-padded s.name v.short),
        drop_exact name_room (padded s.name) b (length-padded s.name v.short),
        word_front s.type c v.type,
        word_rest s.type c,
        word_front s.timestamp d v.timestamp,
        word_rest s.timestamp d,
        word_front s.num_peers e v.num_peers,
        word_rest s.num_peers e,
        c_string-append_zeros s.name (name_room - length s.name) v.no_nul,
        peers,
      )
      refl
