-- ===== src/Client/Agreement.antt =====
-- `get_authorization` of src/client.c and that of src/server.c agree on the password.
use networks_dartsync.Base.{
  ℕ, zero, suc, ◌≤◌, ◌<◌, ◌≡◌, refl, sym, ap, ◌∙◌, List, [], ◌∷◌, ◌++◌, true, false, some, arith,
  length, All, length-append, append_assoc, append-nil, ◌^◌, ltb, lt→ltb, if◌then◌else◌, Bool-cases,
  inl, inr,
}
use networks_dartsync.Base.Bytes.{Bytes, bytes_eq}
use networks_dartsync.FileTable.Peers.{has}
use networks_dartsync.Wire.{Socket, received, recv, next_cut, rest_cuts, to_bytes, from_bytes}
use networks_dartsync.Wire.Length.{length-to_bytes, from_bytes-to_bytes}
use networks_dartsync.TableMessage.{int_size, c_string}
use networks_dartsync.Tracker.{Authorisation, authorise}
use networks_dartsync.Session.Int.{recv-front}
use networks_dartsync.Session.Asking.{compare, read_password, get_authorization, authorise_on}
use networks_dartsync.Client.{send_password, Login, login}

-- Every call of `recv` delivers `k` bytes, if they are there.
abbrev pub AtOnce : ℕ → List ℕ → Type 0
AtOnce k cuts = All (λ c. k ≤ suc c) cuts

-- A password that `getpass` returns, with its NUL.
abbrev pub CanType : ℕ → Bytes → Type 0
CanType k password = (has 0 password ≡ false) × (suc (length password) ≤ k)

c_string-terminated : (p : Bytes) → has 0 p ≡ false → c_string (p ++ 0 ∷ []) ≡ p
unfolding c_string has
c_string-terminated [] h = refl
c_string-terminated (c ∷ p) h = ground (arith, c_string-terminated p)

has-terminated : (p : Bytes) → has 0 (p ++ 0 ∷ []) ≡ true
unfolding has
has-terminated [] = refl
has-terminated (c ∷ p) = ground (arith, has-terminated p)

compare-typed :
    (password typed : Bytes)
    → has 0 typed ≡ false
    → compare password (typed ++ 0 ∷ []) ≡ some (bytes_eq typed password)
unfolding compare
compare-typed password typed h = rw (has-terminated typed, c_string-terminated typed h) refl

module _ (k : ℕ) (enough : 4 ≤ k) (small : k < 2 ^ 31) where
  pub next_cut-AtOnce : (cuts : List ℕ) → AtOnce k cuts → k ≤ next_cut cuts
  next_cut-AtOnce [] h = omega arith
  next_cut-AtOnce (c ∷ cuts) (p, h) = p

  pub rest_cuts-AtOnce : (cuts : List ℕ) → AtOnce k cuts → AtOnce k (rest_cuts cuts)
  rest_cuts-AtOnce [] h = tt
  rest_cuts-AtOnce (c ∷ cuts) (p, h) = h

  -- The connection behind a password.
  abbrev behind : Bytes → Socket → Socket
  behind rest s = record s { bytes = rest; cuts = rest_cuts (rest_cuts s.cuts) }

  get_authorization-typed :
      (password typed rest : Bytes) (s : Socket)
      → CanType k typed
      → AtOnce k s.cuts
      → s.bytes ≡ send_password typed ++ rest
      → get_authorization password s ≡ some (bytes_eq typed password, behind rest s)
  unfolding get_authorization read_password send_password
  get_authorization-typed password typed rest s (no_nul, short) p e =
      let x = to_bytes int_size (length typed) in
      let y = typed ++ 0 ∷ [] in
      let s1 : Socket = record s { bytes = y ++ rest; cuts = rest_cuts s.cuts } in
      let lx : length x ≡ int_size = length-to_bytes int_size (length typed) in
      let ly : length y ≡ suc (length typed) = omega (arith, length-append typed (0 ∷ [])) in
      let p1 = rest_cuts-AtOnce s.cuts p in
      let first : recv int_size s ≡ received x s1 =
        ap (λ (n : ℕ). recv n s) (sym lx)
        ∙ recv-front x (y ++ rest) s (omega (arith, lx))
            (omega (arith, lx, next_cut-AtOnce s.cuts p)) (e ∙ append_assoc x y rest) in
      let value : from_bytes x ≡ length typed =
        from_bytes-to_bytes int_size (length typed) (omega arith) in
      let second : recv (suc (length typed)) s1 ≡ received y (behind rest s) =
        ap (λ (n : ℕ). recv n s1) (sym ly)
        ∙ recv-front y rest s1 (omega (arith, ly))
            (omega (arith, ly, next_cut-AtOnce (rest_cuts s.cuts) p1)) refl in
      let fits : ltb (suc (length typed)) (2 ^ 31) ≡ true = lt→ltb _ _ (omega arith) in
      rw
        (
          get_authorization,
          first,
          lx,
          value,
          fits,
          read_password,
          second,
          compare-typed password typed no_nul,
        )
        refl

-- The passwords that are asked for: up to the right one, `n` at most.
abbrev pub tried : Bytes → ℕ → List Bytes → List Bytes
tried password zero typed = []
tried password (suc n) [] = []
tried password (suc n) (p ∷ typed) =
    if bytes_eq p password then p ∷ [] else p ∷ tried password n typed

unfoldable pub send_passwords : List Bytes → Bytes
send_passwords [] = []
send_passwords (p ∷ typed) = send_password p ++ send_passwords typed

-- Both ends finish, with the answers of the tracker for the one and the passwords of the client
-- for the other.
pub record Agreed (k : ℕ) (password : Bytes) (n : ℕ) (typed : List Bytes) (rest : Bytes)
    (s : Socket) : Type 0 where
  pub admission : Authorisation
  pub logged : Login
  pub after : Socket
  pub tracker : authorise_on password n s ≡ some (admission, after)
  pub tries : authorise password n typed ≡ some admission
  pub client : login n typed admission.replies ≡ some logged
  pub same : logged.pass ≡ admission.pass
  pub wire : logged.sent ≡ send_passwords (tried password n typed)
  pub left : after.bytes ≡ rest
  pub ending : after.ending ≡ s.ending
  pub at_once : AtOnce k after.cuts

-- A client and a tracker agree on the outcome of the authorisation. If the client has as many
-- passwords as there are tries, none of them has a NUL or is longer than the portions of the
-- connection, then the tracker reads exactly what the client sends, gives the answers of
-- `authorise` for those passwords, and the client takes the same outcome from the answers. What
-- follows on the connection is left to the session.
pub login-authorise_on :
    (k : ℕ) (password : Bytes) (n : ℕ) (typed : List Bytes) (rest : Bytes) (s : Socket)
    → 4 ≤ k
    → k < 2 ^ 31
    → n ≤ length typed
    → All (CanType k) typed
    → AtOnce k s.cuts
    → s.bytes ≡ send_passwords (tried password n typed) ++ rest
    → Agreed k password n typed rest s
unfolding authorise_on authorise login send_passwords
login-authorise_on k password zero typed rest s enough small h v p e = record {
  admission = record { replies = []; pass = false };
  logged = record { sent = []; pass = false };
  after = s;
  tracker = refl;
  tries = refl;
  client = refl;
  same = refl;
  wire = refl;
  left = e;
  ending = refl;
  at_once = p;
}
login-authorise_on k password (suc n) [] rest s enough small h v p e = absurd (omega arith)
login-authorise_on k password (suc n) (t ∷ typed) rest s enough small h (w, v) p e =
    let p2 : AtOnce k (rest_cuts (rest_cuts s.cuts)) =
      rest_cuts-AtOnce k enough small (rest_cuts s.cuts)
        (rest_cuts-AtOnce k enough small s.cuts p) in
    elim (Bool-cases (bytes_eq t password)) [
      | inl right ↦
          let sent : send_passwords (tried password (suc n) (t ∷ typed)) ≡ send_password t =
            rw right (append-nil (send_password t)) in
          let asked =
            get_authorization-typed k enough small password t rest s w p
              (e ∙ ap (λ b. b ++ rest) sent) in
          record {
            admission = record { replies = 1 ∷ []; pass = true };
            logged = record { sent = send_password t; pass = true };
            after = behind k enough small rest s;
            tracker = rw (asked, right) refl;
            tries = rw right refl;
            client = refl;
            same = refl;
            wire = sym sent;
            left = refl;
            ending = refl;
            at_once = p2;
          }
      | inr wrong ↦
          let more = send_passwords (tried password n typed) in
          let sent : send_passwords (tried password (suc n) (t ∷ typed)) ≡ send_password t ++ more =
            rw wrong refl in
          let asked =
            get_authorization-typed k enough small password t (more ++ rest) s w p
              (e ∙ ap (λ b. b ++ rest) sent ∙ append_assoc (send_password t) more rest) in
          let s1 : Socket = behind k enough small (more ++ rest) s in
          let r =
            login-authorise_on k password n typed rest s1 enough small (omega arith) v p2 refl in
          record {
            admission = record (r.admission) { replies = 0 ∷ r.admission.replies };
            logged = record (r.logged) { sent = send_password t ++ r.logged.sent };
            after = r.after;
            tracker = rw (asked, wrong, r.tracker) refl;
            tries = rw (wrong, r.tries) refl;
            client = rw r.client refl;
            same = r.same;
            wire = ap (λ b. send_password t ++ b) r.wire ∙ sym sent;
            left = r.left;
            ending = r.ending;
            at_once = r.at_once;
          }
    ]
