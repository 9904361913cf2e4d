-- ===== src/Greeting/Answers.antt =====
-- A client reads the answers of the tracker to its passwords.
use networks_dartsync.Base.{
  ℕ, zero, suc, ◌≤◌, ◌<◌, ◌≡◌, refl, sym, ap, ◌∙◌, List, [], ◌∷◌, ◌++◌, true, false, Option, none,
  some, arith, length, append_assoc, append-nil, Bool-cases, Option-cases, inl, inr,
}
use networks_dartsync.Base.Bytes.{Bytes, bytes_eq}
use networks_dartsync.Wire.{Socket, recv, received, next_cut, rest_cuts, to_bytes}
use networks_dartsync.Wire.Length.{length-to_bytes, from_bytes-to_bytes}
use networks_dartsync.TableMessage.{int_size}
use networks_dartsync.Tracker.{Authorisation, authorise}
use networks_dartsync.Session.Int.{recv-front}
use networks_dartsync.Client.{Login, send_password, login}
use networks_dartsync.Client.Agreement.{AtOnce, next_cut-AtOnce, rest_cuts-AtOnce}
use networks_dartsync.Greeting.{max_dir_len, send_replies, read_result, login_on}

-- Every call of `recv` delivers what it asks for, if it is there.
abbrev pub IsWhole : Socket → Type 0
IsWhole s = AtOnce max_dir_len s.cuts

abbrev pub after : Bytes → Socket → Socket
after rest s = record s { bytes = rest; cuts = rest_cuts s.cuts }

pub next-IsWhole : (rest : Bytes) (s : Socket) → IsWhole s → IsWhole (after rest s)
next-IsWhole rest s h = rest_cuts-AtOnce max_dir_len (omega arith) (omega arith) s.cuts h

pub one_call : (s : Socket) → IsWhole s → max_dir_len ≤ next_cut s.cuts
one_call s h = next_cut-AtOnce max_dir_len (omega arith) (omega arith) s.cuts h

pub read_result-reply :
    (reply : ℕ) (rest : Bytes) (s : Socket)
    → reply < 2
    → IsWhole s
    → s.bytes ≡ to_bytes int_size reply ++ rest
    → read_result s ≡ some (reply, after rest s)
unfolding read_result
read_result-reply reply rest s small h e =
    let x = to_bytes int_size reply in
    let l : length x ≡ int_size = length-to_bytes int_size reply in
    let read : recv int_size s ≡ received x (after rest s) =
      ap (λ (k : ℕ). recv k s) (sym l)
      ∙ recv-front x rest s (omega (arith, l)) (omega (arith, l, one_call s h)) e in
    rw (read_result, read, l, from_bytes-to_bytes int_size reply (omega arith)) refl

-- The client has read every answer, and taken the outcome from them.
pub record Answered (n : ℕ) (typed : List Bytes) (a : Authorisation) (rest : Bytes) (s : Socket)
    : Type 0 where
  pub logged : Login
  pub behind : Socket
  pub result : login_on n typed s ≡ some (logged, behind)
  pub same_login : login n typed a.replies ≡ some logged
  pub same_pass : logged.pass ≡ a.pass
  pub bytes : behind.bytes ≡ rest
  pub ending : behind.ending ≡ s.ending
  pub is_whole : IsWhole behind

pub some_eq : (a b : Authorisation) → ◌≡◌ {A = Option Authorisation} (some a) (some b) → a ≡ b
some_eq a b e = cc

pub login_on-Answered :
    (password : Bytes) (n : ℕ) (typed : List Bytes) (a : Authorisation) (rest : Bytes) (s : Socket)
    → authorise password n typed ≡ some a
    → IsWhole s
    → s.bytes ≡ send_replies a.replies ++ rest
    → Answered n typed a rest s
unfolding authorise login login_on send_replies
login_on-Answered password zero typed a rest s e h b =
    let q = some_eq (record { replies = []; pass = false }) a e in
    record {
      logged = record { sent = []; pass = false };
      behind = s;
      result = refl;
      same_login = refl;
      same_pass = ap (λ (x : Authorisation). x.pass) q;
      bytes = b ∙ ap (λ (x : Authorisation). send_replies x.replies ++ rest) (sym q);
      ending = refl;
      is_whole = h;
    }
login_on-Answered password (suc n) [] a rest s e h b = absurd (cc)
login_on-Answered password (suc n) (t ∷ typed) a rest s e h b =
    elim (Bool-cases (bytes_eq t password)) [
      | inl right ↦
          let e' : ◌≡◌ {A = Option Authorisation} (some (record { replies = 1 ∷ []; pass = true }))
              (some a) =
            rw (sym e, right) refl in
          let q = some_eq (record { replies = 1 ∷ []; pass = true }) a e' in
          let front : s.bytes ≡ to_bytes int_size 1 ++ rest =
            b
            ∙ ap (λ (x : Authorisation). send_replies x.replies ++ rest) (sym q)
            ∙ ap (λ x. x ++ rest) (append-nil (to_bytes int_size 1)) in
          let read = read_result-reply 1 rest s (omega arith) h front in
          record {
            logged = record { sent = send_password t; pass = true };
            behind = after rest s;
            result = rw (login_on, read) refl;
            same_login = ap (λ (x : Authorisation). login (suc n) (t ∷ typed) x.replies) (sym q);
            same_pass = ap (λ (x : Authorisation). x.pass) q;
            bytes = refl;
            ending = refl;
            is_whole = next-IsWhole rest s h;
          }
      | inr wrong ↦ elim (Option-cases (authorise password n typed)) [
        | inl unset ↦
            let e' : ◌≡◌ {A = Option Authorisation} none (some a) = rw (sym e, wrong, unset) refl in
            absurd (cc)
        | inr (c, asked) ↦
            let first : Authorisation = record c { replies = 0 ∷ c.replies } in
            let e' : ◌≡◌ {A = Option Authorisation} (some first) (some a) =
              rw (sym e, wrong, asked) refl in
            let q = some_eq first a e' in
            let more = send_replies c.replies ++ rest in
            let front : s.bytes ≡ to_bytes int_size 0 ++ more =
              b
              ∙ ap (λ (x : Authorisation). send_replies x.replies ++ rest) (sym q)
              ∙ append_assoc (to_bytes int_size 0) (send_replies c.replies) rest in
            let read = read_result-reply 0 more s (omega arith) h front in
            let r =
              login_on-Answered password n typed c rest (after more s) asked (next-IsWhole more s h)
                refl in
            record {
              logged = record (r.logged) { sent = send_password t ++ r.logged.sent };
              behind = r.behind;
              result = rw (login_on, read, r.result) refl;
              same_login =
                  ap (λ (x : Authorisation). login (suc n) (t ∷ typed) x.replies) (sym q)
                  ∙ rw (login, r.same_login) refl;
              same_pass = r.same_pass ∙ ap (λ (x : Authorisation). x.pass) q;
              bytes = r.bytes;
              ending = r.ending;
              is_whole = r.is_whole;
            }
      ]
    ]
