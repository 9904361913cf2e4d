-- ===== src/Wire/Exact.antt =====
-- The reading loop returns the next bytes of the connection, however they are delivered.
use networks_dartsync.Base.{
  All, ℕ, zero, suc, ◌+◌, ◌-◌, ◌≤◌, ◌<◌, ◌≡◌, refl, ap, ◌∙◌, sym, List, [], ◌∷◌, ◌++◌, append_assoc,
  append-nil, arith, length, take, drop, min, length-take, length-drop, take-add, drop-drop, dec_lt,
  length-append, take-take, drop-take, take-length_append, drop-length_append,
}
use networks_dartsync.Base.Bytes.{Bytes}
use networks_dartsync.Wire.{
  Socket, received, next_cut, rest_cuts, recv, Reading, got, lost, recv_loop, recv_exact,
}

abbrev pub portion : ℕ → Socket → ℕ
portion want s = min want (min (next_cut s.cuts) (length s.bytes))

pub next_cut-pos : (cuts : List ℕ) → 0 < next_cut cuts
next_cut-pos [] = omega arith
next_cut-pos (c ∷ cuts) = omega arith

pub recv-received :
    (want : ℕ) (s : Socket)
    → 0 < length s.bytes
    → recv want s
      ≡ received
          (take (portion want s) s.bytes)
          (record s { bytes = drop (portion want s) s.bytes; cuts = rest_cuts s.cuts })
unfolding recv
recv-received want s h = ground arith

-- A call of `recv` that delivers all that was asked for.
pub recv-at_once :
    (want : ℕ) (s : Socket)
    → 0 < want
    → want ≤ next_cut s.cuts
    → want ≤ length s.bytes
    → recv want s
      ≡ received
          (take want s.bytes)
          (record s { bytes = drop want s.bytes; cuts = rest_cuts s.cuts })
recv-at_once want s some_wanted one there =
    let e : portion want s ≡ want = omega arith in
    recv-received want s (omega arith)
    ∙ ap
        (λ (k : ℕ).
          received (take k s.bytes) (record s { bytes = drop k s.bytes; cuts = rest_cuts s.cuts }))
        e

-- Every call of `recv` delivers an int at least, if it is there.
abbrev pub IsPrompt : Socket → Type 0
IsPrompt s = All (λ c. 3 ≤ c) s.cuts

pub next_cut-le : (s : Socket) → IsPrompt s → 4 ≤ next_cut s.cuts
next_cut-le s h = of_cuts s.cuts h
  where
    of_cuts : (cuts : List ℕ) → All (λ c. 3 ≤ c) cuts → 4 ≤ next_cut cuts
    of_cuts [] h = omega arith
    of_cuts (c ∷ cuts) (p, h) = omega arith

pub rest_cuts-All : (cuts : List ℕ) → All (λ c. 3 ≤ c) cuts → All (λ c. 3 ≤ c) (rest_cuts cuts)
rest_cuts-All [] h = tt
rest_cuts-All (c ∷ cuts) (p, h) = h

-- A read that succeeded: the data, and what is left of the connection.
pub record Delivered (data_read : Bytes) (want : ℕ) (s : Socket) (r : Reading) : Type 0 where
  pub after : Socket
  pub result : r ≡ got data_read after
  pub left : after.bytes ≡ drop want s.bytes
  pub same_ending : after.ending ≡ s.ending
  pub prompt : IsPrompt s → IsPrompt after

-- The connection after one call of `recv`.
abbrev advance : ℕ → Socket → Socket
advance want s = record s { bytes = drop (portion want s) s.bytes; cuts = rest_cuts s.cuts }

module _ (want : ℕ) (s : Socket) (some_wanted : 0 < want) (some_left : 0 < length s.bytes) where
  portion_bounds :
      (0 < portion want s) × (portion want s ≤ want) × (portion want s ≤ length s.bytes)
  portion_bounds = omega (arith, next_cut-pos s.cuts)

  length-portion : length (take (portion want s) s.bytes) ≡ portion want s
  length-portion = omega (arith, length-take (portion want s) s.bytes)

  recv_loop_step :
      (fuel : ℕ) (acc : Bytes)
      → recv_loop (suc fuel) want acc s
        ≡ recv_loop fuel
            (want - portion want s)
            (acc ++ take (portion want s) s.bytes)
            (advance want s)
  unfolding recv_loop
  recv_loop_step fuel acc = ground (arith, recv-received want s some_left, length-portion)

  -- What the first call leaves of the bytes that were wanted.
  join_portion :
      (acc : Bytes)
      → (acc ++ take (portion want s) s.bytes)
          ++ take (want - portion want s) (drop (portion want s) s.bytes)
        ≡ acc ++ take want s.bytes
  join_portion acc =
      append_assoc acc _ _
      ∙ ap (λ t. acc ++ t)
          (sym (take-add (portion want s) (want - portion want s) s.bytes)
            ∙ ap (λ (n : ℕ). take n s.bytes) (omega (arith, portion_bounds)))

recv_loop-Delivered :
    (fuel want : ℕ) (acc : Bytes) (s : Socket)
    → want ≤ fuel
    → want ≤ length s.bytes
    → Delivered (acc ++ take want s.bytes) want s (recv_loop fuel want acc s)
unfolding recv_loop
recv_loop-Delivered zero zero acc s f h =
    rw append-nil
      (record { after = s; result = refl; left = refl; same_ending = refl; prompt = λ h. h })
recv_loop-Delivered (suc fuel) zero acc s f h =
    rw append-nil
      (record { after = s; result = refl; left = refl; same_ending = refl; prompt = λ h. h })
recv_loop-Delivered zero (suc w) acc s f h = absurd (omega arith)
recv_loop-Delivered (suc fuel) (suc w) acc s f h =
    let pos : 0 < length s.bytes = omega arith in
    let (some_read, few, fits) = portion_bounds (suc w) s (omega arith) pos in
    let k = portion (suc w) s in
    let whole : k + (suc w - k) ≡ suc w = omega arith in
    let ih =
      recv_loop-Delivered fuel (suc w - k) (acc ++ take k s.bytes) (advance (suc w) s) (omega arith)
        (omega (arith, length-drop k s.bytes)) in
    record {
      after = ih.after;
      result =
          recv_loop_step (suc w) s (omega arith) pos fuel acc
          ∙ ih.result
          ∙ ap (λ d. got d ih.after) (join_portion (suc w) s (omega arith) pos acc);
      left = ih.left ∙ drop-drop k (suc w - k) s.bytes ∙ ap (λ (n : ℕ). drop n s.bytes) whole;
      same_ending = ih.same_ending;
      prompt = λ h. ih.prompt (rest_cuts-All s.cuts h);
    }

recv_loop-lost :
    (fuel want : ℕ) (acc : Bytes) (s : Socket)
    → want ≤ fuel
    → length s.bytes < want
    → recv_loop fuel want acc s ≡ lost s.ending
recv_loop-lost fuel zero acc s f h = absurd (omega arith)
recv_loop-lost zero (suc w) acc s f h = absurd (omega arith)
recv_loop-lost (suc fuel) (suc w) acc s f h = elim (dec_lt 0 (length s.bytes)) [
  | yes pos ↦
      let (some_read, few, fits) = portion_bounds (suc w) s (omega arith) pos in
      let k = portion (suc w) s in
      recv_loop_step (suc w) s (omega arith) pos fuel acc
      ∙ recv_loop-lost fuel (suc w - k) (acc ++ take k s.bytes) (advance (suc w) s) (omega arith)
          (omega (arith, length-drop k s.bytes))
  | no empty ↦ unfold recv_loop recv in ground arith
]

-- If the connection still delivers `want` bytes, the loop returns exactly these and leaves the rest,
-- whatever portions they come in.
pub recv_exact-Delivered :
    (want : ℕ) (s : Socket)
    → want ≤ length s.bytes
    → Delivered (take want s.bytes) want s (recv_exact want s)
unfolding recv_exact
recv_exact-Delivered want s h = recv_loop-Delivered want want [] s (omega arith) h

-- If it delivers fewer, the loop ends as the connection does.
pub recv_exact-lost :
    (want : ℕ) (s : Socket) → length s.bytes < want → recv_exact want s ≡ lost s.ending
unfolding recv_exact
recv_exact-lost want s h = recv_loop-lost want want [] s (omega arith) h

-- A read of `x` from a connection that delivers the first `n` bytes of `x` and `y`.
module _ (x y : Bytes) (n : ℕ) (s : Socket) (e : s.bytes ≡ take n (x ++ y)) where
  pub recv_exact-cut : n < length x → recv_exact (length x) s ≡ lost s.ending
  recv_exact-cut h = recv_exact-lost (length x) s (rw e (omega (arith, length-take n (x ++ y))))

  pub recv_exact-front :
      length x ≤ n
      → (s' : Socket) × (recv_exact (length x) s ≡ got x s')
        × (s'.bytes ≡ take (n - length x) y)
        × (s'.ending ≡ s.ending)
        × (IsPrompt s → IsPrompt s')
  recv_exact-front h =
      let long : length x ≤ length s.bytes =
        rw e (omega (arith, length-take n (x ++ y), length-append x y)) in
      let d = recv_exact-Delivered (length x) s long in
      let whole : take (length x) s.bytes ≡ x =
        ap (take (length x)) e ∙ take-take (length x) n (x ++ y) h ∙ take-length_append x y in
      (
        d.after,
        d.result ∙ ap (λ t. got t d.after) whole,
        d.left
            ∙ ap (drop (length x)) e
            ∙ drop-take (length x) n (x ++ y)
            ∙ ap (take (n - length x)) (drop-length_append x y),
        d.same_ending,
        d.prompt,
      )
