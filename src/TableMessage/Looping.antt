-- ===== src/TableMessage/Looping.antt =====
-- The loop of `recv_file_table` (utils/file_monitor.c) over the bytes of one record, round by round.
use networks_dartsync.Base.{
  ℕ, zero, suc, ◌+◌, ◌-◌, ◌≤◌, ◌<◌, ◌≡◌, refl, sym, ap, ◌∙◌, [], ◌++◌, true, false, arith, ◌==◌,
  length, take, drop, length-take, length-drop, append_assoc, Bool-cases, inl, inr, ◌⊎◌, take-add,
  drop-drop, append-nil, dec_lt, if◌then◌else◌,
}
use networks_dartsync.Base.Bytes.{Bytes}
use networks_dartsync.Wire.{
  Ending, closed, broken, silent, Socket, received, ended, recv, rest_cuts,
}
use networks_dartsync.Wire.Exact.{portion, next_cut-pos, recv-received}

-- Where the loop is: left with the bytes of the record; left with `*new_table = NULL`; in a `recv`
-- that waits for ever; or still in the loop.
pub data Loop : Type 0 where
  filled : Bytes → Socket → Loop
  null : Loop
  waits : Loop
  still : Loop

-- So many rounds of `while (buflen < …)`, with `buffer` what has been read and `want` what is still
-- missing. The loop is left for a negative result of `recv` only: behind the bytes of a connection
-- that the peer has closed, each `recv` returns 0.
unfoldable pub read_record : ℕ → ℕ → Bytes → Socket → Loop
read_record zero want buffer s = if want == 0 then filled buffer s else still
read_record (suc rounds) want buffer s = elim (want == 0) [
  | true ↦ filled buffer s
  | false ↦ elim (recv want s) [
    | received part s' ↦ read_record rounds (want - length part) (buffer ++ part) s'
    | ended broken ↦ null
    | ended silent ↦ waits
    | ended closed ↦ read_record rounds want buffer s
  ]
]

-- What the loop does with the bytes of a connection: it is left with the next `want` of them; or, where
-- they are fewer, the end of the connection decides.
abbrev pub Ends : ℕ → ℕ → Bytes → Socket → Type 0
Ends rounds want buffer s =
    ((want ≤ length s.bytes)
      × (s' : Socket) × (read_record rounds want buffer s ≡ filled (buffer ++ take want s.bytes) s')
      × (s'.bytes ≡ drop want s.bytes))
    ⊎ ((length s.bytes < want)
        × (((s.ending ≡ closed) × (read_record rounds want buffer s ≡ still))
            ⊎ (((s.ending ≡ broken) × (read_record rounds want buffer s ≡ null))
                ⊎ ((s.ending ≡ silent) × (read_record rounds want buffer s ≡ waits)))))

recv-ended : (want : ℕ) (s : Socket) → length s.bytes ≡ 0 → recv want s ≡ ended s.ending
unfolding recv
recv-ended want s h = ground (arith, h)

-- Behind the last byte of a closed connection no round leaves the loop.
read_record-still :
    (rounds want : ℕ) (buffer : Bytes) (s : Socket)
    → (want == 0) ≡ false
    → recv want s ≡ ended closed
    → read_record rounds want buffer s ≡ still
unfolding read_record
read_record-still zero want buffer s more h = rw more refl
read_record-still (suc rounds) want buffer s more h =
    rw (read_record, more, h) (read_record-still rounds want buffer s more h)

-- The connection has no byte left, and one is missing.
empty-Ends :
    (rounds want : ℕ) (buffer : Bytes) (s : Socket) (e : Ending)
    → s.ending ≡ e
    → (want == 0) ≡ false
    → recv want s ≡ ended e
    → ((s.ending ≡ closed) × (read_record (suc rounds) want buffer s ≡ still))
      ⊎ (((s.ending ≡ broken) × (read_record (suc rounds) want buffer s ≡ null))
          ⊎ ((s.ending ≡ silent) × (read_record (suc rounds) want buffer s ≡ waits)))
unfolding read_record
empty-Ends rounds want buffer s closed e more h =
    inl (e, read_record-still (suc rounds) want buffer s more h)
empty-Ends rounds want buffer s broken e more h = inr (inl (e, rw (read_record, more, h) refl))
empty-Ends rounds want buffer s silent e more h = inr (inr (e, rw (read_record, more, h) refl))

-- A round that reads the next `k` bytes.
round-Ends :
    (rounds want k : ℕ) (buffer : Bytes) (s s' : Socket)
    → k ≤ want
    → k ≤ length s.bytes
    → s'.bytes ≡ drop k s.bytes
    → s'.ending ≡ s.ending
    → read_record (suc rounds) want buffer s
      ≡ read_record rounds (want - k) (buffer ++ take k s.bytes) s'
    → Ends rounds (want - k) (buffer ++ take k s.bytes) s'
    → Ends (suc rounds) want buffer s
round-Ends rounds want k buffer s s' h l left same goes (inl (enough, s2, read, rest)) =
    let sum : k + (want - k) ≡ want = omega arith in
    let bytes =
      append_assoc buffer (take k s.bytes) (take (want - k) s'.bytes)
      ∙ ap (λ t. buffer ++ (take k s.bytes ++ take (want - k) t)) left
      ∙ ap (λ t. buffer ++ t) (sym (take-add k (want - k) s.bytes))
      ∙ ap (λ (n : ℕ). buffer ++ take n s.bytes) sum in
    inl (
      omega (arith, enough, ap length left, length-drop k s.bytes),
      s2,
      goes ∙ read ∙ ap (λ t. filled t s2) bytes,
      rest
          ∙ ap (drop (want - k)) left
          ∙ drop-drop k (want - k) s.bytes
          ∙ ap (λ (n : ℕ). drop n s.bytes) sum,
    )
round-Ends rounds want k buffer s s' h l left same goes (inr (fewer, ends)) = inr (
  omega (arith, fewer, ap length left, length-drop k s.bytes),
  elim ends [
    | inl (e, q) ↦ inl (sym same ∙ e, goes ∙ q)
    | inr (inl (e, q)) ↦ inr (inl (sym same ∙ e, goes ∙ q))
    | inr (inr (e, q)) ↦ inr (inr (sym same ∙ e, goes ∙ q))
  ],
)

loop-Ends :
    (rounds want : ℕ) (buffer : Bytes) (s : Socket) → want ≤ rounds → Ends rounds want buffer s
unfolding read_record
loop-Ends zero want buffer s h =
    let z : want ≡ 0 = omega arith in
    rw z (inl (omega arith, s, ap (λ t. filled t s) (sym (append-nil buffer)), refl))
loop-Ends (suc rounds) want buffer s h = elim (Bool-cases (want == 0)) [
  | inl done ↦
      let z : want ≡ 0 = ground arith in
      rw z (inl (omega arith, s, ap (λ t. filled t s) (sym (append-nil buffer)), refl))
  | inr more ↦ elim (dec_lt 0 (length s.bytes)) [
    | no nothing ↦
        let z : length s.bytes ≡ 0 = omega (arith, nothing) in
        inr (
          ground (arith, z, more),
          empty-Ends rounds want buffer s s.ending refl more (recv-ended want s z),
        )
    | yes some_left ↦
        let k = portion want s in
        let s' : Socket = record s { bytes = drop k s.bytes; cuts = rest_cuts s.cuts } in
        let some_want : 0 < want = ground (arith, more) in
        let pos : 0 < k = ground (arith, next_cut-pos s.cuts) in
        let l : k ≤ want = ground arith in
        let m : k ≤ length s.bytes = ground arith in
        let read = recv-received want s some_left in
        let n : length (take k s.bytes) ≡ k = omega (arith, length-take k s.bytes, m) in
        let goes : read_record (suc rounds) want buffer s
            ≡ read_record rounds (want - k) (buffer ++ take k s.bytes) s' =
          rw (read_record, more, read)
            (ap (λ (j : ℕ). read_record rounds (want - j) (buffer ++ take k s.bytes) s') n) in
        round-Ends rounds want k buffer s s' l m refl refl goes
          (loop-Ends rounds (want - k) (buffer ++ take k s.bytes) s' (omega (arith, pos, l)))
  ]
]

-- However the bytes are delivered, the loop over the bytes of a record is left with the next `want`
-- bytes of the connection. Where there are fewer, it is left with `NULL` if the connection is broken,
-- and waits for ever if the peer is silent; if the peer has closed the connection, it is never left:
-- it still runs, whatever the number of rounds.
pub read_record-Ends :
    (rounds want : ℕ) (s : Socket)
    → want ≤ rounds
    → ((want ≤ length s.bytes)
        × (s' : Socket) × (read_record rounds want [] s ≡ filled (take want s.bytes) s')
        × (s'.bytes ≡ drop want s.bytes))
      ⊎ ((length s.bytes < want)
          × (((s.ending ≡ closed) × (read_record rounds want [] s ≡ still))
              ⊎ (((s.ending ≡ broken) × (read_record rounds want [] s ≡ null))
                  ⊎ ((s.ending ≡ silent) × (read_record rounds want [] s ≡ waits)))))
read_record-Ends rounds want s h = loop-Ends rounds want [] s h
