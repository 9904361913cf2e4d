-- ===== src/Transfer/Piecewise.antt =====
-- Whatever happens to a transfer, the temporary file stays a part of its piece; without a fault it
-- is the piece.
use networks_dartsync.Base.{
  ℕ, zero, suc, ◌+◌, ◌-◌, ◌≤◌, ◌<◌, ◌≡◌, refl, sym, ap, ◌∙◌, ◌++◌, append_assoc, append-nil, false,
  ltb, arith, length, take, length-append, take-append, take-append_add, take_all, take-nil, dec_le,
  dec_lt, le→ltb, ltb→lt, Bool-cases, inl, inr,
}
use networks_dartsync.Base.Bytes.{Bytes}
use networks_dartsync.Compression.{Zlib, IsLawful}
use networks_dartsync.Wire.{Socket, to_bytes}
use networks_dartsync.Wire.Length.{length-to_bytes}
use networks_dartsync.Transfer.{
  long_size, Verdict, finished, out_of_fuel, Download, on_end, stop, download_loop,
}
use networks_dartsync.Transfer.Frames.{Frames, none_left, frame}
use networks_dartsync.Transfer.Receiving.{no_header, whole_block, cut_block}

-- `s` is a first part of `whole`.
abbrev pub IsPart : Bytes → Bytes → Type 0
IsPart s whole = (k : ℕ) × (s ≡ take k whole)

-- The temporary file has grown by a first part of the content.
abbrev pub GrownBy : Bytes → Bytes → Download → Type 0
GrownBy temp content d = (k : ℕ) × (d.temp ≡ temp ++ take k content)

unchanged : (temp content : Bytes) (v : Verdict) → GrownBy temp content (stop temp v)
unchanged temp content v = (0, sym (append-nil temp))

grown_more :
    (temp block rest : Bytes) (d : Download)
    → GrownBy (temp ++ block) rest d
    → GrownBy temp (block ++ rest) d
grown_more temp block rest d (k, e) = (
  length block + k,
  e
      ∙ append_assoc temp block (take k rest)
      ∙ ap (λ t. temp ++ t) (sym (take-append_add k block rest)),
)

module _ (z : Zlib) (L : IsLawful z) where
  done_early :
      (fuel file_len downloaded room : ℕ) (temp : Bytes) (s : Socket)
      → file_len ≤ downloaded
      → download_loop z (suc fuel) file_len downloaded room temp s ≡ stop temp finished
  unfolding download_loop
  done_early fuel file_len downloaded room temp s h = ground arith

  no_fuel :
      (file_len downloaded room : ℕ) (temp : Bytes) (s : Socket)
      → download_loop z zero file_len downloaded room temp s ≡ stop temp out_of_fuel
  unfolding download_loop
  no_fuel file_len downloaded room temp s = refl

  pub download_loop-GrownBy :
      (fuel file_len downloaded room : ℕ) (temp : Bytes) (s : Socket) (n : ℕ)
      {content bytes : Bytes}
      → Frames z content bytes
      → s.bytes ≡ take n bytes
      → GrownBy temp content (download_loop z fuel file_len downloaded room temp s)
  download_loop-GrownBy zero file_len downloaded room temp s n {content} f arrives =
      rw (no_fuel file_len downloaded room temp s) (unchanged temp content out_of_fuel)
  download_loop-GrownBy (suc fuel) file_len downloaded room temp s n {content} (none_left e b)
        arrives =
      elim (dec_le file_len downloaded) [
        | yes h ↦
            rw (done_early fuel file_len downloaded room temp s h) (unchanged temp content finished)
        | no h ↦
            let empty : length s.bytes < long_size =
              omega (arith, ap length (arrives ∙ ap (take n) b ∙ take-nil n)) in
            rw (no_header z fuel file_len downloaded room temp s (omega arith) empty)
              (unchanged temp content (on_end s.ending))
      ]
  download_loop-GrownBy (suc fuel) file_len downloaded room temp s n {content}
        (frame block rest c more some_bytes small coded f e b) arrives =
      elim (dec_le file_len downloaded) [
        | yes h ↦
            rw (done_early fuel file_len downloaded room temp s h) (unchanged temp content finished)
        | no h ↦
            let arrives' = arrives ∙ ap (take n) b in
            elim (dec_lt n (long_size + length c)) [
              | yes cut ↦
                  rw
                    (cut_block z L block c more small coded s n arrives' cut fuel file_len
                      downloaded room temp (omega arith))
                    (unchanged temp content (on_end s.ending))
              | no whole ↦
                  let (s2, behind) =
                    whole_block z L block c more small coded s n arrives' (omega arith) in
                  rw (behind.round fuel file_len downloaded room temp (omega arith), e)
                    (elim (Bool-cases (ltb room (length block))) [
                      | inl full ↦ rw full (
                        room,
                        ap (λ t. temp ++ t)
                            (sym (take-append room block rest (omega (arith, ltb→lt _ _ full)))),
                      )
                      | inr fits ↦ rw fits (
                          grown_more temp block rest
                            (download_loop z fuel file_len (downloaded + length block)
                              (room - length block) (temp ++ block) s2)
                            (download_loop-GrownBy fuel file_len (downloaded + length block)
                              (room - length block) (temp ++ block) s2 (n - long_size - length c) f
                              behind.bytes))
                    ])
            ]
      ]

  -- All frames arrive, and the disk takes them: the content is appended whole.
  pub download_loop-whole :
      (fuel file_len downloaded room : ℕ) (temp : Bytes) (s : Socket) {content bytes : Bytes}
      → Frames z content bytes
      → s.bytes ≡ bytes
      → length bytes < fuel
      → downloaded + length content ≡ file_len
      → length content ≤ room
      → download_loop z fuel file_len downloaded room temp s ≡ stop (temp ++ content) finished
  download_loop-whole zero file_len downloaded room temp s f arrives enough sum fits =
      absurd (omega arith)
  download_loop-whole (suc fuel) file_len downloaded room temp s (none_left e b) arrives enough sum
        fits =
      done_early fuel file_len downloaded room temp s (omega (arith, ap length e))
      ∙ ap (λ t. stop t finished) (sym (append-nil temp) ∙ ap (λ t. temp ++ t) (sym e))
  download_loop-whole (suc fuel) file_len downloaded room temp s {content} {bytes}
        (frame block rest c more some_bytes small coded f e b) arrives enough sum fits =
      let header = to_bytes long_size (length c) in
      let len_c : length content ≡ length block + length rest =
        ap length e ∙ length-append block rest in
      let len_b : length bytes ≡ long_size + (length c + length more) = omega (
        arith,
        ap length b,
        length-append header (c ++ more),
        length-append c more,
        length-to_bytes long_size (length c),
      ) in
      let all : s.bytes ≡ take (length bytes) (header ++ (c ++ more)) =
        arrives
        ∙ b
        ∙ sym (take_all (length bytes) (header ++ (c ++ more)) (omega (arith, ap length b))) in
      let (s2, behind) =
        whole_block z L block c more small coded s (length bytes) all (omega arith) in
      let more_arrives : s2.bytes ≡ more =
        behind.bytes ∙ take_all (length bytes - long_size - length c) more (omega arith) in
      let room_left : ltb room (length block) ≡ false = le→ltb room (length block) (omega arith) in
      behind.round fuel file_len downloaded room temp (omega arith)
      ∙ rw room_left (
          download_loop-whole fuel file_len (downloaded + length block) (room - length block)
            (temp ++ block) s2 f more_arrives (omega arith) (omega arith) (omega arith))
      ∙ ap (λ t. stop t finished) (append_assoc temp block rest ∙ ap (λ t. temp ++ t) (sym e))
