-- ===== src/Transfer/Rounds.antt =====
-- The rounds of `upload_handler`.
use mathlib.Core.Path.{subst}
use networks_dartsync.Base.{
  ℕ, zero, suc, ◌+◌, ◌-◌, ◌*◌, ◌≤◌, ◌<◌, ◌≡◌, refl, ap, ◌∙◌, ◌++◌, none, some, arith, length, drop,
  length-take, Option-cases, inl, inr, dec_le,
}
use networks_dartsync.Base.Bytes.{Bytes}
use networks_dartsync.Compression.{Zlib, compress_stream}
use networks_dartsync.Wire.{to_bytes}
use networks_dartsync.Transfer.{buffer_size, long_size, Outgoing, send, block_length, upload_loop}
use networks_dartsync.Transfer.Sending.{
  remaining, block, block_bounds, length-block, read_block-block, remaining-block, send-cases, Sent,
  nothing_sent, header_sent, block-Sent, send-some, SentAll, all_sent, block-SentAll,
}

-- The first part of what is to be sent is sent, in frames, whatever fails.
module _ (z : Zlib) (file : Bytes) (start part : ℕ) (within : start + part ≤ length file) where
  upload_done :
      (fuel sent : ℕ) (conn : Outgoing)
      → part ≤ sent
      → upload_loop z fuel file start part sent conn ≡ conn
  unfolding upload_loop
  upload_done zero sent conn h = refl
  upload_done (suc fuel) sent conn h = ground arith

  module _ (fuel sent : ℕ) (conn : Outgoing) (more : sent < part) where
    uncompressed :
        compress_stream z (block file start part within sent more) ≡ none
        → upload_loop z (suc fuel) file start part sent conn ≡ conn
    unfolding upload_loop
    uncompressed e = ground (arith, read_block-block file start part within sent more)

    module _ (c : Bytes)
        (coded : compress_stream z (block file start part within sent more) ≡ some c) where
      no_length :
          send (to_bytes long_size (length c)) conn.sends_left conn.sent ≡ none
          → upload_loop z (suc fuel) file start part sent conn ≡ conn
      unfolding upload_loop
      no_length e = ground (arith, read_block-block file start part within sent more)

      no_block :
          (conn1 : Outgoing)
          → send (to_bytes long_size (length c)) conn.sends_left conn.sent ≡ some conn1
          → send c conn1.sends_left conn1.sent ≡ none
          → upload_loop z (suc fuel) file start part sent conn ≡ conn1
      unfolding upload_loop
      no_block conn1 e e' = ground (arith, read_block-block file start part within sent more)

      whole_round :
          (conn1 conn2 : Outgoing)
          → send (to_bytes long_size (length c)) conn.sends_left conn.sent ≡ some conn1
          → send c conn1.sends_left conn1.sent ≡ some conn2
          → upload_loop z (suc fuel) file start part sent conn
            ≡ upload_loop z fuel file start part (sent + block_length part sent) conn2
      unfolding upload_loop
      whole_round conn1 conn2 e e' =
          ground (arith, read_block-block file start part within sent more)

  upload_round :
      (fuel sent : ℕ) (conn : Outgoing) (more : sent < part)
      → ((conn2 : Outgoing)
          → Sent z
              (remaining file start part within (sent + block_length part sent))
              conn2.sent
              (upload_loop z fuel file start part (sent + block_length part sent) conn2))
      → Sent z
          (remaining file start part within sent)
          conn.sent
          (upload_loop z (suc fuel) file start part sent conn)
  upload_round fuel sent conn more later =
      let blk = block file start part within sent more in
      let rest = remaining file start part within (sent + block_length part sent) in
      let len = length-block file start part within sent more in
      let (some_bytes, small, few) = block_bounds file start part within sent more in
      elim (Option-cases (compress_stream z blk)) [
        | inl failed ↦ rw (uncompressed fuel sent conn more failed) (nothing_sent z _ conn)
        | inr (c, coded) ↦
            let header = to_bytes long_size (length c) in
            elim (send-cases header conn.sends_left conn.sent) [
              | inl e ↦ rw (no_length fuel sent conn more c coded e) (nothing_sent z _ conn)
              | inr (conn1, e1, s1, n1) ↦
                  rw (remaining-block file start part within sent more)
                    (elim (send-cases c conn1.sends_left conn1.sent) [
                      | inl e ↦ rw (no_block fuel sent conn more c coded conn1 e1 e) (
                          header_sent z blk rest c (omega (arith, len)) (omega (arith, len)) coded
                            conn.sent conn1 s1)
                      | inr (conn2, e2, s2, n2) ↦
                          rw (whole_round fuel sent conn more c coded conn1 conn2 e1 e2) (
                            block-Sent z blk rest c (omega (arith, len)) (omega (arith, len)) coded
                              conn.sent _
                              (subst
                                (λ t. Sent z rest t (
                                  upload_loop z fuel file start part (sent + block_length part sent)
                                    conn2))
                                (s2 ∙ ap (λ t. t ++ c) s1) (later conn2)))
                    ])
            ]
      ]

  -- Whatever fails, a first part of the frames of a first part of the piece is sent.
  pub upload_loop-Sent :
      (fuel sent : ℕ) (conn : Outgoing)
      → part ≤ fuel + sent
      → Sent z
          (remaining file start part within sent)
          conn.sent
          (upload_loop z fuel file start part sent conn)
  upload_loop-Sent zero sent conn enough =
      rw (upload_done zero sent conn (omega arith)) (nothing_sent z _ conn)
  upload_loop-Sent (suc fuel) sent conn enough = elim (dec_le part sent) [
    | yes h ↦ rw (upload_done (suc fuel) sent conn h) (nothing_sent z _ conn)
    | no h ↦ upload_round fuel sent conn (omega arith) (λ conn2.
        upload_loop-Sent fuel (sent + block_length part sent) conn2
          (omega (arith, block_bounds file start part within sent (omega arith))))
  ]

  -- Every block can be compressed, and no call of `send` fails: all frames of the piece are sent.
  module _
      (compresses : (s : Bytes)
        → length s ≤ buffer_size
        → (c : Bytes) × (compress_stream z s ≡ some c)) where
    pub upload_loop-all :
        (fuel sent : ℕ) (conn : Outgoing)
        → part ≤ fuel + sent
        → 2 * (part - sent) ≤ conn.sends_left
        → SentAll z
            (remaining file start part within sent)
            conn.sent
            (upload_loop z fuel file start part sent conn)
    upload_loop-all zero sent conn enough sends =
        rw (upload_done zero sent conn (omega arith))
          (all_sent z _ conn (omega (arith, length-take (part - sent) (drop (start + sent) file))))
    upload_loop-all (suc fuel) sent conn enough sends = elim (dec_le part sent) [
      | yes h ↦
          rw (upload_done (suc fuel) sent conn h) (
            all_sent z _ conn (omega (arith, length-take (part - sent) (drop (start + sent) file))))
      | no h ↦
          let more : sent < part = omega arith in
          let k = block_length part sent in
          let blk = block file start part within sent more in
          let rest = remaining file start part within (sent + k) in
          let len = length-block file start part within sent more in
          let (some_bytes, small, few) = block_bounds file start part within sent more in
          let (c, coded) = compresses blk (omega (arith, len)) in
          let header = to_bytes long_size (length c) in
          let conn1 : Outgoing = record {
            sent = conn.sent ++ header;
            sends_left = conn.sends_left - 1;
          } in
          let conn2 : Outgoing = record {
            sent = (conn.sent ++ header) ++ c;
            sends_left = conn.sends_left - 2;
          } in
          let later = upload_loop-all fuel (sent + k) conn2 (omega arith) (omega arith) in
          rw
            (
              remaining-block file start part within sent more,
              whole_round fuel sent conn more c coded conn1 conn2
                  (send-some header conn.sends_left (conn.sends_left - 1) conn.sent (omega arith))
                  (send-some c (conn.sends_left - 1) (conn.sends_left - 2) (conn.sent ++ header)
                    (omega arith)),
            )
            (block-SentAll z blk rest c (omega (arith, len)) (omega (arith, len)) coded conn.sent _
              later)
    ]
