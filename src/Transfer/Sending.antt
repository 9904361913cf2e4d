-- ===== src/Transfer/Sending.antt =====
-- What `upload_handler` sends of a piece that lies within its file.
use networks_dartsync.Base.{
  ℕ, zero, suc, ◌+◌, ◌-◌, ◌≤◌, ◌<◌, ◌≡◌, ◌⊎◌, refl, sym, ap, ◌∙◌, [], ◌∷◌, ◌++◌, append_assoc,
  append-nil, none, some, arith, length, take, drop, replicate, length-take, length-drop,
  take-length_append, take-add, take-append_add, drop-drop, inl, inr,
}
use networks_dartsync.Base.Bytes.{Bytes}
use networks_dartsync.Compression.{Zlib, compress_stream}
use networks_dartsync.Wire.{to_bytes}
use networks_dartsync.Transfer.{buffer_size, long_size, Outgoing, send, read_block, block_length}
use networks_dartsync.Transfer.Frames.{Frames, none_left, frame}

module _ (file : Bytes) (start part : ℕ) (within : start + part ≤ length file) where
  -- What is still to be sent.
  abbrev pub remaining : ℕ → Bytes
  remaining sent = take (part - sent) (drop (start + sent) file)

  module _ (sent : ℕ) (more : sent < part) where
    pub block_bounds :
        (0 < block_length part sent)
        × (block_length part sent ≤ buffer_size)
        × (block_length part sent ≤ part - sent)
    block_bounds = ground arith

    -- The block is the next bytes of the file, with no padding.
    unfoldable pub block : Bytes
    block = take (block_length part sent) (drop (start + sent) file)

    pub length-block : length block ≡ block_length part sent
    unfolding block
    length-block = omega (
      arith,
      block_bounds,
      length-take (block_length part sent) (drop (start + sent) file),
      length-drop (start + sent) file,
    )

    pub read_block-block : read_block (start + sent) (block_length part sent) file ≡ block
    unfolding read_block block
    read_block-block =
        let e : block_length part sent - length block ≡ 0 = omega (arith, length-block) in
        ap (λ (n : ℕ). block ++ replicate n 0) e ∙ append-nil block

    pub remaining-block : remaining sent ≡ block ++ remaining (sent + block_length part sent)
    unfolding block
    remaining-block =
        let k = block_length part sent in
        let e : part - sent ≡ k + (part - (sent + k)) = omega (arith, block_bounds) in
        let p : start + sent + k ≡ start + (sent + k) = omega arith in
        ap (λ (n : ℕ). take n (drop (start + sent) file)) e
        ∙ take-add k (part - (sent + k)) (drop (start + sent) file)
        ∙ ap (λ t. block ++ take (part - (sent + k)) t)
            (drop-drop (start + sent) k file ∙ ap (λ (n : ℕ). drop n file) p)

pub send-cases :
    (s : Bytes) (n : ℕ) (out : Bytes)
    → (send s n out ≡ none)
      ⊎ ((conn : Outgoing) × (send s n out ≡ some conn)
          × (conn.sent ≡ out ++ s)
          × (n ≡ suc conn.sends_left))
unfolding send
send-cases s zero out = inl refl
send-cases s (suc n) out = inr (record { sent = out ++ s; sends_left = n }, refl, refl, refl)

-- A first part of an encoding of a first part of the content has been sent.
pub record Sent (z : Zlib) (content before : Bytes) (conn : Outgoing) : Type 0 where
  pub count : ℕ
  pub encoding : Bytes
  pub frames : Frames z (take count content) encoding
  pub size : ℕ
  pub result : conn.sent ≡ before ++ take size encoding

module _ (z : Zlib) where
  pub nothing_sent : (content : Bytes) (conn : Outgoing) → Sent z content conn.sent conn
  nothing_sent content conn = record {
    count = 0;
    encoding = [];
    frames = none_left refl refl;
    size = 0;
    result = sym (append-nil conn.sent);
  }

  module _ (block rest c : Bytes) (some_bytes : 0 < length block)
      (small : length block ≤ buffer_size) (coded : compress_stream z block ≡ some c)
      (before : Bytes) where
    abbrev header : Bytes
    header = to_bytes long_size (length c)

    -- The length has been sent, and the block has not.
    pub header_sent :
        (conn : Outgoing) → conn.sent ≡ before ++ header → Sent z (block ++ rest) before conn
    header_sent conn e = record {
      count = length block;
      encoding = header ++ (c ++ []);
      frames =
          frame block [] c [] some_bytes small coded (none_left refl refl)
            (take-length_append block rest ∙ sym (append-nil block)) refl;
      size = length header;
      result = e ∙ ap (λ t. before ++ t) (sym (take-length_append header (c ++ [])));
    }

    pub block-Sent :
        (conn : Outgoing)
        → Sent z rest ((before ++ header) ++ c) conn
        → Sent z (block ++ rest) before conn
    block-Sent conn s = record {
      count = length block + s.count;
      encoding = header ++ (c ++ s.encoding);
      frames =
          frame block (take s.count rest) c s.encoding some_bytes small coded s.frames
            (take-append_add s.count block rest) refl;
      size = length header + (length c + s.size);
      result =
          s.result
          ∙ append_assoc (before ++ header) c (take s.size s.encoding)
          ∙ append_assoc before header (c ++ take s.size s.encoding)
          ∙ ap (λ t. before ++ t)
              (ap (λ t. header ++ t) (sym (take-append_add s.size c s.encoding))
                ∙ sym (take-append_add (length c + s.size) header (c ++ s.encoding)));
    }

pub send-some :
    (s : Bytes) (n m : ℕ) (out : Bytes)
    → n ≡ suc m
    → send s n out ≡ some (record { sent = out ++ s; sends_left = m })
unfolding send
send-some s n m out e = rw e refl

-- An encoding of the content has been sent.
pub record SentAll (z : Zlib) (content before : Bytes) (conn : Outgoing) : Type 0 where
  pub encoding : Bytes
  pub frames : Frames z content encoding
  pub result : conn.sent ≡ before ++ encoding

module _ (z : Zlib) where
  pub all_sent :
      (content : Bytes) (conn : Outgoing) → length content ≡ 0 → SentAll z content conn.sent conn
  all_sent [] conn e = record {
    encoding = [];
    frames = none_left refl refl;
    result = sym (append-nil conn.sent);
  }
  all_sent (b ∷ content) conn e = absurd (omega arith)

  pub block-SentAll :
      (block rest c : Bytes)
      → 0 < length block
      → length block ≤ buffer_size
      → compress_stream z block ≡ some c
      → (before : Bytes) (conn : Outgoing)
      → SentAll z rest ((before ++ to_bytes long_size (length c)) ++ c) conn
      → SentAll z (block ++ rest) before conn
  block-SentAll block rest c some_bytes small coded before conn s =
      let header = to_bytes long_size (length c) in
      record {
        encoding = header ++ (c ++ s.encoding);
        frames = frame block rest c s.encoding some_bytes small coded s.frames refl refl;
        result =
            s.result
            ∙ append_assoc (before ++ header) c s.encoding
            ∙ append_assoc before header (c ++ s.encoding);
      }
