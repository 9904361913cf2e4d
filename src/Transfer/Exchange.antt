-- ===== src/Transfer/Exchange.antt =====
-- `upload_handler` on one peer and `download_handler` on another, for one piece of a file.
use networks_dartsync.Base.{
  ℕ, suc, ◌+◌, ◌-◌, ◌*◌, ◌≤◌, ◌≡◌, sym, ap, ◌∙◌, [], ◌++◌, Bool, true, some, arith, length, take,
  drop, length-take, length-drop, take-add, take-append-drop, take_of_take, take-length-take,
  length-append, drop-take, drop-drop, if_cases,
}
use networks_dartsync.Base.Bytes.{Bytes}
use networks_dartsync.Compression.{Zlib, IsLawful, compress_stream}
use networks_dartsync.Wire.{Socket}
use networks_dartsync.Transfer.{
  buffer_size, Outgoing, upload_handler, finished, Download, stop, download_handler, request_for,
}
use networks_dartsync.Transfer.Sending.{remaining, Sent, SentAll}
use networks_dartsync.Transfer.Rounds.{upload_loop-Sent, upload_loop-all}
use networks_dartsync.Transfer.Piecewise.{IsPart, download_loop-GrownBy, download_loop-whole}

-- The piece of a file.
abbrev pub piece_of : ℕ → ℕ → Bytes → Bytes
piece_of start len file = take len (drop start file)

-- What the peer with the file sends on a fresh connection for a piece of which the other has `temp`.
unfoldable pub answer : Zlib → Bytes → ℕ → ℕ → Bytes → ℕ → Outgoing
answer z file start len temp sends =
    upload_handler z (some file) (request_for start len temp)
      (record { sent = []; sends_left = sends })

module _ (file : Bytes) (start len : ℕ) (within : start + len ≤ length file) (temp : Bytes)
    (begun : IsPart temp (piece_of start len file)) where
  have : ℕ
  have = length temp

  have-le : have ≤ len
  unfolding have
  have-le = omega (
    arith,
    ap length begun.1,
    length-take begun.0 (piece_of start len file),
    length-take len (drop start file),
  )

  asked_within : start + have + (len - have) ≤ length file
  asked_within = omega (arith, have-le)

  -- What is in the file already, and what is still to come.
  rest : Bytes
  unfolding have
  rest = remaining file (start + have) (len - have) asked_within 0

  temp-take-have : temp ≡ take have (piece_of start len file)
  unfolding have
  temp-take-have =
      begun.1
      ∙ sym (take-length-take begun.0 (piece_of start len file))
      ∙ ap (λ (t : Bytes). take (length t) (piece_of start len file)) (sym begun.1)

  rest-drop : rest ≡ drop have (piece_of start len file)
  unfolding rest
  rest-drop =
      let e : len - have - 0 ≡ len - have = omega arith in
      let p : start + have + 0 ≡ start + have = omega arith in
      ap (λ (n : ℕ). take n (drop (start + have + 0) file)) e
      ∙ ap (λ (n : ℕ). take (len - have) (drop n file)) p
      ∙ ap (take (len - have)) (sym (drop-drop start have file))
      ∙ sym (drop-take have len (drop start file))

  temp-rest : temp ++ rest ≡ piece_of start len file
  temp-rest =
      ap (λ t. t ++ rest) temp-take-have
      ∙ ap (λ t. take have (piece_of start len file) ++ t) rest-drop
      ∙ take-append-drop have (piece_of start len file)

  temp-take : (k : ℕ) → IsPart (temp ++ take k rest) (piece_of start len file)
  temp-take k = (
    have + k,
    ap (λ t. t ++ take k rest) temp-take-have
        ∙ ap (λ t. take have (piece_of start len file) ++ take k t) rest-drop
        ∙ sym (take-add have k (piece_of start len file)),
  )

  module _ (z : Zlib) (L : IsLawful z) (sends : ℕ) where
    Sent-part : Sent z rest [] (answer z file start len temp sends)
    unfolding rest have answer upload_handler request_for
    Sent-part =
        upload_loop-Sent z file (start + length temp) (len - length temp) asked_within
          (len - length temp) 0 (record { sent = []; sends_left = sends }) (omega arith)

    -- A transfer never spoils the temporary file. It holds a first part of the piece before; it holds
    -- a first part of the piece after, however many sends succeed, whatever part of what was sent
    -- arrives, in whatever portions, however the connection ends and whatever room the disk has, and
    -- also if a block cannot be compressed or the temporary file cannot be opened.
    pub download_handler-IsPart :
        (opened : Bool) (room arrived : ℕ) (s : Socket)
        → s.bytes ≡ take arrived (answer z file start len temp sends).sent
        → IsPart
            (download_handler z opened room start len temp (some s)).temp
            (piece_of start len file)
    unfolding download_handler request_for
    download_handler-IsPart opened room arrived s arrives =
        let p = Sent-part in
        let (n, short) = take_of_take arrived p.size p.encoding in
        let (k, grown) =
          download_loop-GrownBy z L (suc (length s.bytes)) (len - length temp) 0 room temp s n
            p.frames (arrives ∙ ap (take arrived) p.result ∙ short) in
        let (m, shorter) = take_of_take k p.count rest in
        let (j, e) = temp-take m in
        if_cases (λ (d : Download). IsPart d.temp (piece_of start len file)) opened
          (j, grown ∙ ap (λ t. temp ++ t) shorter ∙ e) begun

    module _
        (compresses : (s : Bytes)
          → length s ≤ buffer_size
          → (c : Bytes) × (compress_stream z s ≡ some c)) where
      sent_all : 2 * len ≤ sends → SentAll z rest [] (answer z file start len temp sends)
      unfolding rest have answer upload_handler request_for
      sent_all enough =
          upload_loop-all z file (start + length temp) (len - length temp) asked_within compresses
            (len - length temp) 0 (record { sent = []; sends_left = sends }) (omega arith)
            (omega arith)

      -- A transfer without a fault completes the piece. If the temporary file holds a first part of
      -- the piece, every block can be compressed, the sends succeed, all that was sent arrives, in
      -- whatever portions, and the disk has room for the piece, then the temporary file holds the
      -- piece and the thread sets its flag to 0.
      pub download_handler-whole :
          (room : ℕ) (s : Socket)
          → 2 * len ≤ sends
          → len ≤ room
          → s.bytes ≡ (answer z file start len temp sends).sent
          → download_handler z true room start len temp (some s)
            ≡ stop (piece_of start len file) finished
      unfolding download_handler request_for
      download_handler-whole room s enough fits arrives =
          let p = sent_all enough in
          let sum : length temp + length rest ≡ len = omega (
            arith,
            ap length temp-rest,
            length-append temp rest,
            length-take len (drop start file),
            length-drop start file,
          ) in
          download_loop-whole z L (suc (length s.bytes)) (len - length temp) 0 room temp s p.frames
            (arrives ∙ p.result) (omega (arith, ap length (arrives ∙ p.result))) (omega arith)
            (omega arith)
          ∙ ap (λ t. stop t finished) temp-rest
