-- ===== src/Transfer/Receiving.antt =====
-- What `download_handler` makes of the bytes that reach it.
use networks_dartsync.Base.{
  ℕ, suc, ◌+◌, ◌-◌, ◌≤◌, ◌<◌, ◌≡◌, ◌∙◌, ◌++◌, true, false, some, ltb, leb, arith, length, take,
  dec_lt, if◌then◌else◌,
}
use networks_dartsync.Base.Bytes.{Bytes}
use networks_dartsync.Compression.{
  Zlib, IsLawful, compress_stream, decompress_stream-compress_stream, length-compress_stream,
}
use networks_dartsync.Wire.{Socket, got, lost, recv_exact, to_bytes, from_bytes}
use networks_dartsync.Wire.Exact.{recv_exact-lost, recv_exact-cut, recv_exact-front}
use networks_dartsync.Wire.Length.{length-to_bytes, from_bytes-to_bytes}
use networks_dartsync.Transfer.{buffer_size, long_size, finished, on_end, stop, download_loop}

pub leb-false : (a b : ℕ) → b < a → leb a b ≡ false
leb-false a b h = ground arith

pub leb-true : (a b : ℕ) → a ≤ b → leb a b ≡ true
leb-true a b h = ground arith

-- One block: the bytes `s` begin with a frame of `block`.
module _ (z : Zlib) (L : IsLawful z) (block c more : Bytes) (small : length block ≤ buffer_size)
    (coded : compress_stream z block ≡ some c) where
  header : Bytes
  header = to_bytes long_size (length c)

  from_bytes-header : from_bytes header ≡ length c
  unfolding header
  from_bytes-header =
      from_bytes-to_bytes long_size (length c) (length-compress_stream z L block c coded small)

  length-header : length header ≡ long_size
  unfolding header
  length-header = length-to_bytes long_size (length c)

  download_loop_step :
      (fuel file_len downloaded room : ℕ) (temp : Bytes) (s s1 s2 : Socket)
      → downloaded < file_len
      → recv_exact long_size s ≡ got header s1
      → recv_exact (length c) s1 ≡ got c s2
      → download_loop z (suc fuel) file_len downloaded room temp s ≡ (
          if ltb room (length block)
          then stop (temp ++ take room block) finished
          else download_loop z fuel file_len
              (downloaded + length block)
              (room - length block)
              (temp ++ block)
              s2)
  unfolding download_loop
  download_loop_step fuel file_len downloaded room temp s s1 s2 lt r1 r2 = ground (
    arith,
    from_bytes-header,
    decompress_stream-compress_stream z L block c coded buffer_size small,
  )

-- A connection that delivers no whole length stops the loop.
pub no_header :
    (z : Zlib) (fuel file_len downloaded room : ℕ) (temp : Bytes) (s : Socket)
    → downloaded < file_len
    → length s.bytes < long_size
    → download_loop z (suc fuel) file_len downloaded room temp s ≡ stop temp (on_end s.ending)
unfolding download_loop
no_header z fuel file_len downloaded room temp s lt short =
    ground (arith, recv_exact-lost long_size s short)

-- A block that arrives whole is one round of the loop.
module _ (z : Zlib) (L : IsLawful z) (block c more : Bytes) (small : length block ≤ buffer_size)
    (coded : compress_stream z block ≡ some c) (s : Socket) (n : ℕ)
    (arrives : s.bytes ≡ take n (to_bytes long_size (length c) ++ (c ++ more))) where
  -- The connection behind the block.
  pub record Behind (s2 : Socket) : Type 0 where
    pub bytes : s2.bytes ≡ take (n - long_size - length c) more
    pub ending : s2.ending ≡ s.ending
    pub round :
        (fuel file_len downloaded room : ℕ) (temp : Bytes)
        → downloaded < file_len
        → download_loop z (suc fuel) file_len downloaded room temp s ≡ (
            if ltb room (length block)
            then stop (temp ++ take room block) finished
            else download_loop z fuel file_len
                (downloaded + length block)
                (room - length block)
                (temp ++ block)
                s2)

  first : Bytes
  first = to_bytes long_size (length c)

  length-first : length first ≡ long_size
  unfolding first
  length-first = length-to_bytes long_size (length c)

  pub whole_block : long_size + length c ≤ n → (s2 : Socket) × Behind s2
  unfolding first header
  whole_block h =
      let (s1, r1, b1, e1, _) =
        recv_exact-front first (c ++ more) n s arrives (omega (arith, length-first)) in
      let b1' : s1.bytes ≡ take (n - long_size) (c ++ more) = rw length-first at b1 in
      let (s2, r2, b2, e2, _) = recv_exact-front c more (n - long_size) s1 b1' (omega arith) in
      (
        s2,
        record {
          bytes = b2;
          ending = e2 ∙ e1;
          round = λ fuel file_len downloaded room temp lt.
              download_loop_step z L block c more small coded fuel file_len downloaded room temp s
                s1 s2 lt (rw length-first at r1) r2;
        },
      )

  -- A block that does not arrive whole stops the loop.
  pub cut_block :
      n < long_size + length c
      → (fuel file_len downloaded room : ℕ) (temp : Bytes) → downloaded < file_len
      → download_loop z (suc fuel) file_len downloaded room temp s ≡ stop temp (on_end s.ending)
  unfolding download_loop first header
  cut_block h fuel file_len downloaded room temp lt = elim (dec_lt n long_size) [
    | yes early ↦
        let r1 = recv_exact-cut first (c ++ more) n s arrives (omega (arith, length-first)) in
        let r1' : recv_exact long_size s ≡ lost s.ending = rw length-first at r1 in ground arith
    | no late ↦
        let (s1, r1, b1, e1, _) =
          recv_exact-front first (c ++ more) n s arrives (omega (arith, length-first)) in
        let r1' : recv_exact long_size s ≡ got first s1 = rw length-first at r1 in
        let b1' : s1.bytes ≡ take (n - long_size) (c ++ more) = rw length-first at b1 in
        let r2 = recv_exact-cut c more (n - long_size) s1 b1' (omega arith) in
        ground (arith, from_bytes-header z L block c more small coded)
  ]
