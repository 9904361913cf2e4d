-- ===== src/Transfer.antt =====
-- The transfer of one piece of a file between two peers, utils/peer2peer.c: `upload_handler` sends
-- it in blocks, each compressed and behind its length, and `download_handler` appends the blocks to
-- the piece's temporary file.
pub mod Frames
pub mod Sending
pub mod Rounds
pub mod Receiving
pub mod Piecewise
pub mod Exchange
pub mod Fuel
mod Tests
use networks_dartsync.Base.{
  ℕ, zero, suc, ◌+◌, ◌-◌, List, [], ◌∷◌, ◌++◌, Bool, true, false, Option, none, some, ltb, leb,
  if◌then◌else◌, length, take, drop, replicate,
}
use networks_dartsync.Base.Bytes.{Bytes}
use networks_dartsync.Compression.{Zlib, compress_stream, decompress_stream}
use networks_dartsync.Wire.{
  Ending, closed, broken, silent, Socket, Reading, got, lost, exhausted, recv_exact, to_bytes,
  from_bytes,
}

abbrev pub buffer_size : ℕ
buffer_size = 1024

-- `sizeof(unsigned long int)`
abbrev pub long_size : ℕ
long_size = 8

-- The sending side of a connection: what has been sent, and how many calls of `send` will succeed.
pub record Outgoing : Type 0 where
  pub sent : Bytes
  pub sends_left : ℕ

unfoldable pub send : Bytes → ℕ → Bytes → Option Outgoing
send s zero out = none
send s (suc n) out = some (record { sent = out ++ s; sends_left = n })

-- `fread` into a zeroed buffer: a file that ends early leaves zeros.
unfoldable pub read_block : ℕ → ℕ → Bytes → Bytes
read_block position size file =
    let s = take size (drop position file) in s ++ replicate (size - length s) 0

abbrev pub block_length : ℕ → ℕ → ℕ
block_length part sent = if leb buffer_size (part - sent) then buffer_size else part - sent

-- The loop of `upload_handler`. Each round that goes on has sent a byte of the file at least.
unfoldable pub upload_loop : Zlib → ℕ → Bytes → ℕ → ℕ → ℕ → Outgoing → Outgoing
upload_loop z zero file start part sent conn = conn
upload_loop z (suc fuel) file start part sent conn =
    let block = read_block (start + sent) (block_length part sent) file in
    elim (leb part sent) [
      | true ↦ conn
      | false ↦ elim (compress_stream z block) [
        | none ↦ conn
        | some c ↦ elim (send (to_bytes long_size (length c)) conn.sends_left conn.sent) [
          | none ↦ conn
          | some conn1 ↦ elim (send c conn1.sends_left conn1.sent) [
            | none ↦ conn1
            | some conn2 ↦ upload_loop z fuel file start part (sent + block_length part sent) conn2
          ]
        ]
      ]
    ]

-- `piece_start_idx` and `piece_len` of a `peer_msg`; the file is found by its name.
pub record Request : Type 0 where
  pub piece_start_idx : ℕ
  pub piece_len : ℕ

unfoldable pub upload_handler : Zlib → Option Bytes → Request → Outgoing → Outgoing
upload_handler z none msg conn = conn
upload_handler z (some file) msg conn =
    upload_loop z msg.piece_len file msg.piece_start_idx msg.piece_len 0 conn

-- How a thread of `download_handler` ends: with `peer_flag` 0, with `peer_flag` 2, or not at all,
-- since it waits in `recv` for ever. The last one says that the fuel of the model ran out.
pub data Verdict : Type 0 where
  finished : Verdict
  failed : Verdict
  stalled : Verdict
  out_of_fuel : Verdict

-- The temporary file, and the verdict.
pub record Download : Type 0 where
  pub temp : Bytes
  pub verdict : Verdict

abbrev pub on_end : Ending → Verdict
on_end closed = failed
on_end broken = failed
on_end silent = stalled

abbrev pub stop : Bytes → Verdict → Download
stop temp verdict = record { temp = temp; verdict = verdict }

-- The loop of `download_handler`. `room` is the number of bytes that the disk still takes: `fwrite`
-- writes no more, and the loop is left when it writes less than a block.
unfoldable pub download_loop : Zlib → ℕ → ℕ → ℕ → ℕ → Bytes → Socket → Download
download_loop z zero file_len downloaded room temp s = stop temp out_of_fuel
download_loop z (suc fuel) file_len downloaded room temp s = elim (leb file_len downloaded) [
  | true ↦ stop temp finished
  | false ↦ elim (recv_exact long_size s) [
    | lost e ↦ stop temp (on_end e)
    | exhausted ↦ stop temp out_of_fuel
    | got header s1 ↦ elim (recv_exact (from_bytes header) s1) [
      | lost e ↦ stop temp (on_end e)
      | exhausted ↦ stop temp out_of_fuel
      | got compressed s2 ↦ elim (decompress_stream z compressed buffer_size) [
        | none ↦ stop temp failed
        | some block ↦ elim (ltb room (length block)) [
          | true ↦ stop (temp ++ take room block) finished
          | false ↦
              download_loop z fuel file_len (downloaded + length block) (room - length block)
                (temp ++ block) s2
        ]
      ]
    ]
  ]
]

-- The request of `download_handler` for a piece, of which the temporary file has a part.
unfoldable pub request_for : ℕ → ℕ → Bytes → Request
request_for start len temp = record {
  piece_start_idx = start + length temp;
  piece_len = len - length temp;
}

-- `download_handler` for a piece of that length. There is no socket if the connection failed, and
-- `opened` says whether the temporary file could be opened to append. A round reads eight bytes at
-- least, so there are fewer rounds than bytes.
unfoldable pub download_handler : Zlib → Bool → ℕ → ℕ → ℕ → Bytes → Option Socket → Download
download_handler z opened room start len temp none = stop temp failed
download_handler z opened room start len temp (some s) =
    let msg = request_for start len temp in
    if opened
    then download_loop z (suc (length s.bytes)) msg.piece_len 0 room temp s
    else stop temp finished
