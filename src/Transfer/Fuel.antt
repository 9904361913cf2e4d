-- ===== src/Transfer/Fuel.antt =====
-- The fuel of the models of the loops is enough.
use networks_dartsync.Base.{
  ℕ, zero, suc, ◌+◌, ◌-◌, ◌≤◌, ◌<◌, ◌≡◌, ◌≢◌, ◌⊎◌, ap, Bool, Option, none, some, arith, leb, ltb,
  length, length-drop, dec_le, Bool-cases, Option-cases, inl, inr, if_cases, ◌++◌,
}
use networks_dartsync.Base.Bytes.{Bytes}
use networks_dartsync.Compression.{Zlib, decompress_stream}
use networks_dartsync.Wire.{
  Ending, closed, broken, silent, Socket, got, lost, recv_exact, from_bytes,
}
use networks_dartsync.Wire.Exact.{recv_exact-Delivered, recv_exact-lost}
use networks_dartsync.Transfer.{
  buffer_size, long_size, finished, failed, out_of_fuel, Download, on_end, download_loop,
  download_handler, request_for,
}

-- A read ends as the connection does, or leaves fewer bytes.
recv_exact_cases :
    (want : ℕ) (s : Socket)
    → (recv_exact want s ≡ lost s.ending)
      ⊎ ((part : Bytes) × (s' : Socket) × (recv_exact want s ≡ got part s')
          × (length s'.bytes ≡ length s.bytes - want)
          × (want ≤ length s.bytes))
recv_exact_cases want s = elim (dec_le want (length s.bytes)) [
  | yes enough ↦
      let d = recv_exact-Delivered want s enough in
      inr (_, d.after, d.result, omega (arith, ap length d.left, length-drop want s.bytes), enough)
  | no short ↦ inl (recv_exact-lost want s (omega arith))
]

on_end-fuel : (e : Ending) → on_end e ≢ out_of_fuel
on_end-fuel closed = λ h. cc
on_end-fuel broken = λ h. cc
on_end-fuel silent = λ h. cc

finished-fuel : finished ≢ out_of_fuel
finished-fuel = λ h. cc

failed-fuel : failed ≢ out_of_fuel
failed-fuel = λ h. cc

download_loop-fuel :
    (z : Zlib) (fuel file_len downloaded room : ℕ) (temp : Bytes) (s : Socket)
    → length s.bytes < fuel
    → (download_loop z fuel file_len downloaded room temp s).verdict ≢ out_of_fuel
unfolding download_loop
download_loop-fuel z zero file_len downloaded room temp s h = absurd (omega arith)
download_loop-fuel z (suc fuel) file_len downloaded room temp s h =
    elim (Bool-cases (leb file_len downloaded)) [
      | inl over ↦ rw (download_loop, over) finished-fuel
      | inr more ↦ elim (recv_exact_cases long_size s) [
        | inl ends ↦ rw (download_loop, more, ends) (on_end-fuel s.ending)
        | inr (header, s1, read, left, enough) ↦ elim (recv_exact_cases (from_bytes header) s1) [
          | inl ends ↦ rw (download_loop, more, read, ends) (on_end-fuel s1.ending)
          | inr (packed, s2, read2, left2, enough2) ↦
              elim (Option-cases (decompress_stream z packed buffer_size)) [
                | inl bad ↦ rw (download_loop, more, read, read2, bad) failed-fuel
                | inr (block, good) ↦ elim (Bool-cases (ltb room (length block))) [
                  | inl full ↦ rw (download_loop, more, read, read2, good, full) finished-fuel
                  | inr fits ↦
                      rw (download_loop, more, read, read2, good, fits)
                        (download_loop-fuel z fuel file_len (downloaded + length block)
                          (room - length block) (temp ++ block) s2 (omega arith))
                ]
              ]
        ]
      ]
    ]

-- `download_handler` always ends with a flag or waits for ever in `recv`: its model never runs out
-- of fuel.
pub download_handler-fuel :
    (z : Zlib) (opened : Bool) (room start len : ℕ) (temp : Bytes) (s : Option Socket)
    → (download_handler z opened room start len temp s).verdict ≢ out_of_fuel
unfolding download_handler
download_handler-fuel z opened room start len temp none = failed-fuel
download_handler-fuel z opened room start len temp (some s) =
    if_cases (λ (d : Download). d.verdict ≢ out_of_fuel) opened
      (download_loop-fuel z (suc (length s.bytes)) (request_for start len temp).piece_len 0 room
        temp s (omega arith))
      finished-fuel
