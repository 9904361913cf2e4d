-- ===== src/Scheduling/Growth.antt =====
-- A thread of `download_handler` only appends to its temporary file.
use networks_dartsync.Base.{
  ℕ, zero, suc, ◌≡◌, refl, sym, ap, ◌∙◌, ◌++◌, append_assoc, append-nil, leb, ltb, length, take,
  Bool, Option, none, some, Bool-cases, Option-cases, inl, inr, ◌⊎◌, if_cases, drop-length_append,
  drop, ◌+◌, ◌-◌, [],
}
use networks_dartsync.Base.Bytes.{Bytes}
use networks_dartsync.Compression.{Zlib, decompress_stream}
use networks_dartsync.Wire.{Ending, Socket, Reading, got, lost, exhausted, recv_exact, from_bytes}
use networks_dartsync.Transfer.{
  buffer_size, long_size, Download, download_loop, download_handler, request_for,
}

-- The temporary file has grown.
abbrev Grown : Bytes → Download → Type 0
Grown temp d = (more : Bytes) × (d.temp ≡ temp ++ more)

pub Reading-cases :
    (r : Reading)
    → ((e : Ending) × (r ≡ lost e))
      ⊎ ((r ≡ exhausted) ⊎ ((b : Bytes) × (s : Socket) × (r ≡ got b s)))
Reading-cases (lost e) = inl (e, refl)
Reading-cases exhausted = inr (inl refl)
Reading-cases (got b s) = inr (inr (b, s, refl))

download_loop-Grown :
    (z : Zlib) (fuel file_len downloaded room : ℕ) (temp : Bytes) (s : Socket)
    → Grown temp (download_loop z fuel file_len downloaded room temp s)
unfolding download_loop
download_loop-Grown z zero file_len downloaded room temp s = ([], sym (append-nil temp))
download_loop-Grown z (suc fuel) file_len downloaded room temp s =
    let same = sym (append-nil temp) in
    elim (Bool-cases (leb file_len downloaded)) [
      | inl over ↦ ([], rw (download_loop, over) same)
      | inr more ↦ elim (Reading-cases (recv_exact long_size s)) [
        | inl (e, ends) ↦ ([], rw (download_loop, more, ends) same)
        | inr (inl ends) ↦ ([], rw (download_loop, more, ends) same)
        | inr (inr (header, s1, read)) ↦ elim (Reading-cases (recv_exact (from_bytes header) s1)) [
          | inl (e, ends) ↦ ([], rw (download_loop, more, read, ends) same)
          | inr (inl ends) ↦ ([], rw (download_loop, more, read, ends) same)
          | inr (inr (packed, s2, read2)) ↦
              elim (Option-cases (decompress_stream z packed buffer_size)) [
                | inl bad ↦ ([], rw (download_loop, more, read, read2, bad) same)
                | inr (block, good) ↦ elim (Bool-cases (ltb room (length block))) [
                  | inl full ↦
                      (take room block, rw (download_loop, more, read, read2, good, full) refl)
                  | inr fits ↦
                      let (rest, e) =
                        download_loop-Grown z fuel file_len (downloaded + length block)
                          (room - length block) (temp ++ block) s2 in
                      (
                        block ++ rest,
                        rw (download_loop, more, read, read2, good, fits)
                            (e ∙ append_assoc temp block rest),
                      )
                ]
              ]
        ]
      ]
    ]

-- The temporary file in the end is what it was, and behind it what the thread has appended.
pub download_handler-append :
    (z : Zlib) (opened : Bool) (room start len : ℕ) (temp : Bytes) (s : Option Socket)
    → (download_handler z opened room start len temp s).temp
      ≡ temp ++ drop (length temp) (download_handler z opened room start len temp s).temp
unfolding download_handler
download_handler-append z opened room start len temp s =
    let (more, e) = grown s in
    e ∙ ap (λ t. temp ++ t) (sym (ap (drop (length temp)) e ∙ drop-length_append temp more))
  where
    grown : (s : Option Socket) → Grown temp (download_handler z opened room start len temp s)
    grown none = ([], sym (append-nil temp))
    grown (some s) =
        if_cases (Grown temp) opened
          (download_loop-Grown z (suc (length s.bytes)) (request_for start len temp).piece_len 0
            room temp s)
          ([], sym (append-nil temp))
