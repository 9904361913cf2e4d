-- ===== src/Assembly/Resume/Tests.antt =====
-- The second piece of a file has broken off: one thread completes it.
use networks_dartsync.Base.{
  ◌≡◌, refl, [], ◌∷◌, none, some, true, All, arith, inl, inr, ◌==◌, ◌&&◌, if◌then◌else◌, Bool-cases,
}
use networks_dartsync.Base.Bytes.{Bytes}
use networks_dartsync.Compression.Stored.{compress_stream-stored, stored, stored-IsLawful}
use networks_dartsync.Wire.{closed}
use networks_dartsync.Pieces.{offset, piece, pieces_from, pieces}
use networks_dartsync.Transfer.Exchange.{answer}
use networks_dartsync.Assembly.{Temps, unfinished, merge_temps}
use networks_dartsync.Assembly.Download.{Thread, run_threads, AllHold}
use networks_dartsync.Assembly.Resume.{asked, AllWork, merge_temps-Works}

abbrev content : Bytes
content = 10 ∷ 11 ∷ 12 ∷ 13 ∷ 14 ∷ []

abbrev half : Temps
half p =
    if p.start == 2 && p.len == 3
    then some (12 ∷ [])
    else if p.start == 0 && p.len == 2
    then some (10 ∷ 11 ∷ [])
    else none

abbrev thread : Thread
thread = record {
  piece = record { start = 2; len = 3 };
  socket = some (record {
    bytes = (answer stored content 2 3 (12 ∷ []) 9).sent;
    cuts = 0 ∷ 1 ∷ [];
    ending = closed;
  });
  sends = 9;
  arrived = 99;
  opened = true;
  room = 100;
}

half-AllHold : AllHold content half
half-AllHold p within = elim (Bool-cases (p.start == 2 && p.len == 3)) [
  | inl second ↦
      let e : p ≡ record { start = 2; len = 3 } = ground arith in
      rw e (inr (12 ∷ [], refl, (1, refl)))
  | inr other ↦ elim (Bool-cases (p.start == 0 && p.len == 2)) [
    | inl first ↦
        let e : p ≡ record { start = 0; len = 2 } = ground arith in
        rw e (inr (10 ∷ 11 ∷ [], refl, (2, refl)))
    | inr neither ↦ rw (other, neither) (inl refl)
  ]
]

thread-AllWork : AllWork stored content (thread ∷ []) half
thread-AllWork = (
  record {
    within = omega arith;
    sends = omega arith;
    opened = refl;
    room = omega arith;
    connection = record {
      bytes = (answer stored content 2 3 (12 ∷ []) 9).sent;
      cuts = 0 ∷ 1 ∷ [];
      ending = closed;
    };
    connected = refl;
    arrives = refl;
  },
  tt,
)

thread-asked : All (λ p. asked (thread ∷ []) p ≡ true) (unfinished half (pieces 5 2))
unfolding unfinished pieces pieces_from piece offset
thread-asked = (refl, tt)

merge_temps-Works_example :
    (unfinished (run_threads stored (thread ∷ []) half) (pieces 5 2) ≡ [])
    × ((merge_temps (run_threads stored (thread ∷ []) half) (pieces 5 2) []).written ≡ content)
merge_temps-Works_example =
    merge_temps-Works stored content 2 (thread ∷ []) half stored-IsLawful
      (λ s h. compress_stream-stored s) (omega arith) (omega arith) (omega arith) half-AllHold
      thread-AllWork thread-asked
