-- ===== src/Wire/Tests.antt =====
-- Reads from connections that deliver their bytes in portions.
use networks_dartsync.Base.{◌≡◌, refl, [], ◌∷◌, arith, take}
use networks_dartsync.Base.Bytes.{codes}
use networks_dartsync.Wire.{Socket, closed, got, lost, recv, recv_loop, recv_exact, to_bytes}
use networks_dartsync.Wire.Exact.{Delivered, recv_exact-Delivered}

-- The calls of `recv` return 1, 3 and then at most 1 byte.
abbrev portions : Socket
portions = record { bytes = codes "abcdefgh"; cuts = 0 ∷ 2 ∷ []; ending = closed }

portions_run :
    recv_exact 5 portions ≡ got (codes "abcde") (record portions { bytes = codes "fgh"; cuts = [] })
unfolding recv_exact recv_loop recv
portions_run = refl

short_run : recv_exact 9 portions ≡ lost closed
unfolding recv_exact recv_loop recv
short_run = refl

length_run : to_bytes 8 1025 ≡ 1 ∷ 4 ∷ 0 ∷ 0 ∷ 0 ∷ 0 ∷ 0 ∷ 0 ∷ []
unfolding to_bytes
length_run = refl

recv_exact-Delivered_example : Delivered (take 5 portions.bytes) 5 portions (recv_exact 5 portions)
recv_exact-Delivered_example = recv_exact-Delivered 5 portions (omega arith)
