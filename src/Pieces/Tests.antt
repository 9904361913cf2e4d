-- ===== src/Pieces/Tests.antt =====
-- The pieces of small files, and the theorems at a concrete file.
use mathlib.Core.List.{flatten}
use networks_dartsync.Base.{◌≡◌, refl, [], ◌∷◌, map, arith, ◌*◌, ◌/◌}
use networks_dartsync.Base.Bytes.{codes}
use networks_dartsync.Pieces.{offset, piece, pieces_from, pieces, slice}
use networks_dartsync.Pieces.Tiling.{offset-exact, flatten-pieces}

pieces_run :
    pieces 10 3
    ≡ record { start = 0; len = 3 }
      ∷ record { start = 3; len = 3 }
      ∷ record { start = 6; len = 4 }
      ∷ []
unfolding pieces pieces_from piece offset
pieces_run = refl

flatten-pieces_example :
    flatten (map (λ p. slice p (codes "0123456789")) (pieces 10 3)) ≡ codes "0123456789"
flatten-pieces_example =
    flatten-pieces (codes "0123456789") 3 (omega arith) (omega arith) (omega arith)

offset-exact_example : offset 2000000000 200 199 ≡ 2000000000 * 199 / 200
offset-exact_example =
    offset-exact 2000000000 200 (omega arith) (omega arith) (omega arith) 199 (omega arith)
