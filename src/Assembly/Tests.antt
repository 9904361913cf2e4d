-- ===== src/Assembly/Tests.antt =====
-- The end of a small download.
use networks_dartsync.Base.{◌≡◌, refl, [], ◌∷◌, none, some, All, arith, inr, ◌==◌, if◌then◌else◌}
use networks_dartsync.Base.Bytes.{Bytes}
use networks_dartsync.Pieces.{offset, piece, pieces_from, pieces}
use networks_dartsync.Assembly.{
  Temps, unfinished, merge_temps, copy_loop, remove, get_available_peer_idx, wait_for_peer,
}
use networks_dartsync.Assembly.Whole.{Holds, merge_temps-whole}

-- A file of five bytes in two pieces.
abbrev content : Bytes
content = 10 ∷ 11 ∷ 12 ∷ 13 ∷ 14 ∷ []

abbrev temps : Temps
temps p = if p.start == 0 then some (10 ∷ 11 ∷ []) else some (12 ∷ 13 ∷ 14 ∷ [])

abbrev half : Temps
half p = if p.start == 0 then some (10 ∷ []) else none

half_run :
    unfinished half (pieces 5 2)
    ≡ record { start = 0; len = 2 } ∷ record { start = 2; len = 3 } ∷ []
unfolding unfinished pieces pieces_from piece offset
half_run = refl

merge_run : (merge_temps temps (pieces 5 2) []).written ≡ content
unfolding merge_temps copy_loop remove pieces pieces_from piece offset
merge_run = refl

temps-Holds : All (Holds content temps) (pieces 5 2)
unfolding pieces pieces_from piece offset
temps-Holds = (inr (_, refl, (2, refl)), (inr (_, refl, (3, refl)), tt))

temps-unfinished : unfinished temps (pieces 5 2) ≡ []
unfolding unfinished pieces pieces_from piece offset
temps-unfinished = refl

merge_temps-whole_example :
    ((merge_temps temps (pieces 5 2) []).written ≡ content)
    × All (λ p. (merge_temps temps (pieces 5 2) []).temps p ≡ none) (pieces 5 2)
merge_temps-whole_example =
    merge_temps-whole content 2 temps (omega arith) (omega arith) (omega arith) temps-Holds
      temps-unfinished

-- A free peer is found when the second thread has ended.
wait_run : wait_for_peer 2 (record { idx = 1; flag = 0 } ∷ []) (1 ∷ 1 ∷ []) ≡ some 1
unfolding wait_for_peer get_available_peer_idx
wait_run = refl
