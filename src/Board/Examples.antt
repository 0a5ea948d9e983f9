-- ===== src/Board/Examples.antt =====
-- Tests of boards, and the theorem at one move.
use oculus_business.Common.{ℕ, ◌≡◌, refl, some, List, [], ◌∷◌, arith, map, Option}
use oculus_business.Common.Text.{lit}
use oculus_business.Common.Outcome.{fail, conflict}
use oculus_business.Common.Apart.{Apart}
use oculus_business.Board.{move_card, Option}
use oculus_business.Board.Moves.{
  BoardDeal, DealBoard, deal_card, move_deal, create_deal, delete_stage, lane_in_use,
}
use oculus_business.Board.Placed.{IsDistinct, index_of, IsWanted, IsPlaced, move_card-IsPlaced}

abbrev deal_at : ℕ → ℕ → ℕ → BoardDeal
deal_at id stage_id position = record {
  id = id;
  stage_id = stage_id;
  position = position;
  last_stage_change_at = some 10;
}

abbrev moved : BoardDeal
moved = deal_at 3 2 0

abbrev deals : List BoardDeal
deals = deal_at 1 1 0 ∷ deal_at 2 1 1 ∷ moved ∷ []

abbrev board : DealBoard
board = record {
  stages = record { id = 1; title = lit "new" } ∷ record { id = 2; title = lit "won" } ∷ [];
  deals = deals;
  history = [];
}

-- To the second place of another stage.
moved_between :
    map {B = ℕ × ℕ × ℕ}
      (λ (d : BoardDeal). (d.id, d.stage_id, d.position))
      (move_deal 3 1 1 50 board).0.deals
    ≡ (1, 1, 0) ∷ (2, 1, 2) ∷ (3, 1, 1) ∷ []
unfolding move_deal
moved_between = refl

-- A position beyond the end is the end; the time of the change stays where the stage stays.
moved_to_end :
    map {B = ℕ × ℕ × Option ℕ}
      (λ (d : BoardDeal). (d.id, d.position, d.last_stage_change_at))
      (move_deal 1 1 9 50 board).0.deals
    ≡ (1, 1, some 10) ∷ (2, 0, some 10) ∷ (3, 0, some 10) ∷ []
unfolding move_deal
moved_to_end = refl

appended :
    map (λ (d : BoardDeal). d.position) (create_deal 4 1 60 board).0.deals ≡ 2 ∷ 0 ∷ 1 ∷ 0 ∷ []
unfolding create_deal
appended = refl

stage_in_use : (delete_stage 2 board).1 ≡ fail conflict lane_in_use
unfolding delete_stage
stage_in_use = refl

deals-Apart : Apart (IsDistinct (deal_card moved 50)) deals
deals-Apart =
    (((λ e. ground arith), ((λ e. ground arith), tt)), (((λ e. ground arith), tt), (tt, tt)))

move_card-IsPlaced_example :
    (order : List BoardDeal) × (others : List BoardDeal) × (becomes : BoardDeal → BoardDeal)
    × IsWanted (deal_card moved 50) 1 1 moved deals order others
    × (move_card (deal_card moved 50) 1 1 moved deals ≡ map becomes deals)
    × ((a : BoardDeal)
        → IsPlaced
            (deal_card moved 50)
            1
            1
            moved
            deals
            a
            (index_of (deal_card moved 50).id a.id order)
            (becomes a))
move_card-IsPlaced_example = move_card-IsPlaced (deal_card moved 50) 1 1 moved deals deals-Apart
