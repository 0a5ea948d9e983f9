-- ===== src/Board/Moves.antt =====
-- The boards of deals and of development tasks: `createDeal`, `moveDeal`, `deleteStage`,
-- `createDevTask`, `moveDevTask` and `deleteDevColumn` of
-- backend/src/modules/business/infrastructure/business-repository.ts. Of the columns those are kept
-- that these operations read or set.
use oculus_business.Common.{
  ℕ, refl, not, ◌&&◌, Option, none, some, List, ◌∷◌, ◌==◌, if◌then◌else◌, is_some, find, filter,
  any,
}
use oculus_business.Common.Text.{Text}
use oculus_business.Common.Outcome.{Outcome, ok, fail, not_found, conflict}
use oculus_business.Board.{Card, move_card, end_position}

pub record Lane : Type 0 where
  pub id : ℕ
  pub title : Text

pub record BoardDeal : Type 0 where
  pub id : ℕ
  pub stage_id : ℕ
  pub position : ℕ
  pub last_stage_change_at : Option ℕ

-- `DealHistory`.
pub record StageChange : Type 0 where
  pub deal_id : ℕ
  pub from_stage : Option Text
  pub to_stage : Text

pub record DealBoard : Type 0 where
  pub stages : List Lane
  pub deals : List BoardDeal
  pub history : List StageChange

pub data BoardMessage : Type 0 where
  card_missing lane_missing lane_in_use : BoardMessage

abbrev pub find_lane : ℕ → List Lane → Option Lane
find_lane id = find (λ (l : Lane). l.id == id)

-- The time of the change goes to the moved deal only, where its stage changes.
abbrev pub place_deal : BoardDeal → ℕ → ℕ → ℕ → BoardDeal → BoardDeal
place_deal moving now stage_id position d = record {
  id = d.id;
  stage_id = stage_id;
  position = position;
  last_stage_change_at =
      if not (moving.stage_id == stage_id) && d.id == moving.id
      then some now
      else d.last_stage_change_at;
}

abbrev pub deal_card : BoardDeal → ℕ → Card BoardDeal
deal_card moving now = record {
  id = λ d. d.id;
  lane = λ d. d.stage_id;
  position = λ d. d.position;
  place = place_deal moving now;
  id-place = λ l n d. refl;
  lane-place = λ l n d. refl;
  position-place = λ l n d. refl;
}

abbrev pub title_of : Option Lane → Option Text
title_of none = none
title_of (some l) = some l.title

abbrev pub stage_change : BoardDeal → Lane → List Lane → List StageChange → List StageChange
stage_change d stage stages history =
    if d.stage_id == stage.id
    then history
    else record {
      deal_id = d.id;
      from_stage = title_of (find_lane d.stage_id stages);
      to_stage = stage.title;
    }
      ∷ history

abbrev pub move_found :
    ℕ → ℕ → DealBoard → Option BoardDeal → Option Lane → DealBoard × Outcome BoardMessage (Unit {0})
move_found position now b none stage = (b, fail not_found card_missing)
move_found position now b (some d) none = (b, fail not_found lane_missing)
move_found position now b (some d) (some stage) = (
  record b {
    deals = move_card (deal_card d now) stage.id position d b.deals;
    history = stage_change d stage b.stages b.history;
  },
  ok tt,
)

unfoldable pub move_deal : ℕ → ℕ → ℕ → ℕ → DealBoard → DealBoard × Outcome BoardMessage (Unit {0})
unfolding move_card
move_deal id stage_id position now b =
    move_found position now b (find (λ (d : BoardDeal). d.id == id) b.deals)
      (find_lane stage_id b.stages)

abbrev pub new_deal : ℕ → ℕ → ℕ → BoardDeal
new_deal id stage_id now = record {
  id = id;
  stage_id = stage_id;
  position = 0;
  last_stage_change_at = some now;
}

abbrev pub at_end : BoardDeal → ℕ → List BoardDeal → BoardDeal
at_end d now deals = record d { position = end_position (deal_card d now) d.stage_id deals }

-- `createDeal` puts the deal at the end of its stage.
unfoldable pub create_deal : ℕ → ℕ → ℕ → DealBoard → DealBoard × Outcome BoardMessage (Unit {0})
unfolding end_position
create_deal id stage_id now b =
    if is_some (find_lane stage_id b.stages)
    then (record b { deals = at_end (new_deal id stage_id now) now b.deals ∷ b.deals }, ok tt)
    else (b, fail not_found lane_missing)

unfoldable pub delete_stage : ℕ → DealBoard → DealBoard × Outcome BoardMessage (Unit {0})
delete_stage id b =
    if any (λ (d : BoardDeal). d.stage_id == id) b.deals
    then (b, fail conflict lane_in_use)
    else if is_some (find_lane id b.stages)
    then (record b { stages = filter (λ l. not (l.id == id)) b.stages }, ok tt)
    else (b, fail not_found lane_missing)

pub record DevTask : Type 0 where
  pub id : ℕ
  pub column_id : ℕ
  pub position : ℕ

pub record DevBoard : Type 0 where
  pub columns : List Lane
  pub tasks : List DevTask

abbrev pub task_card : Card DevTask
task_card = record {
  id = λ t. t.id;
  lane = λ t. t.column_id;
  position = λ t. t.position;
  place = λ l n t. record t { column_id = l; position = n };
  id-place = λ l n t. refl;
  lane-place = λ l n t. refl;
  position-place = λ l n t. refl;
}

abbrev pub move_task_found :
    ℕ → DevBoard → Option DevTask → Option Lane → DevBoard × Outcome BoardMessage (Unit {0})
move_task_found position b none column = (b, fail not_found card_missing)
move_task_found position b (some t) none = (b, fail not_found lane_missing)
move_task_found position b (some t) (some column) =
    (record b { tasks = move_card task_card column.id position t b.tasks }, ok tt)

unfoldable pub move_dev_task : ℕ → ℕ → ℕ → DevBoard → DevBoard × Outcome BoardMessage (Unit {0})
unfolding move_card
move_dev_task id column_id position b =
    move_task_found position b (find (λ (t : DevTask). t.id == id) b.tasks)
      (find_lane column_id b.columns)

abbrev pub new_task : ℕ → ℕ → List DevTask → DevTask
new_task id column_id tasks = record {
  id = id;
  column_id = column_id;
  position = end_position task_card column_id tasks;
}

unfoldable pub create_dev_task : ℕ → ℕ → DevBoard → DevBoard × Outcome BoardMessage (Unit {0})
unfolding end_position
create_dev_task id column_id b =
    if is_some (find_lane column_id b.columns)
    then (record b { tasks = new_task id column_id b.tasks ∷ b.tasks }, ok tt)
    else (b, fail not_found lane_missing)

unfoldable pub delete_dev_column : ℕ → DevBoard → DevBoard × Outcome BoardMessage (Unit {0})
delete_dev_column id b =
    if any (λ (t : DevTask). t.column_id == id) b.tasks
    then (b, fail conflict lane_in_use)
    else if is_some (find_lane id b.columns)
    then (record b { columns = filter (λ l. not (l.id == id)) b.columns }, ok tt)
    else (b, fail not_found lane_missing)
