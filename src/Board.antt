-- ===== src/Board.antt =====
-- The order of cards on a board: `moveDeal` and `moveDevTask` of
-- backend/src/modules/business/infrastructure/business-repository.ts share it, and `createDeal` and
-- `createDevTask` append to it. Cards with the same position come in the order of the table.
pub mod Moves
pub mod Others
pub mod Placed
mod Examples
use oculus_business.Common.{
  ℕ, zero, suc, ◌+◌, ◌-◌, ◌*◌, ◌≤◌, ◌<◌, ◌≡◌, refl, sym, ap, ◌∙◌, ◌≢◌, ◌↔◌, ◌⊎◌, inl, inr, Bool,
  true, false, not, ◌&&◌, ◌||◌, Option, none, some, List, [], ◌∷◌, ◌++◌, arith, ltb, leb, ◌==◌,
  if◌then◌else◌, ==_iff, Bool-cases, Option-cases, is_some, find, filter, any, All, Has, take,
  sort_by, min, max, length,
}
use oculus_business.Common.Rows.{update_many}

-- What a board reads of a card, and how it places one in a lane.
pub record Card (A : Type 0) : Type 0 where
  pub id : A → ℕ
  pub lane : A → ℕ
  pub position : A → ℕ
  pub place : ℕ → ℕ → A → A
  pub id-place : (l n : ℕ) (a : A) → id (place l n a) ≡ id a
  pub lane-place : (l n : ℕ) (a : A) → lane (place l n a) ≡ l
  pub position-place : (l n : ℕ) (a : A) → position (place l n a) ≡ n

-- `slice(n)`.
unfoldable pub drop : {A : Type 0} → ℕ → List A → List A
drop zero xs = xs
drop (suc n) [] = []
drop (suc n) (x ∷ xs) = drop n xs

abbrev pub splice : {A : Type 0} → ℕ → A → List A → List A
splice n a xs = take n xs ++ (a ∷ drop n xs)

module _ {A : Type 0} (c : Card A) where
  abbrev pub has_card_id : ℕ → A → Bool
  has_card_id id a = c.id a == id

  -- The cards of the lane in their order.
  unfoldable pub lane_cards : ℕ → List A → List A
  unfolding sort_by
  lane_cards lane rows = sort_by c.position (filter (λ a. c.lane a == lane) rows)

  unfoldable pub other_cards : ℕ → A → List A → List A
  unfolding lane_cards
  other_cards lane moving rows =
      filter (λ a. not (has_card_id (c.id moving) a)) (lane_cards lane rows)

  -- The order that is wanted; a position beyond the end is the end.
  unfoldable pub ordered : ℕ → ℕ → A → List A → List A
  unfolding other_cards drop
  ordered lane position moving rows =
      let others = other_cards lane moving rows in
      splice (min position (length others)) moving others

  -- The loop that writes the positions, from `n`.
  unfoldable pub renumber : ℕ → ℕ → List A → List A → List A
  unfolding update_many
  renumber n lane [] rows = rows
  renumber n lane (x ∷ xs) rows =
      renumber (n + 1) lane xs (update_many (has_card_id (c.id x)) (c.place lane n) rows).0

  unfoldable pub move_card : ℕ → ℕ → A → List A → List A
  unfolding ordered renumber
  move_card lane position moving rows = renumber 0 lane (ordered lane position moving rows) rows

  -- `(last?.position ?? -1) + 1`.
  unfoldable pub end_position : ℕ → List A → ℕ
  end_position lane [] = 0
  end_position lane (a ∷ rows) =
      let rest = end_position lane rows in
      if c.lane a == lane then max (c.position a + 1) rest else rest
