-- ===== src/Board/Others.antt =====
-- The other cards of a lane, in their order (`moveDeal` and `moveDevTask` of
-- backend/src/modules/business/infrastructure/business-repository.ts).
use oculus_business.Common.{
  ℕ, zero, suc, ◌≤◌, ◌≡◌, refl, ◌≢◌, inl, inr, Bool, true, false, not, List, [], ◌∷◌, arith, ◌==◌,
  ==_iff, Bool-cases, filter, All, Has, sort_by-IsSortedBy, Has-sort_by, sort_by-Has, IsSortedBy,
  ap,
}
use oculus_business.Common.Apart.{All-filter, Has-filter}
use oculus_business.Board.{Card, has_card_id, splice, drop, lane_cards, other_cards}

module _ {A : Type 0} where
  filter-IsSortedBy :
      (key : A → ℕ) (keep : A → Bool) (xs : List A)
      → IsSortedBy key xs
      → IsSortedBy key (filter keep xs)
  filter-IsSortedBy key keep [] h = tt
  filter-IsSortedBy key keep (x ∷ xs) (h, hs) =
      let rest = filter-IsSortedBy key keep xs hs in
      let least = All-filter (λ y. key x ≤ key y) keep xs h in
      elim (Bool-cases (keep x)) [ inl e ↦ rw e (least, rest) | inr e ↦ rw e rest ]

  filter-Has :
      (keep : A → Bool) (x : A) (xs : List A) → Has x xs → keep x ≡ true → Has x (filter keep xs)
  filter-Has keep x [] m e = m
  filter-Has keep x (y ∷ xs) m e = ground (arith, filter-Has keep x xs)

  filter-all : (keep : A → Bool) (xs : List A) → All (λ x. keep x ≡ true) xs → filter keep xs ≡ xs
  filter-all keep [] h = refl
  filter-all keep (x ∷ xs) (h, hs) = rw h (ap (λ ys. x ∷ ys) (filter-all keep xs hs))

  -- An item that is put into a list and filtered out again.
  pub filter-splice :
      (keep : A → Bool) (n : ℕ) (a : A) (xs : List A)
      → keep a ≡ false
      → All (λ x. keep x ≡ true) xs
      → filter keep (splice n a xs) ≡ xs
  unfolding drop
  filter-splice keep zero a xs e h = rw e (filter-all keep xs h)
  filter-splice keep (suc n) a [] e h = rw e refl
  filter-splice keep (suc n) a (x ∷ xs) e (h, hs) =
      rw h (ap (λ ys. x ∷ ys) (filter-splice keep n a xs e hs))

module _ {A : Type 0} (c : Card A) (lane : ℕ) (moving : A) (rows : List A) where
  -- They are sorted by the position they had.
  pub other_cards-IsSortedBy : IsSortedBy c.position (other_cards c lane moving rows)
  unfolding other_cards lane_cards
  other_cards-IsSortedBy =
      filter-IsSortedBy c.position (λ a. not (has_card_id c (c.id moving) a)) _
        (sort_by-IsSortedBy c.position (filter (λ a. c.lane a == lane) rows))

  -- A card of the table that stands in the lane and is not the one that is moved.
  abbrev pub IsOther : A → Type 0
  IsOther a = Has a rows × (c.lane a ≡ lane) × (c.id a ≢ c.id moving)

  kept_other : (a : A) → not (c.id a == c.id moving) ≡ true → c.id a ≢ c.id moving
  kept_other a h e = ground arith

  other_kept : (a : A) → c.id a ≢ c.id moving → not (c.id a == c.id moving) ≡ true
  other_kept a d = ground arith

  pub Has-other_cards : (a : A) → Has a (other_cards c lane moving rows) → IsOther a
  unfolding other_cards lane_cards
  Has-other_cards a m =
      let (sorted, far) = Has-filter (λ x. not (has_card_id c (c.id moving) x)) a _ m in
      let (there, here) =
        Has-filter (λ x. c.lane x == lane) a rows (Has-sort_by c.position a _ sorted) in
      (there, (==_iff (c.lane a) lane).0 here, kept_other a far)

  pub other_cards-Has : (a : A) → IsOther a → Has a (other_cards c lane moving rows)
  unfolding other_cards lane_cards
  other_cards-Has a (there, here, far) =
      filter-Has (λ x. not (has_card_id c (c.id moving) x)) a _
        (sort_by-Has c.position a _
          (filter-Has (λ x. c.lane x == lane) a rows there ((==_iff (c.lane a) lane).1 here)))
        (other_kept a far)
