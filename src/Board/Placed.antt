-- ===== src/Board/Placed.antt =====
-- What the loop of updates of a move comes to (backend/src/modules/business/infrastructure).
use oculus_business.Common.{
  ℕ, zero, suc, ◌+◌, ◌≤◌, ◌≡◌, refl, sym, ap, ◌∙◌, ◌≢◌, inl, inr, Bool, true, false, not, Option,
  none, some, List, [], ◌∷◌, arith, ◌==◌, if◌then◌else◌, ==_iff, Bool-cases, filter, All, map,
  length, min, ◌↔◌, Has, IsSortedBy,
}
use oculus_business.Common.Rows.{update_many, All-imp}
use oculus_business.Common.Apart.{Apart, Apart-filter, Apart-sort_by, All-kept}
use oculus_business.Board.Others.{
  filter-splice, IsOther, other_cards-IsSortedBy, Has-other_cards, other_cards-Has,
}
use oculus_business.Board.{
  Card, has_card_id, drop, splice, lane_cards, other_cards, ordered, renumber, move_card, length,
  min,
}

abbrev pub shifted : Option ℕ → Option ℕ
shifted none = none
shifted (some k) = some (suc k)

-- Where an identifier stands in a list.
unfoldable pub index_of : {A : Type 0} → (A → ℕ) → ℕ → List A → Option ℕ
index_of key n [] = none
index_of key n (x ∷ xs) =
    let rest = index_of key n xs in if key x == n then some 0 else shifted rest

listed_first :
    {A : Type 0} (key : A → ℕ) (n : ℕ) (x : A) (xs : List A)
    → (key x == n) ≡ true
    → index_of key n (x ∷ xs) ≡ some 0
unfolding index_of
listed_first key n x xs e = rw e refl

listed_later :
    {A : Type 0} (key : A → ℕ) (n : ℕ) (x : A) (xs : List A)
    → (key x == n) ≡ false
    → index_of key n (x ∷ xs) ≡ shifted (index_of key n xs)
unfolding index_of
listed_later key n x xs e = rw e refl

not_equal : (a b : ℕ) → a ≢ b → (b == a) ≡ false
not_equal a b d = elim (Bool-cases (b == a)) [
  | inl e ↦ elim (d (sym ((==_iff b a).0 e))) [ ]
  | inr e ↦ e
]

differs : (a b : ℕ) → not (a == b) ≡ true → b ≢ a
differs a b h e = ground arith

module _ {A : Type 0} (c : Card A) where
  abbrev pub IsDistinct : A → A → Type 0
  IsDistinct a b = c.id a ≢ c.id b

  -- A card that is listed stands in the lane, at its index after `n`; another stays as it is.
  abbrev pub placed_at : ℕ → ℕ → Option ℕ → A → A
  placed_at n lane none a = a
  placed_at n lane (some k) a = c.place lane (n + k) a

  abbrev pub placed : ℕ → ℕ → List A → A → A
  placed n lane order a = placed_at n lane (index_of c.id (c.id a) order) a

  update_many-map :
      (p : A → Bool) (f : A → A) (xs : List A)
      → (update_many p f xs).0 ≡ map (λ a. if p a then f a else a) xs
  unfolding update_many
  update_many-map p f [] = refl
  update_many-map p f (x ∷ xs) = ground (arith, update_many-map p f xs)

  map-map : (f g : A → A) (xs : List A) → map f (map g xs) ≡ map (λ a. f (g a)) xs
  map-map f g [] = refl
  map-map f g (x ∷ xs) = rw (map-map f g xs) refl

  map_pointwise : (f g : A → A) (xs : List A) → ((a : A) → f a ≡ g a) → map f xs ≡ map g xs
  map_pointwise f g [] h = refl
  map_pointwise f g (x ∷ xs) h = rw (h x, map_pointwise f g xs h) refl

  map_same : (xs : List A) → xs ≡ map (λ a. a) xs
  map_same [] = refl
  map_same (x ∷ xs) = ap (λ ys. x ∷ ys) (map_same xs)

  not_listed : (n : ℕ) (xs : List A) → All (λ x. c.id x ≢ n) xs → index_of c.id n xs ≡ none
  unfolding index_of
  not_listed n [] h = refl
  not_listed n (x ∷ xs) (h, hs) = elim (Bool-cases (c.id x == n)) [
    | inl e ↦ elim (h ((==_iff (c.id x) n).0 e)) [ ]
    | inr e ↦ listed_later c.id n x xs e ∙ ap shifted (not_listed n xs hs)
  ]

  next_place :
      (n lane : ℕ) (o : Option ℕ) (a : A)
      → placed_at (n + 1) lane o a ≡ placed_at n lane (shifted o) a
  next_place n lane none a = refl
  next_place n lane (some k) a = ap (λ i. c.place lane i a) (omega arith)

  -- One update, and then those of the rest of the order.
  placed_hit :
      (n lane : ℕ) (x : A) (xs : List A) (a : A)
      → All (IsDistinct x) xs
      → c.id a ≡ c.id x
      → placed (n + 1) lane xs (c.place lane n a) ≡ placed n lane (x ∷ xs) a
  placed_hit n lane x xs a h e =
      let unlisted =
        not_listed (c.id x) xs
          (All-imp (IsDistinct x) (λ y. c.id y ≢ c.id x) xs (λ y d q. d (sym q)) h) in
      let same = c.id-place lane n a ∙ e in
      ap (λ o. placed_at (n + 1) lane o (c.place lane n a))
        (ap (λ i. index_of c.id i xs) same ∙ unlisted)
      ∙ ap (λ i. c.place lane i a) (omega arith)
      ∙ sym (
          ap (λ o. placed_at n lane o a)
            (listed_first c.id (c.id a) x xs ((==_iff (c.id x) (c.id a)).1 (sym e))))

  placed_miss :
      (n lane : ℕ) (x : A) (xs : List A) (a : A)
      → (c.id a == c.id x) ≡ false
      → placed (n + 1) lane xs a ≡ placed n lane (x ∷ xs) a
  placed_miss n lane x xs a e =
      next_place n lane (index_of c.id (c.id a) xs) a
      ∙ sym (ap (λ o. placed_at n lane o a) (listed_later c.id (c.id a) x xs (ground arith)))

  placed_step :
      (n lane : ℕ) (x : A) (xs : List A) (a : A)
      → All (IsDistinct x) xs
      → placed (n + 1) lane xs (if has_card_id c (c.id x) a then c.place lane n a else a)
        ≡ placed n lane (x ∷ xs) a
  placed_step n lane x xs a h = elim (Bool-cases (c.id a == c.id x)) [
    | inl e ↦ rw e (placed_hit n lane x xs a h ((==_iff (c.id a) (c.id x)).0 e))
    | inr e ↦ rw e (placed_miss n lane x xs a e)
  ]

  renumber-placed :
      (n lane : ℕ) (order rows : List A)
      → Apart IsDistinct order
      → renumber c n lane order rows ≡ map (placed n lane order) rows
  unfolding renumber index_of
  renumber-placed n lane [] rows h = map_same rows
  renumber-placed n lane (x ∷ xs) rows (h, hs) =
      renumber-placed (n + 1) lane xs _ hs
      ∙ ap (map (placed (n + 1) lane xs))
          (update_many-map (has_card_id c (c.id x)) (c.place lane n) rows)
      ∙ map-map (placed (n + 1) lane xs) _ rows
      ∙ map_pointwise _ _ rows (λ a. placed_step n lane x xs a h)

  IsDistinct-sym : (a b : A) → IsDistinct a b → IsDistinct b a
  IsDistinct-sym a b d e = d (sym e)

  All-splice :
      (P : A → Type 0) (n : ℕ) (a : A) (xs : List A) → P a → All P xs → All P (splice n a xs)
  unfolding drop
  All-splice P zero a xs h k = (h, k)
  All-splice P (suc n) a [] h k = (h, tt)
  All-splice P (suc n) a (x ∷ xs) h (k, ks) = (k, All-splice P n a xs h ks)

  Apart-splice :
      (n : ℕ) (a : A) (xs : List A)
      → All (IsDistinct a) xs
      → Apart IsDistinct xs
      → Apart IsDistinct (splice n a xs)
  unfolding drop
  Apart-splice zero a xs h k = (h, k)
  Apart-splice (suc n) a [] h k = (tt, tt)
  Apart-splice (suc n) a (x ∷ xs) (h, hs) (k, ks) =
      (All-splice (IsDistinct x) n a xs (IsDistinct-sym a x h) k, Apart-splice n a xs hs ks)

  index_of-splice :
      (n : ℕ) (a : A) (xs : List A)
      → n ≤ length xs
      → All (IsDistinct a) xs
      → index_of c.id (c.id a) (splice n a xs) ≡ some n
  unfolding drop
  index_of-splice zero a xs le h =
      listed_first c.id (c.id a) a xs ((==_iff (c.id a) (c.id a)).1 refl)
  index_of-splice (suc n) a [] le h = let bad : ⊥ = omega arith in elim bad [ ]
  index_of-splice (suc n) a (x ∷ xs) le (h, hs) =
      listed_later c.id (c.id a) x (splice n a xs) (not_equal (c.id a) (c.id x) h)
      ∙ ap shifted (index_of-splice n a xs (omega arith) hs)

  module _ (lane position : ℕ) (moving : A) (rows : List A) where
    others_kept :
        All (λ a. not (has_card_id c (c.id moving) a) ≡ true) (other_cards c lane moving rows)
    unfolding other_cards
    others_kept = All-kept (λ a. not (has_card_id c (c.id moving) a)) (lane_cards c lane rows)

    others-IsDistinct_moving : All (IsDistinct moving) (other_cards c lane moving rows)
    unfolding other_cards
    others-IsDistinct_moving =
        All-imp (λ a. not (has_card_id c (c.id moving) a) ≡ true) (IsDistinct moving)
          (other_cards c lane moving rows) (λ a h. differs (c.id a) (c.id moving) h) others_kept

    others-IsDistinct : Apart IsDistinct rows → Apart IsDistinct (other_cards c lane moving rows)
    unfolding other_cards lane_cards
    others-IsDistinct h =
        Apart-filter IsDistinct (λ a. not (has_card_id c (c.id moving) a)) (lane_cards c lane rows)
          (Apart-sort_by c.position IsDistinct (filter (λ a. c.lane a == lane) rows) IsDistinct-sym
            (Apart-filter IsDistinct (λ a. c.lane a == lane) rows h))

    -- Of the wanted order: the moved card stands at the position that was asked for, or at the end
    -- where that is beyond it; without it the order is the list `others`, which is sorted by the
    -- positions they had and holds just the cards of the table that stand in the lane already.
    pub record IsWanted (order others : List A) : Type 0 where
      pub asked : index_of c.id (c.id moving) order ≡ some (min position (length others))
      pub left : filter (λ a. not (has_card_id c (c.id moving) a)) order ≡ others
      pub sorted : IsSortedBy c.position others
      pub just : (a : A) → Has a others ↔ IsOther c lane moving rows a

    -- What becomes of a card, by its index in the wanted order.
    abbrev pub IsPlaced : A → Option ℕ → A → Type 0
    IsPlaced a none b = b ≡ a
    IsPlaced a (some k) b = (c.id b ≡ c.id a) × (c.lane b ≡ lane) × (c.position b ≡ k)

    placed_at-IsPlaced : (a : A) (o : Option ℕ) → IsPlaced a o (placed_at 0 lane o a)
    placed_at-IsPlaced a none = refl
    placed_at-IsPlaced a (some k) = (
      c.id-place lane (0 + k) a,
      c.lane-place lane (0 + k) a,
      c.position-place lane (0 + k) a ∙ omega arith,
    )

    ordered-IsWanted :
        IsWanted (ordered c lane position moving rows) (other_cards c lane moving rows)
    unfolding ordered
    ordered-IsWanted =
        let others = other_cards c lane moving rows in
        let at = min position (length others) in
        record {
          asked = index_of-splice at moving others (omega arith) others-IsDistinct_moving;
          left =
              filter-splice (λ a. not (has_card_id c (c.id moving) a)) at moving others
                (rw ((==_iff (c.id moving) (c.id moving)).1 refl) refl) others_kept;
          sorted = other_cards-IsSortedBy c lane moving rows;
          just = λ a. (Has-other_cards c lane moving rows a, other_cards-Has c lane moving rows a);
        }

    -- A move of a card, in a table where no two cards share an identifier. There are an order and a
    -- list of the other cards with the following: the moved card stands in the order at the position
    -- that was asked for, or at the end where that is beyond it; without it the order is the others,
    -- which are sorted by the positions they had and are just the cards of the table that stood in
    -- the lane; and the move changes each row on its own, so that a card of the order then stands in
    -- the lane with its index as its position, and any other card is as it was.
    pub move_card-IsPlaced :
        Apart IsDistinct rows
        → (order : List A) × (others : List A) × (becomes : A → A) × IsWanted order others
          × (move_card c lane position moving rows ≡ map becomes rows)
          × ((a : A) → IsPlaced a (index_of c.id (c.id a) order) (becomes a))
    unfolding move_card ordered
    move_card-IsPlaced h =
        let others = other_cards c lane moving rows in
        let at = min position (length others) in
        (
          ordered c lane position moving rows,
          others,
          placed 0 lane (splice at moving others),
          ordered-IsWanted,
          renumber-placed 0 lane (splice at moving others) rows
              (Apart-splice at moving others others-IsDistinct_moving (others-IsDistinct h)),
          λ a. placed_at-IsPlaced a _,
        )
