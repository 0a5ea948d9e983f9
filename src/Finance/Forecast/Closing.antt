-- ===== src/Finance/Forecast/Closing.antt =====
-- The months of a forecast add up (`computeForecast`,
-- backend/src/modules/business/domain/forecast.ts).
use oculus_business.Common.{ℕ, zero, suc, ◌+◌, ◌≡◌, refl, sym, ap, ◌∙◌, List, [], ◌∷◌, arith}
use mathlib.Core.Path.{subst}
use oculus_business.Common.Int.{ℤ, sub_ℕ, ◌+ℤ◌, pos_part, neg_part, +ℤ_parts, eq_of_parts}
use oculus_business.Finance.Forecast.{ForecastInput, ForecastMonth, month_at, months_from}

-- The balance at the end of the last month, or now where there is none.
unfoldable pub closing : ℤ → List ForecastMonth → ℤ
closing running [] = running
closing running (m ∷ ms) = closing m.closing_balance ms

unfoldable pub sum_of : (ForecastMonth → ℕ) → List ForecastMonth → ℕ
sum_of f [] = 0
sum_of f (m ∷ ms) = f m + sum_of f ms

-- What is planned besides the recorded transactions.
abbrev pub other_income : ForecastMonth → ℕ
other_income m = m.recurring_income + m.mrr_income + m.expected_income

abbrev pub income_sum : List ForecastMonth → ℕ
income_sum ms = sum_of (λ m. m.one_time_income) ms + sum_of other_income ms

abbrev pub expense_sum : List ForecastMonth → ℕ
expense_sum ms = sum_of (λ m. m.one_time_expense) ms + sum_of (λ m. m.recurring_expense) ms

add_twice :
    (r s t u : ℤ)
    → pos_part s + pos_part t + neg_part u ≡ neg_part s + neg_part t + pos_part u
    → (r +ℤ s) +ℤ t ≡ r +ℤ u
add_twice r s t u h =
    eq_of_parts ((r +ℤ s) +ℤ t) (r +ℤ u)
      (omega (arith, +ℤ_parts r s, +ℤ_parts (r +ℤ s) t, +ℤ_parts r u))

pub sub_parts : (a b : ℕ) → pos_part (sub_ℕ a b) + b ≡ neg_part (sub_ℕ a b) + a
sub_parts a b = ground arith

add_subs : (r : ℤ) (a b c d : ℕ) → (r +ℤ sub_ℕ a b) +ℤ sub_ℕ c d ≡ r +ℤ sub_ℕ (a + c) (b + d)
add_subs r a b c d =
    add_twice r (sub_ℕ a b) (sub_ℕ c d) (sub_ℕ (a + c) (b + d))
      (omega (arith, sub_parts a b, sub_parts c d, sub_parts (a + c) (b + d)))

add_zero : (r : ℤ) → r ≡ r +ℤ sub_ℕ 0 0
add_zero r = eq_of_parts r (r +ℤ sub_ℕ 0 0) (omega (arith, +ℤ_parts r (sub_ℕ 0 0)))

closing_sums :
    (r : ℤ) (m : ForecastMonth) (ms : List ForecastMonth)
    → m.closing_balance ≡ r +ℤ sub_ℕ m.planned_income m.planned_expense
    → m.planned_income ≡ m.one_time_income + other_income m
    → m.planned_expense ≡ m.one_time_expense + m.recurring_expense
    → closing m.closing_balance ms ≡ m.closing_balance +ℤ sub_ℕ (income_sum ms) (expense_sum ms)
    → closing r (m ∷ ms) ≡ r +ℤ sub_ℕ (income_sum (m ∷ ms)) (expense_sum (m ∷ ms))
unfolding closing sum_of
closing_sums r m ms e f g h =
    h
    ∙ ap (λ b. b +ℤ sub_ℕ (income_sum ms) (expense_sum ms)) e
    ∙ add_subs r m.planned_income m.planned_expense (income_sum ms) (expense_sum ms)
    ∙ ap (λ a. r +ℤ sub_ℕ a (m.planned_expense + expense_sum ms)) (omega (arith, f))
    ∙ ap (λ b. r +ℤ sub_ℕ (income_sum (m ∷ ms)) b) (omega (arith, g))

planned_income_parts :
    (days : ℕ → ℕ) (i : ForecastInput) (offset : ℕ) (r : ℤ)
    → let m = month_at days i offset r in m.planned_income ≡ m.one_time_income + other_income m
unfolding month_at
planned_income_parts days i offset r = omega arith

planned_expense_parts :
    (days : ℕ → ℕ) (i : ForecastInput) (offset : ℕ) (r : ℤ)
    → let m = month_at days i offset r in
      m.planned_expense ≡ m.one_time_expense + m.recurring_expense
unfolding month_at
planned_expense_parts days i offset r = omega arith

closing_balance_step :
    (days : ℕ → ℕ) (i : ForecastInput) (offset : ℕ) (r : ℤ)
    → let m = month_at days i offset r in
      m.closing_balance ≡ r +ℤ sub_ℕ m.planned_income m.planned_expense
unfolding month_at
closing_balance_step days i offset r = refl

months_from-step :
    (days : ℕ → ℕ) (i : ForecastInput) (n offset : ℕ) (r : ℤ)
    → let m = month_at days i offset r in
      months_from days i (suc n) offset r ≡ m ∷ months_from days i n (offset + 1) m.closing_balance
unfolding months_from
months_from-step days i n offset r = refl

months_from-none :
    (days : ℕ → ℕ) (i : ForecastInput) (offset : ℕ) (r : ℤ) → months_from days i 0 offset r ≡ []
unfolding months_from
months_from-none days i offset r = refl

pub closing-months_from :
    (days : ℕ → ℕ) (i : ForecastInput) (n offset : ℕ) (r : ℤ)
    → let ms = months_from days i n offset r in
      closing r ms ≡ r +ℤ sub_ℕ (income_sum ms) (expense_sum ms)
unfolding closing sum_of
closing-months_from days i zero offset r =
    subst (λ l. closing r l ≡ r +ℤ sub_ℕ (income_sum l) (expense_sum l))
      (sym (months_from-none days i offset r)) (add_zero r)
closing-months_from days i (suc n) offset r =
    let m = month_at days i offset r in
    let ms = months_from days i n (offset + 1) m.closing_balance in
    subst (λ l. closing r l ≡ r +ℤ sub_ℕ (income_sum l) (expense_sum l))
      (sym (months_from-step days i n offset r))
      (closing_sums r m ms (closing_balance_step days i offset r)
        (planned_income_parts days i offset r) (planned_expense_parts days i offset r)
        (closing-months_from days i n (offset + 1) m.closing_balance))
