-- ===== src/Finance/Forecast/Counted.antt =====
-- The months of a forecast count each later transaction once (`sumTxnsInMonth`,
-- backend/src/modules/business/domain/forecast.ts).
use oculus_business.Common.{
  ℕ, zero, suc, ◌+◌, ◌≡◌, refl, sym, ap, ◌∙◌, Bool, false, not, ◌&&◌, ◌||◌, List, [], ◌∷◌, arith,
  ltb, leb,
}
use oculus_business.Common.Int.{ℤ}
use oculus_business.Finance.Receipts.{Txn}
use oculus_business.Finance.Receipts.Balance.{total}
use oculus_business.Finance.Forecast.{
  month_of, ForecastInput, is_income, is_after, is_income_in, is_expense_in, after_today, month_at,
  months_from,
}
use oculus_business.Finance.Forecast.Closing.{sum_of}

-- Two sums over parts that do not meet are the sum over the whole.
pub total_parts :
    (p q w : Txn → Bool) (xs : List Txn)
    → ((x : Txn) → (w x ≡ (p x || q x)) × ((p x && q x) ≡ false))
    → total p xs + total q xs ≡ total w xs
unfolding total
total_parts p q w [] h = refl
total_parts p q w (x ∷ xs) h = ground (arith, total_parts p q w xs h, (h x).0, (h x).1)

-- The transactions from the month of an offset on, `n` months long.
abbrev pub is_between : ℕ → ℕ → ℕ → Txn → Bool
is_between today offset n x =
    leb (month_of today + offset) (month_of x.occurred_on)
    && ltb (month_of x.occurred_on) (month_of today + offset + n)
    && is_after (after_today today offset) x.occurred_on

income_step :
    (today offset n : ℕ) (x : Txn)
    → let first = is_income_in (month_of today + offset) (after_today today offset) x in
      let later = is_between today (offset + 1) n x && is_income x.kind in
      let all = is_between today offset (suc n) x && is_income x.kind in
      (all ≡ (first || later)) × ((first && later) ≡ false)
income_step today zero n x = ground arith
income_step today (suc k) n x = ground arith

expense_step :
    (today offset n : ℕ) (x : Txn)
    → let first = is_expense_in (month_of today + offset) (after_today today offset) x in
      let later = is_between today (offset + 1) n x && not (is_income x.kind) in
      let all = is_between today offset (suc n) x && not (is_income x.kind) in
      (all ≡ (first || later)) × ((first && later) ≡ false)
expense_step today zero n x = ground arith
expense_step today (suc k) n x = ground arith

total_none : (p : Txn → Bool) (xs : List Txn) → ((x : Txn) → p x ≡ false) → total p xs ≡ 0
unfolding total
total_none p [] h = refl
total_none p (x ∷ xs) h = ground (arith, total_none p xs h, h x)

nothing_between : (today offset : ℕ) (x : Txn) → is_between today offset 0 x ≡ false
nothing_between today offset x = ground arith

pub one_time_income-total :
    (days : ℕ → ℕ) (i : ForecastInput) (n offset : ℕ) (r : ℤ)
    → sum_of (λ m. m.one_time_income) (months_from days i n offset r)
      ≡ total (λ x. is_between i.today offset n x && is_income x.kind) i.txns
unfolding sum_of months_from
one_time_income-total days i zero offset r = sym (
    total_none (λ x. is_between i.today offset 0 x && is_income x.kind) i.txns
      (λ x. rw (nothing_between i.today offset x) refl))
one_time_income-total days i (suc n) offset r =
    ap
      (λ t.
        total (is_income_in (month_of i.today + offset) (after_today i.today offset)) i.txns + t)
      (one_time_income-total days i n (offset + 1) (month_at days i offset r).closing_balance)
    ∙ total_parts (is_income_in (month_of i.today + offset) (after_today i.today offset))
        (λ x. is_between i.today (offset + 1) n x && is_income x.kind)
        (λ x. is_between i.today offset (suc n) x && is_income x.kind) i.txns
        (income_step i.today offset n)

pub one_time_expense-total :
    (days : ℕ → ℕ) (i : ForecastInput) (n offset : ℕ) (r : ℤ)
    → sum_of (λ m. m.one_time_expense) (months_from days i n offset r)
      ≡ total (λ x. is_between i.today offset n x && not (is_income x.kind)) i.txns
unfolding sum_of months_from
one_time_expense-total days i zero offset r = sym (
    total_none (λ x. is_between i.today offset 0 x && not (is_income x.kind)) i.txns
      (λ x. rw (nothing_between i.today offset x) refl))
one_time_expense-total days i (suc n) offset r =
    ap
      (λ t.
        total (is_expense_in (month_of i.today + offset) (after_today i.today offset)) i.txns + t)
      (one_time_expense-total days i n (offset + 1) (month_at days i offset r).closing_balance)
    ∙ total_parts (is_expense_in (month_of i.today + offset) (after_today i.today offset))
        (λ x. is_between i.today (offset + 1) n x && not (is_income x.kind))
        (λ x. is_between i.today offset (suc n) x && not (is_income x.kind)) i.txns
        (expense_step i.today offset n)
