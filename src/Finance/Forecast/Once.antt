-- ===== src/Finance/Forecast/Once.antt =====
-- Each transaction to come is counted once, and the months add up
-- (`computeForecast`, backend/src/modules/business/domain/forecast.ts).
use oculus_business.Common.{
  ℕ, ◌+◌, ◌-◌, ◌*◌, ◌≤◌, ◌<◌, ◌≡◌, refl, sym, ap, ◌∙◌, inl, inr, Bool, true, false, not, ◌&&◌, ◌||◌,
  List, [], ◌∷◌, arith, if◌then◌else◌, Bool-cases, filter,
}
use oculus_business.Common.Int.{
  ℤ, pos, sub_ℕ, ◌+ℤ◌, ◌-ℤ◌, pos_part, neg_part, +ℤ_parts, eq_of_parts,
}
use oculus_business.Finance.Receipts.{Txn}
use oculus_business.Finance.Receipts.Balance.{total}
use oculus_business.Finance.Forecast.{
  month_of, Settings, ForecastInput, ForecastMonth, is_income, signed, net_of, is_counted,
  balance_to, months_from, forecast_months,
}
use oculus_business.Finance.Forecast.Closing.{
  closing, sum_of, other_income, sub_parts, closing-months_from,
}
use oculus_business.Finance.Forecast.Counted.{
  is_between, total_parts, one_time_income-total, one_time_expense-total,
}

signed_parts :
    (x : Txn)
    → pos_part (signed x) + (if is_income x.kind then 0 else x.amount)
      ≡ neg_part (signed x) + (if is_income x.kind then x.amount else 0)
unfolding ◌-ℤ◌
signed_parts x = ground arith

net_of-none : net_of [] ≡ pos 0
unfolding net_of
net_of-none = refl

net_of-step : (x : Txn) (xs : List Txn) → net_of (x ∷ xs) ≡ signed x +ℤ net_of xs
unfolding net_of
net_of-step x xs = refl

net_cons :
    (k : Bool) (amount a b : ℕ) (s n : ℤ)
    → pos_part s + (if k then 0 else amount) ≡ neg_part s + (if k then amount else 0)
    → pos_part n + b ≡ neg_part n + a
    → pos_part (s +ℤ n) + (if not k then amount + b else b)
      ≡ neg_part (s +ℤ n) + (if k then amount + a else a)
net_cons true amount a b s n h e = omega (arith, +ℤ_parts s n)
net_cons false amount a b s n h e = omega (arith, +ℤ_parts s n)

-- The net of the transactions that a test picks, in two sums.
net_of_parts :
    (p : Txn → Bool) (xs : List Txn)
    → pos_part (net_of (filter p xs)) + total (λ x. p x && not (is_income x.kind)) xs
      ≡ neg_part (net_of (filter p xs)) + total (λ x. p x && is_income x.kind) xs
unfolding total
net_of_parts p [] = rw net_of-none refl
net_of_parts p (x ∷ xs) =
    let ih = net_of_parts p xs in
    elim (Bool-cases (p x)) [
      | inl e ↦
          rw (e, net_of-step x (filter p xs))
            (net_cons (is_income x.kind) x.amount (total (λ y. p y && is_income y.kind) xs)
              (total (λ y. p y && not (is_income y.kind)) xs) (signed x) (net_of (filter p xs))
              (signed_parts x) ih)
      | inr e ↦ rw e ih
    ]

-- The last day of the months of the forecast: dates up to it are those of earlier months.
abbrev pub last_day : ForecastInput → ℕ
last_day i = 32 * (month_of i.today + i.horizon) - 1

counted_step :
    (i : ForecastInput) (x : Txn)
    → i.settings.opening_balance_date ≤ i.today
    → 0 < i.horizon
    → let first = is_counted i.settings i.today x in
      let later = is_between i.today 0 i.horizon x in
      (is_counted i.settings (last_day i) x ≡ (first || later)) × ((first && later) ≡ false)
counted_step i x h k = ground arith

with_kind :
    (w p q k : Bool)
    → (w ≡ (p || q)) × ((p && q) ≡ false)
    → ((w && k) ≡ ((p && k) || (q && k))) × (((p && k) && (q && k)) ≡ false)
with_kind w p q k h = ground arith

-- What is counted by the last day is what is counted today and what comes between.
counted_income :
    (i : ForecastInput)
    → i.settings.opening_balance_date ≤ i.today
    → 0 < i.horizon
    → total (λ x. is_counted i.settings i.today x && is_income x.kind) i.txns
        + total (λ x. is_between i.today 0 i.horizon x && is_income x.kind) i.txns
      ≡ total (λ x. is_counted i.settings (last_day i) x && is_income x.kind) i.txns
counted_income i h k =
    total_parts (λ x. is_counted i.settings i.today x && is_income x.kind)
      (λ x. is_between i.today 0 i.horizon x && is_income x.kind)
      (λ x. is_counted i.settings (last_day i) x && is_income x.kind) i.txns
      (λ x.
        with_kind (is_counted i.settings (last_day i) x) (is_counted i.settings i.today x)
          (is_between i.today 0 i.horizon x) (is_income x.kind) (counted_step i x h k))

counted_expense :
    (i : ForecastInput)
    → i.settings.opening_balance_date ≤ i.today
    → 0 < i.horizon
    → total (λ x. is_counted i.settings i.today x && not (is_income x.kind)) i.txns
        + total (λ x. is_between i.today 0 i.horizon x && not (is_income x.kind)) i.txns
      ≡ total (λ x. is_counted i.settings (last_day i) x && not (is_income x.kind)) i.txns
counted_expense i h k =
    total_parts (λ x. is_counted i.settings i.today x && not (is_income x.kind))
      (λ x. is_between i.today 0 i.horizon x && not (is_income x.kind))
      (λ x. is_counted i.settings (last_day i) x && not (is_income x.kind)) i.txns
      (λ x.
        with_kind (is_counted i.settings (last_day i) x) (is_counted i.settings i.today x)
          (is_between i.today 0 i.horizon x) (not (is_income x.kind)) (counted_step i x h k))

-- A balance and what comes later, against a later balance.
balances :
    (opening n n' : ℤ) (a b c d a' b' p q : ℕ)
    → pos_part n + b ≡ neg_part n + a
    → pos_part n' + b' ≡ neg_part n' + a'
    → a + c ≡ a'
    → b + d ≡ b'
    → (opening +ℤ n) +ℤ sub_ℕ (c + p) (d + q) ≡ (opening +ℤ n') +ℤ sub_ℕ p q
balances opening n n' a b c d a' b' p q h h' e f =
    eq_of_parts ((opening +ℤ n) +ℤ sub_ℕ (c + p) (d + q)) ((opening +ℤ n') +ℤ sub_ℕ p q) (
      omega (
        arith,
        +ℤ_parts opening n,
        +ℤ_parts opening n',
        +ℤ_parts (opening +ℤ n) (sub_ℕ (c + p) (d + q)),
        +ℤ_parts (opening +ℤ n') (sub_ℕ p q),
        sub_parts (c + p) (d + q),
        sub_parts p q,
      ))

balance_to-step :
    (s : Settings) (txns : List Txn) (through : ℕ)
    → balance_to s txns through ≡ s.opening_balance +ℤ net_of (filter (is_counted s through) txns)
unfolding balance_to
balance_to-step s txns through = refl

forecast_months-step :
    (days : ℕ → ℕ) (i : ForecastInput)
    → forecast_months days i ≡ months_from days i i.horizon 0 (balance_to i.settings i.txns i.today)
unfolding forecast_months
forecast_months-step days i = refl

-- If the account was opened by today, a forecast of at least one month ends with the balance that
-- all recorded transactions give by the last day of its months, each counted once, whether it lies
-- behind or ahead, and with what is planned besides: recurring income, the deals' monthly income and
-- the expected receipts of its months, less the recurring expenses.
pub forecast_months-balance :
    (days : ℕ → ℕ) (i : ForecastInput)
    → i.settings.opening_balance_date ≤ i.today
    → 0 < i.horizon
    → let ms = forecast_months days i in
      closing (balance_to i.settings i.txns i.today) ms
      ≡ balance_to i.settings i.txns (last_day i)
        +ℤ sub_ℕ (sum_of other_income ms) (sum_of (λ m. m.recurring_expense) ms)
forecast_months-balance days i h k =
    let now = balance_to i.settings i.txns i.today in
    let ms = months_from days i i.horizon 0 now in
    let p = sum_of other_income ms in
    let q = sum_of (λ (m : ForecastMonth). m.recurring_expense) ms in
    let ahead = closing-months_from days i i.horizon 0 now in
    let s = i.settings in
    rw (forecast_months-step days i) (
      ahead
      ∙ ap (λ a. now +ℤ sub_ℕ (a + p) (sum_of (λ (m : ForecastMonth). m.one_time_expense) ms + q))
          (one_time_income-total days i i.horizon 0 now)
      ∙ ap
          (λ b.
            now
            +ℤ sub_ℕ (total (λ x. is_between i.today 0 i.horizon x && is_income x.kind) i.txns + p)
                (b + q))
          (one_time_expense-total days i i.horizon 0 now)
      ∙ ap
          (λ b.
            b
            +ℤ sub_ℕ (total (λ x. is_between i.today 0 i.horizon x && is_income x.kind) i.txns + p)
                (total (λ x. is_between i.today 0 i.horizon x && not (is_income x.kind)) i.txns
                  + q))
          (balance_to-step s i.txns i.today)
      ∙ balances s.opening_balance _ _ _ _ _ _ _ _ p q (net_of_parts (is_counted s i.today) i.txns)
          (net_of_parts (is_counted s (last_day i)) i.txns) (counted_income i h k)
          (counted_expense i h k)
      ∙ ap (λ b. b +ℤ sub_ℕ p q) (sym (balance_to-step s i.txns (last_day i))))
