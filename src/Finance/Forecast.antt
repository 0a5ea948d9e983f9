-- ===== src/Finance/Forecast.antt =====
-- The forecast: `balanceTo`, `sumRecurring`, `sumTxnsInMonth` and the months of `computeForecast` of
-- backend/src/modules/business/domain/forecast.ts. A month is its number, 12 for each year; the day d
-- of a month m is the number 32 m + d, so that numbers compare as the source's date strings do. How
-- many days a month has is a parameter, as the source asks the JavaScript runtime.
pub mod Closing
pub mod Counted
pub mod Once
mod Examples
use oculus_business.Common.{
  ℕ, zero, suc, ◌+◌, ◌-◌, ◌*◌, ◌≤◌, ◌<◌, ◌≡◌, refl, sym, ap, ◌∙◌, ◌≢◌, ◌↔◌, ◌⊎◌, inl, inr, Bool,
  true, false, not, ◌&&◌, ◌||◌, Option, none, some, List, [], ◌∷◌, ◌++◌, arith, ltb, leb, ◌==◌,
  if◌then◌else◌, ==_iff, Bool-cases, Option-cases, is_some, find, filter, any, All, Has, ◌/◌,
}
use oculus_business.Common.Int.{ℤ, pos, sub_ℕ, ◌+ℤ◌, ◌-ℤ◌}
use oculus_business.Finance.Receipts.{Txn, TxnKind, income, expense}
use oculus_business.Finance.Receipts.Balance.{total}

abbrev pub month_of : ℕ → ℕ
month_of date = date / 32

abbrev pub month_start : ℕ → ℕ
month_start month = 32 * month + 1

abbrev pub month_end : (ℕ → ℕ) → ℕ → ℕ
month_end days month = 32 * month + days month

pub record Settings : Type 0 where
  pub opening_balance_date : ℕ
  pub opening_balance : ℤ

pub record RecurringItem : Type 0 where
  pub kind : TxnKind
  pub amount : ℕ
  pub active_from : ℕ
  pub active_until : Option ℕ

pub record Receivable : Type 0 where
  pub due_date : ℕ
  pub amount : ℕ
  pub probability : ℕ

pub record ForecastInput : Type 0 where
  pub today : ℕ
  pub horizon : ℕ
  pub settings : Settings
  pub txns : List Txn
  pub recurring : List RecurringItem
  pub mrr : ℕ
  pub expected : List Receivable

pub record ForecastMonth : Type 0 where
  pub month : ℕ
  pub recurring_income : ℕ
  pub mrr_income : ℕ
  pub one_time_income : ℕ
  pub expected_income : ℕ
  pub recurring_expense : ℕ
  pub one_time_expense : ℕ
  pub planned_income : ℕ
  pub planned_expense : ℕ
  pub net : ℤ
  pub closing_balance : ℤ

abbrev pub is_income : TxnKind → Bool
is_income income = true
is_income expense = false

abbrev pub signed : Txn → ℤ
signed x = if is_income x.kind then pos x.amount else pos 0 -ℤ pos x.amount

unfoldable pub net_of : List Txn → ℤ
unfolding ◌+ℤ◌ ◌-ℤ◌
net_of [] = pos 0
net_of (x ∷ xs) = signed x +ℤ net_of xs

abbrev pub is_counted : Settings → ℕ → Txn → Bool
is_counted s through x = leb s.opening_balance_date x.occurred_on && leb x.occurred_on through

unfoldable pub balance_to : Settings → List Txn → ℕ → ℤ
unfolding net_of ◌+ℤ◌
balance_to s txns through = s.opening_balance +ℤ net_of (filter (is_counted s through) txns)

abbrev pub ends_before : Option ℕ → ℕ → Bool
ends_before none date = false
ends_before (some until) date = ltb until date

abbrev pub is_recurring_active_in_month : (ℕ → ℕ) → RecurringItem → ℕ → Bool
is_recurring_active_in_month days item month =
    not (ltb (month_end days month) item.active_from)
    && not (ends_before item.active_until (month_start month))

abbrev pub same_kind : TxnKind → TxnKind → Bool
same_kind income k = is_income k
same_kind expense k = not (is_income k)

-- `sumRecurring`, of one kind.
unfoldable pub sum_recurring : (ℕ → ℕ) → TxnKind → List RecurringItem → ℕ → ℕ
sum_recurring days kind [] month = 0
sum_recurring days kind (item ∷ items) month =
    let rest = sum_recurring days kind items month in
    if is_recurring_active_in_month days item month && same_kind item.kind kind
    then item.amount + rest
    else rest

abbrev pub is_after : Option ℕ → ℕ → Bool
is_after none date = true
is_after (some d) date = ltb d date

abbrev pub is_income_in : ℕ → Option ℕ → Txn → Bool
is_income_in month after x =
    month_of x.occurred_on == month && is_after after x.occurred_on && is_income x.kind

abbrev pub is_expense_in : ℕ → Option ℕ → Txn → Bool
is_expense_in month after x =
    month_of x.occurred_on == month && is_after after x.occurred_on && not (is_income x.kind)

-- `sumTxnsInMonth`.
unfoldable pub sum_txns_in_month : List Txn → ℕ → Option ℕ → ℕ × ℕ
unfolding total
sum_txns_in_month txns month after =
    (total (is_income_in month after) txns, total (is_expense_in month after) txns)

-- The receivables of a month, weighed by their probability and rounded.
unfoldable pub sum_expected : List Receivable → ℕ → Option ℕ → ℕ
sum_expected [] month after = 0
sum_expected (p ∷ ps) month after =
    let rest = sum_expected ps month after in
    if month_of p.due_date == month && is_after after p.due_date
    then (p.amount * p.probability + 50) / 100 + rest
    else rest

-- The day after which the month of an offset counts, where it is the first.
abbrev pub after_today : ℕ → ℕ → Option ℕ
after_today today zero = some today
after_today today (suc k) = none

unfoldable pub month_at : (ℕ → ℕ) → ForecastInput → ℕ → ℤ → ForecastMonth
unfolding sum_recurring sum_txns_in_month sum_expected ◌+ℤ◌
month_at days i offset running =
    let month = month_of i.today + offset in
    let after = after_today i.today offset in
    let once = sum_txns_in_month i.txns month after in
    let recurring_in = sum_recurring days income i.recurring month in
    let recurring_out = sum_recurring days expense i.recurring month in
    let expected_in = sum_expected i.expected month after in
    let planned_in = recurring_in + i.mrr + once.0 + expected_in in
    let planned_out = recurring_out + once.1 in
    record {
      month = month;
      recurring_income = recurring_in;
      mrr_income = i.mrr;
      one_time_income = once.0;
      expected_income = expected_in;
      recurring_expense = recurring_out;
      one_time_expense = once.1;
      planned_income = planned_in;
      planned_expense = planned_out;
      net = sub_ℕ planned_in planned_out;
      closing_balance = running +ℤ sub_ℕ planned_in planned_out;
    }

-- The loop over the months, from an offset on.
unfoldable pub months_from : (ℕ → ℕ) → ForecastInput → ℕ → ℕ → ℤ → List ForecastMonth
unfolding month_at
months_from days i zero offset running = []
months_from days i (suc n) offset running =
    let m = month_at days i offset running in
    m ∷ months_from days i n (offset + 1) m.closing_balance

-- The months of `computeForecast`.
unfoldable pub forecast_months : (ℕ → ℕ) → ForecastInput → List ForecastMonth
unfolding months_from balance_to
forecast_months days i = months_from days i i.horizon 0 (balance_to i.settings i.txns i.today)
