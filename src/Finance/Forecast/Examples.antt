-- ===== src/Finance/Forecast/Examples.antt =====
-- Tests of the forecast, and the theorem at one input.
use oculus_business.Common.{ℕ, ◌≡◌, refl, none, some, [], ◌∷◌, arith, map}
use oculus_business.Common.Int.{pos, sub_ℕ, ◌+ℤ◌}
use oculus_business.Finance.Receipts.{Txn, TxnKind, income, expense}
use oculus_business.Finance.Forecast.{ForecastInput, ForecastMonth, balance_to, forecast_months}
use oculus_business.Finance.Forecast.Closing.{closing, sum_of, other_income}
use oculus_business.Finance.Forecast.Once.{last_day, forecast_months-balance}

abbrev on : ℕ → TxnKind → ℕ → Txn
on date kind amount = record {
  id = date;
  kind = kind;
  amount = amount;
  occurred_on = date;
  comment = none;
  deal_id = none;
  expected_payment_id = none;
  reversal_of_id = none;
  reversed_at = none;
}

-- Two months from day 10 of month 3: 106 is that day, 120 a later one, 130 the second day of month 4
-- and 170 lies in month 5, beyond the forecast.
abbrev plan : ForecastInput
plan = record {
  today = 106;
  horizon = 2;
  settings = record { opening_balance_date = 97; opening_balance = pos 1000 };
  txns = on 106 income 200 ∷ on 120 expense 50 ∷ on 130 income 30 ∷ on 170 income 999 ∷ [];
  recurring =
      record { kind = expense; amount = 300; active_from = 40; active_until = some 127 } ∷ [];
  mrr = 20;
  expected = record { due_date = 131; amount = 100; probability = 45 } ∷ [];
}

abbrev thirty : ℕ → ℕ
thirty month = 30

closings :
    map (λ (m : ForecastMonth). m.closing_balance) (forecast_months thirty plan)
    ≡ pos 870 ∷ pos 965 ∷ []
unfolding forecast_months
closings = refl

forecast_months-balance_example :
    closing (balance_to plan.settings plan.txns 106) (forecast_months thirty plan)
    ≡ balance_to plan.settings plan.txns (last_day plan)
      +ℤ sub_ℕ
          (sum_of other_income (forecast_months thirty plan))
          (sum_of (λ (m : ForecastMonth). m.recurring_expense) (forecast_months thirty plan))
forecast_months-balance_example = forecast_months-balance thirty plan (omega arith) (omega arith)
