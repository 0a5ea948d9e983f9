-- ===== src/Finance/Receipts/Reversal.antt =====
-- The reversal of a receipt: `reverseReceipt` of
-- backend/src/modules/business/infrastructure/sales-repository-v2.ts.
use oculus_business.Common.{
  ℕ, ◌-◌, not, Option, none, some, [], ◌∷◌, ◌++◌, leb, ◌==◌, if◌then◌else◌, is_some, find, any,
  ◌<|>◌, min,
}
use oculus_business.Common.Text.{Text, lit}
use oculus_business.Common.Outcome.{Outcome, ok, fail, not_found, conflict, validation}
use oculus_business.Common.Rows.{update_many}
use oculus_business.Finance.Receipts.{
  Txn, PaymentStatus, ExpectedPayment, Ledger, ReceiptMessage, has_payment_id, has_txn_id,
  set_received, is_linked, is_reversal_of, expense, expected, partially_received, received,
  payment_missing, txn_missing, not_linked, is_reversal_itself, reversed_before, nothing_to_reverse,
}

-- What `reverseReceipt` answers.
pub record Reversal : Type 0 where
  pub reversal_txn_id : ℕ
  pub expected_payment_id : ℕ
  pub reversed_txn_id : ℕ
  pub received_amount : ℕ
  pub remaining_amount : ℕ
  pub status : PaymentStatus

-- Who reverses what, and when.
pub record ReversalInput : Type 0 where
  pub txn_id : ℕ
  pub reason : Text
  pub reversal_date : ℕ

abbrev pub status_after_reversal : ℕ → ℕ → PaymentStatus
status_after_reversal received_amount amount =
    if received_amount == 0
    then expected
    else if leb amount received_amount
    then received
    else partially_received

abbrev pub reversal_comment : Txn → ExpectedPayment → Text → Text
reversal_comment x p reason =
    elim (x.comment <|> some p.title) [ none ↦ [] | some c ↦ c ] ++ (lit " — основание: " ++ reason)

abbrev pub reversal_txn : ℕ → ExpectedPayment → Txn → ℕ → ReversalInput → Txn
reversal_txn id p x reversed i = record {
  id = id;
  kind = expense;
  amount = reversed;
  occurred_on = i.reversal_date;
  comment = some (reversal_comment x p i.reason);
  deal_id = x.deal_id;
  expected_payment_id = some p.id;
  reversal_of_id = some x.id;
  reversed_at = none;
}

abbrev pub mark_reversed : ℕ → Txn → Txn
mark_reversed now x = record x { reversed_at = some now }

-- The writes of `reverseReceipt`, for the sum that is reversed.
unfoldable pub write_reversal : ℕ → ℕ → ExpectedPayment → Txn → ReversalInput → Ledger → Ledger
unfolding set_received update_many
write_reversal id now p x i l =
    let reversed = min x.amount p.received_amount in
    let left = p.received_amount - reversed in
    record {
      payments = set_received p.id left (status_after_reversal left p.amount) l.payments;
      txns =
          (update_many (has_txn_id x.id) (mark_reversed now)
            (reversal_txn id p x reversed i ∷ l.txns)).0;
    }

abbrev pub reversal_of : ℕ → ExpectedPayment → Txn → Reversal
reversal_of id p x =
    let left = p.received_amount - min x.amount p.received_amount in
    record {
      reversal_txn_id = id;
      expected_payment_id = p.id;
      reversed_txn_id = x.id;
      received_amount = left;
      remaining_amount = p.amount - left;
      status = status_after_reversal left p.amount;
    }

-- `reverseReceipt` on the payment and the transaction that were found.
unfoldable pub reverse_found :
    ℕ
    → ℕ
    → ExpectedPayment
    → Txn
    → ReversalInput
    → Ledger
    → Ledger × Outcome ReceiptMessage Reversal
unfolding write_reversal
reverse_found id now p x i l =
    if not (is_linked p.id x)
    then (l, fail validation not_linked)
    else if is_some x.reversal_of_id
    then (l, fail conflict is_reversal_itself)
    else if any (is_reversal_of x.id) l.txns
    then (l, fail conflict reversed_before)
    else if min x.amount p.received_amount == 0
    then (l, fail conflict nothing_to_reverse)
    else (write_reversal id now p x i l, ok (reversal_of id p x))

abbrev pub reverse_with :
    ℕ
    → ℕ
    → ReversalInput
    → Ledger
    → Option ExpectedPayment
    → Option Txn
    → Ledger × Outcome ReceiptMessage Reversal
reverse_with id now i l none o = (l, fail not_found payment_missing)
reverse_with id now i l (some p) none = (l, fail not_found txn_missing)
reverse_with id now i l (some p) (some x) = reverse_found id now p x i l

-- `reverseReceipt`.
unfoldable pub reverse_receipt :
    ℕ → ℕ → ℕ → ReversalInput → Ledger → Ledger × Outcome ReceiptMessage Reversal
unfolding reverse_found
reverse_receipt id now payment_id i l =
    reverse_with id now i l (find (has_payment_id payment_id) l.payments)
      (find (has_txn_id i.txn_id) l.txns)
