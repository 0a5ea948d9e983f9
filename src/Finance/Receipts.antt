-- ===== src/Finance/Receipts.antt =====
-- Receipts: `applyReceipt` of backend/src/modules/business/infrastructure/sales-repository.ts, and
-- the tables it shares with the reversals and the plain edits of the children. Each operation is one
-- transaction or one statement, so it is one step on the ledger. Of the columns, those are kept that
-- the code reads back; dates are numbers. The new identifier of a row is an argument.
pub mod Reversal
pub mod Records
pub mod Balance
pub mod Steps
pub mod Undo
pub mod Service
mod Examples
use oculus_business.Common.{
  ℕ, zero, suc, ◌+◌, ◌-◌, ◌*◌, ◌≤◌, ◌<◌, ◌≡◌, refl, sym, ap, ◌∙◌, ◌≢◌, ◌↔◌, ◌⊎◌, inl, inr, Bool,
  true, false, not, ◌&&◌, ◌||◌, Option, none, some, List, [], ◌∷◌, ◌++◌, arith, ltb, leb, ◌==◌,
  if◌then◌else◌, ==_iff, Bool-cases, Option-cases, is_some, find, filter, any, All, Has, ◌<|>◌, min,
}
use oculus_business.Common.Int.{ℤ, pos, sub_ℕ}
use oculus_business.Common.Text.{Text, lit}
use oculus_business.Common.Outcome.{Outcome, ok, fail, FailureKind, not_found, conflict, validation}
use oculus_business.Common.Rows.{update_many}

pub data TxnKind : Type 0 where
  income expense : TxnKind

pub record Txn : Type 0 where
  pub id : ℕ
  pub kind : TxnKind
  pub amount : ℕ
  pub occurred_on : ℕ
  pub comment : Option Text
  pub deal_id : Option ℕ
  pub expected_payment_id : Option ℕ
  pub reversal_of_id : Option ℕ
  pub reversed_at : Option ℕ

pub data PaymentStatus : Type 0 where
  expected partially_received received cancelled : PaymentStatus

pub record ExpectedPayment : Type 0 where
  pub id : ℕ
  pub title : Text
  pub amount : ℕ
  pub due_date : ℕ
  pub probability : ℕ
  pub deal_id : Option ℕ
  pub status : PaymentStatus
  pub received_amount : ℕ
  pub row_version : ℕ

pub record Ledger : Type 0 where
  pub payments : List ExpectedPayment
  pub txns : List Txn

pub data ReceiptMessage : Type 0 where
  payment_missing payment_cancelled over_remaining : ReceiptMessage
  txn_missing not_linked is_reversal_itself reversed_before nothing_to_reverse : ReceiptMessage
  use_reversal : ReceiptMessage

-- `PaymentReceipt`; none for the transaction where nothing was written.
pub record PaymentReceipt : Type 0 where
  pub txn_id : Option ℕ
  pub expected_payment_id : ℕ
  pub amount : ℕ
  pub occurred_on : ℕ
  pub deal_id : Option ℕ
  pub received_amount : ℕ
  pub remaining_amount : ℤ
  pub status : PaymentStatus

abbrev pub has_payment_id : ℕ → ExpectedPayment → Bool
has_payment_id id p = p.id == id

abbrev pub has_txn_id : ℕ → Txn → Bool
has_txn_id id x = x.id == id

abbrev pub is_cancelled : PaymentStatus → Bool
is_cancelled PaymentStatus.cancelled = true
is_cancelled _ = false

-- What a request of a receipt says.
pub record ReceiptInput : Type 0 where
  pub amount : ℕ
  pub actual_received_on : ℕ
  pub comment : Option Text
  pub allow_overpayment : Bool

abbrev pub status_after_receipt : ℕ → ℕ → PaymentStatus
status_after_receipt received_amount amount =
    if leb amount received_amount then received else partially_received

-- The payment with a new sum received.
abbrev pub with_received : ℕ → PaymentStatus → ExpectedPayment → ExpectedPayment
with_received received_amount status p = record p {
  received_amount = received_amount;
  status = status;
  row_version = p.row_version + 1;
}

unfoldable pub set_received : ℕ → ℕ → PaymentStatus → List ExpectedPayment → List ExpectedPayment
unfolding update_many
set_received id received_amount status t =
    (update_many (has_payment_id id) (with_received received_amount status) t).0

abbrev pub receipt_txn : ℕ → ExpectedPayment → ReceiptInput → Txn
receipt_txn txn_id p i = record {
  id = txn_id;
  kind = income;
  amount = i.amount;
  occurred_on = i.actual_received_on;
  comment = i.comment <|> some p.title;
  deal_id = p.deal_id;
  expected_payment_id = some p.id;
  reversal_of_id = none;
  reversed_at = none;
}

-- The writes of `applyReceipt`.
unfoldable pub write_receipt : ℕ → ExpectedPayment → ReceiptInput → Ledger → Ledger
unfolding set_received
write_receipt txn_id p i l =
    let sum = p.received_amount + i.amount in
    record {
      payments = set_received p.id sum (status_after_receipt sum p.amount) l.payments;
      txns = receipt_txn txn_id p i ∷ l.txns;
    }

abbrev pub receipt_of : ℕ → ExpectedPayment → ReceiptInput → PaymentReceipt
receipt_of txn_id p i =
    let sum = p.received_amount + i.amount in
    record {
      txn_id = some txn_id;
      expected_payment_id = p.id;
      amount = i.amount;
      occurred_on = i.actual_received_on;
      deal_id = p.deal_id;
      received_amount = sum;
      remaining_amount = pos (p.amount - sum);
      status = status_after_receipt sum p.amount;
    }

abbrev pub apply_to :
    ℕ
    → ReceiptInput
    → Ledger
    → Option ExpectedPayment
    → Ledger × Outcome ReceiptMessage PaymentReceipt
apply_to txn_id i l none = (l, fail not_found payment_missing)
apply_to txn_id i l (some p) =
    if is_cancelled p.status
    then (l, fail conflict payment_cancelled)
    else if ltb p.amount (p.received_amount + i.amount) && not i.allow_overpayment
    then (l, fail conflict over_remaining)
    else (write_receipt txn_id p i l, ok (receipt_of txn_id p i))

-- `applyReceipt`.
unfoldable pub apply_receipt :
    ℕ → ℕ → ReceiptInput → Ledger → Ledger × Outcome ReceiptMessage PaymentReceipt
unfolding write_receipt
apply_receipt txn_id payment_id i l =
    apply_to txn_id i l (find (has_payment_id payment_id) l.payments)

abbrev pub is_linked : ℕ → Txn → Bool
is_linked payment_id x = elim x.expected_payment_id [ none ↦ false | some id ↦ id == payment_id ]

abbrev pub is_reversal_of : ℕ → Txn → Bool
is_reversal_of txn_id x = elim x.reversal_of_id [ none ↦ false | some id ↦ id == txn_id ]
