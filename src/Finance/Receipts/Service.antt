-- ===== src/Finance/Receipts/Service.antt =====
-- Receipts as the service takes them: `confirmReceipt`, `receiveRemaining` and `reverseReceipt` of
-- backend/src/modules/business/application/sales-service.ts. The capability is checked first, and
-- a receipt runs under its idempotency key.
use oculus_business.Common.{
  ℕ, ◌-◌, Bool, true, false, not, ◌&&◌, ◌||◌, Option, none, some, List, ◌==◌, if◌then◌else◌, find,
}
use oculus_business.Common.Int.{sub_ℕ}
use oculus_business.Common.Text.{lit}
use oculus_business.Common.Outcome.{Outcome, ok, fail, not_found}
use oculus_business.Identity.{User}
use oculus_business.Access.{Actor, LogEntry, AccessMessage, finance_confirm, assert_capability}
use oculus_business.Finance.Receipts.Reversal.{Reversal, ReversalInput, reverse_receipt}
use oculus_business.Idempotency.{
  from_run, Slot, IdempotencyRecord, Completion, RepeatMessage, Stored, with_idempotency, Served,
}
use oculus_business.Finance.Receipts.{
  ExpectedPayment, PaymentStatus, Ledger, ReceiptInput, ReceiptMessage, payment_missing,
  PaymentReceipt, apply_receipt, has_payment_id, is_cancelled,
}

-- `findExpectedPaymentInternal`.
unfoldable pub find_expected_payment : ℕ → Ledger → Option ExpectedPayment
find_expected_payment id l = find (has_payment_id id) l.payments

abbrev pub is_received_status : PaymentStatus → Bool
is_received_status PaymentStatus.received = true
is_received_status _ = false

-- The answer for an obligation that is closed already.
abbrev pub already_received : ExpectedPayment → ReceiptInput → PaymentReceipt
already_received p i = record {
  txn_id = none;
  expected_payment_id = p.id;
  amount = 0;
  occurred_on = i.actual_received_on;
  deal_id = p.deal_id;
  received_amount = p.received_amount;
  remaining_amount = sub_ℕ p.amount p.received_amount;
  status = PaymentStatus.received;
}

abbrev pub confirm_found :
    ℕ
    → ReceiptInput
    → Ledger
    → Option ExpectedPayment
    → Ledger × Outcome ReceiptMessage PaymentReceipt
confirm_found txn_id i l none = (l, fail not_found payment_missing)
confirm_found txn_id i l (some p) =
    if is_received_status p.status && not i.allow_overpayment
    then (l, ok (already_received p i))
    else apply_receipt txn_id p.id i l

-- The operation that `confirmReceipt` runs under its key; other requests may come between its
-- read and its transaction, which reads the obligation again.
unfoldable pub confirm_run :
    ℕ → ℕ → ReceiptInput → Ledger → Ledger × Outcome ReceiptMessage PaymentReceipt
unfolding find_expected_payment
confirm_run txn_id payment_id i l = confirm_found txn_id i l (find_expected_payment payment_id l)

-- Why a request of a receipt fails.
pub data ServiceMessage : Type 0 where
  access_refused : AccessMessage → ServiceMessage
  receipt_refused : RepeatMessage ReceiptMessage → ServiceMessage

-- The ledger and the idempotency records.
pub record Books : Type 0 where
  pub ledger : Ledger
  pub records : List (IdempotencyRecord PaymentReceipt)

abbrev pub answered_books :
    Served Ledger ReceiptMessage PaymentReceipt
    → Books × Outcome ServiceMessage (Option (Stored PaymentReceipt))
answered_books ((l, t), ok r) = (record { ledger = l; records = t }, ok r)
answered_books ((l, t), fail k m) = (record { ledger = l; records = t }, fail k (receipt_refused m))

abbrev pub confirm_allowed :
    ℕ
    → Completion
    → Option Slot
    → ℕ
    → ℕ
    → ℕ
    → ReceiptInput
    → Books
    → Outcome AccessMessage (Unit {0})
    → Books × Outcome ServiceMessage (Option (Stored PaymentReceipt))
confirm_allowed txn_id completion s hash now payment_id i b (fail k m) =
    (b, fail k (access_refused m))
confirm_allowed txn_id completion s hash now payment_id i b (ok u) =
    answered_books
      (with_idempotency (confirm_run txn_id payment_id i) completion s hash now b.ledger b.records)

-- `confirmReceipt`; `hash` is the hash of the payment and the request.
unfoldable pub confirm_receipt :
    List User
    → Actor
    → List LogEntry
    → ℕ
    → Completion
    → Option Slot
    → ℕ
    → ℕ
    → ℕ
    → ReceiptInput
    → Books
    → Books × Outcome ServiceMessage (Option (Stored PaymentReceipt))
unfolding assert_capability with_idempotency confirm_run
confirm_receipt users actor log txn_id completion s hash now payment_id i b =
    confirm_allowed txn_id completion s hash now payment_id i b
      (assert_capability users actor finance_confirm (lit "payment.receipt") false log).0

-- What `receiveRemaining` asks for, if anything is left.
unfoldable pub remaining_request : ℕ → Option ExpectedPayment → Option ReceiptInput
remaining_request today none = none
remaining_request today (some p) =
    if p.amount - p.received_amount == 0 || is_cancelled p.status
    then none
    else some (record {
      amount = p.amount - p.received_amount;
      actual_received_on = today;
      comment = none;
      allow_overpayment = false;
    })

abbrev pub reversal_answer :
    Ledger × Outcome ReceiptMessage Reversal → Ledger × Outcome ServiceMessage Reversal
reversal_answer (l, ok r) = (l, ok r)
reversal_answer (l, fail k m) = (l, fail k (receipt_refused (from_run m)))

abbrev pub reverse_allowed :
    Ledger
    → Outcome AccessMessage (Unit {0})
    → Ledger × Outcome ServiceMessage Reversal
    → Ledger × Outcome ServiceMessage Reversal
reverse_allowed l (fail k m) answer = (l, fail k (access_refused m))
reverse_allowed l (ok u) answer = answer

-- `reverseReceipt` of the service; `reversal_date` of the input is today where none was given.
unfoldable pub reverse_by :
    List User
    → Actor
    → List LogEntry
    → ℕ
    → ℕ
    → ℕ
    → ReversalInput
    → Ledger
    → Ledger × Outcome ServiceMessage Reversal
unfolding assert_capability reverse_receipt
reverse_by users actor log id now payment_id i l =
    reverse_allowed l
      (assert_capability users actor finance_confirm (lit "receipt.reverse") false log).0
      (reversal_answer (reverse_receipt id now payment_id i l))
