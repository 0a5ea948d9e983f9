-- ===== src/Finance/Receipts/Examples.antt =====
-- Tests of receipts and reversals, and the theorems at one obligation.
use oculus_business.Common.{ℕ, ◌≡◌, refl, true, false, none, some, [], ◌∷◌, arith, is_some, find}
use oculus_business.Finance.Receipts.{
  ExpectedPayment, Ledger, ReceiptInput, apply_receipt, has_payment_id, PaymentStatus,
  over_remaining, lit, fail, has_txn_id, expected, conflict, use_reversal,
}
use oculus_business.Finance.Receipts.Reversal.{ReversalInput, reverse_receipt}
use oculus_business.Finance.Receipts.Records.{create_expected_payment, delete_txn, PaymentInput}
use oculus_business.Finance.Receipts.Steps.{
  adds_payment, receives, reverses, Reach, start, next, Reach-IsBalanced,
}
use oculus_business.Finance.Receipts.Undo.{reverse_receipt-apply_receipt, restored}
use oculus_business.Finance.Receipts.Balance.{IsBalanced}

abbrev invoice : PaymentInput
invoice = record {
  title = lit "Invoice";
  amount = 100;
  due_date = 5;
  probability = 80;
  deal_id = some 7;
}

abbrev empty : Ledger
empty = record { payments = []; txns = [] }

-- The row that is created for it.
abbrev new_invoice : ExpectedPayment
new_invoice = record {
  id = 1;
  title = lit "Invoice";
  amount = 100;
  due_date = 5;
  probability = 80;
  deal_id = some 7;
  status = expected;
  received_amount = 0;
  row_version = 1;
}

abbrev owed : Ledger
owed = record { payments = new_invoice ∷ []; txns = [] }

abbrev sixty : ReceiptInput
sixty = record { amount = 60; actual_received_on = 6; comment = none; allow_overpayment = false }

abbrev undo : ReversalInput
undo = record { txn_id = 10; reason = lit "refund"; reversal_date = 8 }

abbrev part_paid : Ledger
part_paid = (apply_receipt 10 1 sixty owed).0

abbrev taken_back : Ledger
taken_back = (reverse_receipt 11 9 1 undo part_paid).0

created : create_expected_payment 1 invoice empty ≡ owed
unfolding create_expected_payment
created = refl

second_receipt_refused : (apply_receipt 12 1 sixty part_paid).1 ≡ fail conflict over_remaining
unfolding apply_receipt
second_receipt_refused = refl

-- An entry that exists can be neither edited nor deleted, linked to an obligation or not.
no_delete :
    (id : ℕ) (l : Ledger)
    → is_some (find (has_txn_id id) l.txns) ≡ true
    → delete_txn id l ≡ (l, fail conflict use_reversal)
unfolding delete_txn
no_delete id l h = rw h refl

part_paid_received :
    find (has_payment_id 1) part_paid.payments
    ≡ some (record {
      id = 1;
      title = lit "Invoice";
      amount = 100;
      due_date = 5;
      probability = 80;
      deal_id = some 7;
      status = PaymentStatus.partially_received;
      received_amount = 60;
      row_version = 2;
    })
unfolding apply_receipt
part_paid_received = refl

part_paid_Reach : Reach taken_back
unfolding create_expected_payment
part_paid_Reach =
    next (next (next start (adds_payment 1 invoice tt)) (receives 10 1 sixty))
      (reverses 11 9 1 undo)

Reach-IsBalanced_example : IsBalanced taken_back
Reach-IsBalanced_example = Reach-IsBalanced taken_back part_paid_Reach

reverse_receipt-apply_receipt_example :
    find (has_payment_id 1) taken_back.payments ≡ some (restored new_invoice)
reverse_receipt-apply_receipt_example =
    (reverse_receipt-apply_receipt 10 11 9 sixty undo owed new_invoice refl refl (omega arith)
      refl).0
