-- ===== src/Finance/Receipts/Undo.antt =====
-- A receipt and its reversal (`applyReceipt` and `reverseReceipt`, backend/src/modules/business).
use oculus_business.Common.{
  ℕ, ◌+◌, ◌-◌, ◌<◌, ◌≡◌, refl, ◌∙◌, Bool, true, false, not, ◌&&◌, some, List, arith, ltb, ◌==◌,
  ==_iff, is_some, find, any, min,
}
use oculus_business.Common.Outcome.{ok}
use oculus_business.Common.Rows.{find-update_many_same}
use oculus_business.Finance.Receipts.{
  Txn, ExpectedPayment, Ledger, ReceiptInput, is_cancelled, apply_receipt, write_receipt,
  receipt_txn, receipt_of, has_payment_id, has_txn_id, is_linked, is_reversal_of, set_received,
  with_received, status_after_receipt, PaymentStatus,
}
use oculus_business.Finance.Receipts.Reversal.{
  ReversalInput, reverse_receipt, reverse_found, write_reversal, reversal_of, status_after_reversal,
}

find-set_received :
    (p : ExpectedPayment) (sum : ℕ) (status : PaymentStatus) (t : List ExpectedPayment)
    → find (has_payment_id p.id) t ≡ some p
    → find (has_payment_id p.id) (set_received p.id sum status t)
      ≡ some (with_received sum status p)
unfolding set_received
find-set_received p sum status t e =
    find-update_many_same (has_payment_id p.id) (with_received sum status) p t (λ q h. h) e

-- The receipt fits the obligation, or an overpayment is allowed.
abbrev pub is_accepted : ExpectedPayment → ReceiptInput → Bool
is_accepted p i =
    not (is_cancelled p.status)
    && not (ltb p.amount (p.received_amount + i.amount) && not i.allow_overpayment)

apply_receipt-accepted :
    (id : ℕ) (i : ReceiptInput) (l : Ledger) (p : ExpectedPayment)
    → find (has_payment_id p.id) l.payments ≡ some p
    → is_accepted p i ≡ true
    → apply_receipt id p.id i l ≡ (write_receipt id p i l, ok (receipt_of id p i))
unfolding apply_receipt
apply_receipt-accepted id i l p e fits = rw e (ground arith)

reverse_found-accepted :
    (id now : ℕ) (p : ExpectedPayment) (x : Txn) (i : ReversalInput) (l : Ledger)
    → is_linked p.id x ≡ true
    → is_some x.reversal_of_id ≡ false
    → any (is_reversal_of x.id) l.txns ≡ false
    → (min x.amount p.received_amount == 0) ≡ false
    → reverse_found id now p x i l ≡ (write_reversal id now p x i l, ok (reversal_of id p x))
unfolding reverse_found
reverse_found-accepted id now p x i l a b c d = rw (a, b, c, d) refl

-- The payment as it stands after a receipt and its reversal.
abbrev pub restored : ExpectedPayment → ExpectedPayment
restored p = record p {
  status = status_after_reversal p.received_amount p.amount;
  row_version = p.row_version + 2;
}

module _ (id id' now : ℕ) (i : ReceiptInput) (j : ReversalInput) (l : Ledger)
    (p : ExpectedPayment) where
  -- The payment after the receipt.
  abbrev paid : ExpectedPayment
  paid =
      let sum = p.received_amount + i.amount in
      with_received sum (status_after_receipt sum p.amount) p

  abbrev booked : Txn
  booked = receipt_txn id p i

  abbrev back : ReversalInput
  back = record j { txn_id = id }

  find-write_receipt :
      find (has_payment_id p.id) l.payments ≡ some p
      → find (has_payment_id p.id) (write_receipt id p i l).payments ≡ some paid
  unfolding write_receipt
  find-write_receipt e =
      let sum = p.received_amount + i.amount in
      find-set_received p sum (status_after_receipt sum p.amount) l.payments e

  find-booked : find (has_txn_id id) (write_receipt id p i l).txns ≡ some booked
  unfolding write_receipt
  find-booked = rw ((==_iff id id).1 refl) refl

  fresh_receipt :
      any (is_reversal_of id) l.txns ≡ false
      → any (is_reversal_of id) (write_receipt id p i l).txns ≡ false
  unfolding write_receipt
  fresh_receipt h = h

  reverses_booked :
      find (has_payment_id p.id) l.payments ≡ some p
      → 0 < i.amount
      → any (is_reversal_of id) l.txns ≡ false
      → reverse_receipt id' now p.id back (write_receipt id p i l) ≡ (
        write_reversal id' now paid booked back (write_receipt id p i l),
        ok (reversal_of id' paid booked),
      )
  unfolding reverse_receipt
  reverses_booked e positive fresh =
      rw (find-write_receipt e, find-booked)
        (reverse_found-accepted id' now paid booked back (write_receipt id p i l)
          ((==_iff p.id p.id).1 refl) refl (fresh_receipt fresh) (ground arith))

  given_back :
      p.received_amount + i.amount - min i.amount (p.received_amount + i.amount) ≡ p.received_amount
  given_back = omega arith

  find-reversed :
      find (has_payment_id p.id) l.payments ≡ some p
      → find
          (has_payment_id p.id)
          (write_reversal id' now paid booked back (write_receipt id p i l)).payments
        ≡ some (restored p)
  unfolding write_reversal
  find-reversed e =
      let left = paid.received_amount - min i.amount paid.received_amount in
      find-set_received paid left (status_after_reversal left p.amount)
        (write_receipt id p i l).payments (find-write_receipt e)
      ∙ rw given_back (ground arith)

  -- A receipt of a positive amount that was accepted can be reversed; the reversal is accepted,
  -- and it gives the obligation back the sum that it had received before, with the status of that
  -- sum.
  pub reverse_receipt-apply_receipt :
      find (has_payment_id p.id) l.payments ≡ some p
      → is_accepted p i ≡ true
      → 0 < i.amount
      → any (is_reversal_of id) l.txns ≡ false
      → let l' = (apply_receipt id p.id i l).0 in
        let r = reverse_receipt id' now p.id (record j { txn_id = id }) l' in
        (find (has_payment_id p.id) r.0.payments ≡ some (restored p))
        × (r.1
            ≡ ok (record {
              reversal_txn_id = id';
              expected_payment_id = p.id;
              reversed_txn_id = id;
              received_amount = p.received_amount;
              remaining_amount = p.amount - p.received_amount;
              status = status_after_reversal p.received_amount p.amount;
            }))
  reverse_receipt-apply_receipt e fits positive fresh =
      rw (apply_receipt-accepted id i l p e fits, reverses_booked e positive fresh)
        (find-reversed e, rw given_back refl)
