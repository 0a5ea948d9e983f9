-- ===== src/Finance/Receipts/Records.antt =====
-- Entries and obligations by hand: `createTxn`, `updateTxn`, `deleteTxn` and the operations on
-- expected payments of backend/src/modules/business/application/business-service.ts, on
-- backend/src/modules/business/infrastructure/business-repository.ts.
use oculus_business.Common.{ℕ, not, Option, none, some, ◌∷◌, if◌then◌else◌, is_some, find, filter}
use oculus_business.Common.Text.{Text}
use oculus_business.Common.Outcome.{Outcome, ok, fail, conflict}
use oculus_business.Common.Rows.{update_many}
use oculus_business.Finance.Receipts.{
  Txn, TxnKind, ExpectedPayment, expected, Ledger, ReceiptMessage, use_reversal, has_txn_id,
  has_payment_id, is_linked,
}

-- `CreateTxnRequest`. The category is not read back.
pub record TxnInput : Type 0 where
  pub kind : TxnKind
  pub amount : ℕ
  pub occurred_on : ℕ
  pub comment : Option Text

-- `createTxn`.
unfoldable pub create_txn : ℕ → TxnInput → Ledger → Ledger
create_txn id i l = record l {
  txns =
      record {
        id = id;
        kind = i.kind;
        amount = i.amount;
        occurred_on = i.occurred_on;
        comment = i.comment;
        deal_id = none;
        expected_payment_id = none;
        reversal_of_id = none;
        reversed_at = none;
      }
      ∷ l.txns;
}

-- `UpdateTxnRequest`: none for a field that the request leaves out.
pub record TxnChange : Type 0 where
  pub kind : Option TxnKind
  pub amount : Option ℕ
  pub occurred_on : Option ℕ
  pub comment : Option (Option Text)

abbrev pub or_else {ℓ} : {A : Type ℓ} → Option A → A → A
or_else none a = a
or_else (some b) a = b

abbrev pub change_txn : TxnChange → Txn → Txn
change_txn c x = record x {
  kind = or_else c.kind x.kind;
  amount = or_else c.amount x.amount;
  occurred_on = or_else c.occurred_on x.occurred_on;
  comment = or_else c.comment x.comment;
}

-- `findLinkedReceiptTxn`: the row of the identifier, whatever it is linked to.
unfoldable pub find_linked_receipt_txn : ℕ → Ledger → Option Txn
find_linked_receipt_txn id l = find (has_txn_id id) l.txns

-- `updateTxn`; the answer of a change of no row is the database's error, and no row is changed.
unfoldable pub update_txn : ℕ → TxnChange → Ledger → Ledger × Outcome ReceiptMessage (Unit {0})
unfolding find_linked_receipt_txn update_many
update_txn id c l =
    if is_some (find_linked_receipt_txn id l)
    then (l, fail conflict use_reversal)
    else (record l { txns = (update_many (has_txn_id id) (change_txn c) l.txns).0 }, ok tt)

-- `deleteTxn`.
unfoldable pub delete_txn : ℕ → Ledger → Ledger × Outcome ReceiptMessage (Unit {0})
unfolding find_linked_receipt_txn
delete_txn id l =
    if is_some (find_linked_receipt_txn id l)
    then (l, fail conflict use_reversal)
    else (record l { txns = filter (λ x. not (has_txn_id id x)) l.txns }, ok tt)

-- `CreateExpectedPaymentRequest`.
pub record PaymentInput : Type 0 where
  pub title : Text
  pub amount : ℕ
  pub due_date : ℕ
  pub probability : ℕ
  pub deal_id : Option ℕ

-- `createExpectedPayment`, with the defaults of the table.
unfoldable pub create_expected_payment : ℕ → PaymentInput → Ledger → Ledger
create_expected_payment id i l = record l {
  payments =
      record {
        id = id;
        title = i.title;
        amount = i.amount;
        due_date = i.due_date;
        probability = i.probability;
        deal_id = i.deal_id;
        status = expected;
        received_amount = 0;
        row_version = 1;
      }
      ∷ l.payments;
}

-- `UpdateExpectedPaymentRequest`.
pub record PaymentChange : Type 0 where
  pub title : Option Text
  pub amount : Option ℕ
  pub due_date : Option ℕ
  pub probability : Option ℕ
  pub deal_id : Option (Option ℕ)

abbrev pub change_payment : PaymentChange → ExpectedPayment → ExpectedPayment
change_payment c p = record p {
  title = or_else c.title p.title;
  amount = or_else c.amount p.amount;
  due_date = or_else c.due_date p.due_date;
  probability = or_else c.probability p.probability;
  deal_id = or_else c.deal_id p.deal_id;
}

-- `updateExpectedPayment`.
unfoldable pub update_expected_payment : ℕ → PaymentChange → Ledger → Ledger
unfolding update_many
update_expected_payment id c l = record l {
  payments = (update_many (has_payment_id id) (change_payment c) l.payments).0;
}

-- `onDelete: SetNull` on the transactions of the payment.
abbrev pub unlink : Txn → Txn
unlink x = record x { expected_payment_id = none }

-- `deleteExpectedPayment`.
unfoldable pub delete_expected_payment : ℕ → Ledger → Ledger
unfolding update_many
delete_expected_payment id l = record {
  payments = filter (λ p. not (has_payment_id id p)) l.payments;
  txns = (update_many (is_linked id) unlink l.txns).0;
}
