-- ===== src/Finance/Receipts/Steps.antt =====
-- The ledger under all its operations, by any users and in any order
-- (backend/src/modules/business).
use oculus_business.Common.{
  ℕ, ◌≡◌, refl, inl, inr, Bool, true, false, not, Option, none, some, List, [], ◌∷◌, arith,
  Bool-cases, is_some, find, filter, All,
}
use oculus_business.Common.Rows.{
  update_many_none, update_many, All-imp, All-update_many_imp, All-Has, find-Has,
}
use oculus_business.Finance.Receipts.{
  Txn, ExpectedPayment, Ledger, ReceiptInput, apply_receipt, apply_to, has_payment_id, has_txn_id,
  is_linked,
}
use oculus_business.Finance.Receipts.Reversal.{
  ReversalInput, reverse_receipt, reverse_with, reverse_found,
}
use oculus_business.Finance.Receipts.Records.{
  TxnInput, create_txn, TxnChange, change_txn, update_txn, delete_txn, PaymentInput,
  create_expected_payment, PaymentChange, change_payment, update_expected_payment, unlink,
  delete_expected_payment,
}
use oculus_business.Finance.Receipts.Balance.{
  total, is_receipt, is_reversal, IsBalancedBy, IsBalanced, write_receipt-IsBalanced,
  write_reversal-IsBalanced, total-unlink, total_zero,
}

-- One operation. A new obligation gets an identifier that no transaction names.
pub data Step (l : Ledger) : Ledger → Type 0 where
  receives : (id payment_id : ℕ) (i : ReceiptInput) → Step l (apply_receipt id payment_id i l).0
  reverses :
      (id now payment_id : ℕ) (i : ReversalInput) → Step l (reverse_receipt id now payment_id i l).0
  adds_txn : (id : ℕ) (i : TxnInput) → Step l (create_txn id i l)
  edits_txn : (id : ℕ) (c : TxnChange) → Step l (update_txn id c l).0
  drops_txn : (id : ℕ) → Step l (delete_txn id l).0
  adds_payment :
      (id : ℕ) (i : PaymentInput)
      → All (λ (x : Txn). is_linked id x ≡ false) l.txns
      → Step l (create_expected_payment id i l)
  edits_payment : (id : ℕ) (c : PaymentChange) → Step l (update_expected_payment id c l)
  drops_payment : (id : ℕ) → Step l (delete_expected_payment id l)

pub data Reach : Ledger → Type 0 where
  start : Reach (record { payments = []; txns = [] })
  next : {l l' : Ledger} → Reach l → Step l l' → Reach l'

apply_to-IsBalanced :
    (id : ℕ) (i : ReceiptInput) (l : Ledger) (o : Option ExpectedPayment) (n : ℕ)
    → find (has_payment_id n) l.payments ≡ o
    → IsBalanced l
    → IsBalanced (apply_to id i l o).0
apply_to-IsBalanced id i l none n e all = all
apply_to-IsBalanced id i l (some p) n e all =
    let own =
      All-Has (IsBalancedBy l.txns) p l.payments all
        (find-Has (has_payment_id n) p l.payments e).0 in
    ground (arith, write_receipt-IsBalanced id p i l own all)

reverse_found-IsBalanced :
    (id now : ℕ) (p : ExpectedPayment) (x : Txn) (i : ReversalInput) (l : Ledger)
    → IsBalancedBy l.txns p
    → IsBalanced l
    → IsBalanced (reverse_found id now p x i l).0
unfolding reverse_found
reverse_found-IsBalanced id now p x i l own all =
    ground (arith, write_reversal-IsBalanced id now p x i l own all)

reverse_with-IsBalanced :
    (id now n : ℕ) (i : ReversalInput) (l : Ledger) (o : Option ExpectedPayment) (x : Option Txn)
    → find (has_payment_id n) l.payments ≡ o
    → IsBalanced l
    → IsBalanced (reverse_with id now i l o x).0
reverse_with-IsBalanced id now n i l none x e all = all
reverse_with-IsBalanced id now n i l (some p) none e all = all
reverse_with-IsBalanced id now n i l (some p) (some x) e all =
    let own =
      All-Has (IsBalancedBy l.txns) p l.payments all
        (find-Has (has_payment_id n) p l.payments e).0 in
    reverse_found-IsBalanced id now p x i l own all

-- An entry that a search by its identifier does not find is nowhere in the table.
missing :
    (id : ℕ) (xs : List Txn)
    → is_some (find (has_txn_id id) xs) ≡ false
    → All (λ x. has_txn_id id x ≡ false) xs
missing id [] h = tt
missing id (x ∷ xs) h = ground (arith, missing id xs)

filter_missing :
    (id : ℕ) (xs : List Txn)
    → All (λ x. has_txn_id id x ≡ false) xs
    → filter (λ x. not (has_txn_id id x)) xs ≡ xs
filter_missing id [] h = refl
filter_missing id (x ∷ xs) h = ground (arith, filter_missing id xs h.1)

All-filter_imp :
    (P Q : ExpectedPayment → Type 0) (keep : ExpectedPayment → Bool) (xs : List ExpectedPayment)
    → ((x : ExpectedPayment) → P x → keep x ≡ true → Q x)
    → All P xs
    → All Q (filter keep xs)
All-filter_imp P Q keep [] imp h = tt
All-filter_imp P Q keep (x ∷ xs) imp (h, hs) =
    ground (arith, All-filter_imp P Q keep xs imp hs, imp x h)

create_txn-IsBalanced :
    (id : ℕ) (i : TxnInput) (l : Ledger) → IsBalanced l → IsBalanced (create_txn id i l)
unfolding create_txn total
create_txn-IsBalanced id i l all =
    All-imp (IsBalancedBy l.txns) (IsBalancedBy (create_txn id i l).txns) l.payments
      (λ q h. ground arith) all

update_txn-IsBalanced :
    (id : ℕ) (c : TxnChange) (l : Ledger) → IsBalanced l → IsBalanced (update_txn id c l).0
unfolding update_txn
update_txn-IsBalanced id c l all = elim (Bool-cases (is_some (find (has_txn_id id) l.txns))) [
  | inl e ↦ rw e all
  | inr e ↦ rw (e, update_many_none (has_txn_id id) (change_txn c) l.txns (missing id l.txns e)) all
]

delete_txn-IsBalanced : (id : ℕ) (l : Ledger) → IsBalanced l → IsBalanced (delete_txn id l).0
unfolding delete_txn
delete_txn-IsBalanced id l all = elim (Bool-cases (is_some (find (has_txn_id id) l.txns))) [
  | inl e ↦ rw e all
  | inr e ↦ rw (e, filter_missing id l.txns (missing id l.txns e)) all
]

create_payment-IsBalanced :
    (id : ℕ) (i : PaymentInput) (l : Ledger)
    → All (λ (x : Txn). is_linked id x ≡ false) l.txns
    → IsBalanced l
    → IsBalanced (create_expected_payment id i l)
unfolding create_expected_payment
create_payment-IsBalanced id i l fresh all =
    let no_reversal =
      All-imp (λ (x : Txn). is_linked id x ≡ false) (λ x. is_reversal id x ≡ false) l.txns
        (λ x h. ground arith) fresh in
    let no_receipt =
      All-imp (λ (x : Txn). is_linked id x ≡ false) (λ x. is_receipt id x ≡ false) l.txns
        (λ x h. ground arith) fresh in
    (
      omega (
        arith,
        total_zero (is_reversal id) l.txns no_reversal,
        total_zero (is_receipt id) l.txns no_receipt,
      ),
      all,
    )

update_payment-IsBalanced :
    (id : ℕ) (c : PaymentChange) (l : Ledger)
    → IsBalanced l
    → IsBalanced (update_expected_payment id c l)
unfolding update_expected_payment
update_payment-IsBalanced id c l all =
    All-update_many_imp (has_payment_id id) (change_payment c) (IsBalancedBy l.txns)
      (IsBalancedBy l.txns) l.payments (λ q h e. h) (λ q h e. h) all

delete_payment-IsBalanced :
    (id : ℕ) (l : Ledger) → IsBalanced l → IsBalanced (delete_expected_payment id l)
unfolding delete_expected_payment
delete_payment-IsBalanced id l all =
    let same =
      λ (p : Txn → Bool)
          (off : (x : Txn) → is_linked id x ≡ true → (p x ≡ false) × (p (unlink x) ≡ false)).
        total-unlink p (is_linked id) unlink l.txns off in
    All-filter_imp (IsBalancedBy l.txns) (IsBalancedBy (update_many (is_linked id) unlink l.txns).0)
      (λ p. not (has_payment_id id p)) l.payments
      (λ q h e.
        rw
          (
            same (is_reversal q.id) (λ x k. (ground arith, refl)),
            same (is_receipt q.id) (λ x k. (ground arith, refl)),
          )
          h)
      all

Step-IsBalanced : (l l' : Ledger) → Step l l' → IsBalanced l → IsBalanced l'
unfolding apply_receipt reverse_receipt
Step-IsBalanced l l' (receives id n i) all = apply_to-IsBalanced id i l _ n refl all
Step-IsBalanced l l' (reverses id now n i) all = reverse_with-IsBalanced id now n i l _ _ refl all
Step-IsBalanced l l' (adds_txn id i) all = create_txn-IsBalanced id i l all
Step-IsBalanced l l' (edits_txn id c) all = update_txn-IsBalanced id c l all
Step-IsBalanced l l' (drops_txn id) all = delete_txn-IsBalanced id l all
Step-IsBalanced l l' (adds_payment id i fresh) all = create_payment-IsBalanced id i l fresh all
Step-IsBalanced l l' (edits_payment id c) all = update_payment-IsBalanced id c l all
Step-IsBalanced l l' (drops_payment id) all = delete_payment-IsBalanced id l all

-- Whatever operations run, in any order, from an empty ledger: each obligation has received
-- exactly what the receipts booked on it brought, less what their reversals took back.
pub Reach-IsBalanced : (l : Ledger) → Reach l → IsBalanced l
Reach-IsBalanced l start = tt
Reach-IsBalanced l (next {l = k} r s) = Step-IsBalanced k l s (Reach-IsBalanced k r)
