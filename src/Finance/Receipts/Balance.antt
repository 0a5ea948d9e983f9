-- ===== src/Finance/Receipts/Balance.antt =====
-- The sum that an obligation has received is what its receipts brought, less what reversals took
-- back: kept by each operation on the ledger (backend/src/modules/business).
use oculus_business.Common.{
  ℕ, ◌+◌, ◌-◌, ◌≡◌, refl, sym, Bool, true, false, not, ◌&&◌, List, [], ◌∷◌, arith, ◌==◌,
  if◌then◌else◌, ==_iff, is_some, All, min,
}
use mathlib.Core.Path.{subst}
use oculus_business.Common.Rows.{All-update_many_imp, update_many, All-update_many_imp}
use oculus_business.Finance.Receipts.{
  Txn, ExpectedPayment, Ledger, is_linked, write_receipt, set_received, ReceiptInput,
  has_payment_id, with_received, status_after_receipt, receipt_txn, PaymentStatus, has_txn_id,
}
use oculus_business.Finance.Receipts.Reversal.{
  write_reversal, ReversalInput, reversal_txn, mark_reversed, status_after_reversal,
}

abbrev pub is_receipt : ℕ → Txn → Bool
is_receipt payment_id x = is_linked payment_id x && not (is_some x.reversal_of_id)

abbrev pub is_reversal : ℕ → Txn → Bool
is_reversal payment_id x = is_linked payment_id x && is_some x.reversal_of_id

-- The amounts of the transactions that a test picks.
unfoldable pub total : (Txn → Bool) → List Txn → ℕ
total p [] = 0
total p (x ∷ xs) = let rest = total p xs in if p x then x.amount + rest else rest

-- What an obligation has received, by the transactions.
abbrev pub IsBalancedAt : List Txn → ℕ → ℕ → Type 0
IsBalancedAt txns id sum = sum + total (is_reversal id) txns ≡ total (is_receipt id) txns

abbrev pub IsBalancedBy : List Txn → ExpectedPayment → Type 0
IsBalancedBy txns p = IsBalancedAt txns p.id p.received_amount

abbrev pub IsBalanced : Ledger → Type 0
IsBalanced l = All (IsBalancedBy l.txns) l.payments

-- A change of a row that keeps its amount and its links keeps each total.
pub total-update_many :
    (p q : Txn → Bool) (f : Txn → Txn) (xs : List Txn)
    → ((x : Txn) → ((f x).amount ≡ x.amount) × (p (f x) ≡ p x))
    → total p (update_many q f xs).0 ≡ total p xs
unfolding total update_many
total-update_many p q f [] same = refl
total-update_many p q f (x ∷ xs) same =
    ground (arith, total-update_many p q f xs same, (same x).0, (same x).1)

pub total-unlink :
    (p q : Txn → Bool) (f : Txn → Txn) (xs : List Txn)
    → ((x : Txn) → q x ≡ true → (p x ≡ false) × (p (f x) ≡ false))
    → total p (update_many q f xs).0 ≡ total p xs
unfolding total update_many
total-unlink p q f [] off = refl
total-unlink p q f (x ∷ xs) off = ground (arith, total-unlink p q f xs off, off x)

pub total_zero : (p : Txn → Bool) (xs : List Txn) → All (λ x. p x ≡ false) xs → total p xs ≡ 0
unfolding total
total_zero p [] off = refl
total_zero p (x ∷ xs) (h, hs) = ground (arith, total_zero p xs hs)

-- The sum of one payment is set to what the transactions now give; the others stand still.
set_received-IsBalanced :
    (p : ExpectedPayment) (sum : ℕ) (status : PaymentStatus) (txns txns' : List Txn)
    → (t : List ExpectedPayment) → IsBalancedAt txns' p.id sum
    → ((id : ℕ) → (id == p.id) ≡ false → (n : ℕ) → IsBalancedAt txns id n → IsBalancedAt txns' id n)
    → All (IsBalancedBy txns) t
    → All (IsBalancedBy txns') (set_received p.id sum status t)
unfolding set_received
set_received-IsBalanced p sum status txns txns' t own others all =
    All-update_many_imp (has_payment_id p.id) (with_received sum status) (IsBalancedBy txns)
      (IsBalancedBy txns') t
      (λ q h e. subst (λ n. IsBalancedAt txns' n sum) (sym ((==_iff q.id p.id).0 e)) own)
      (λ q h e. others q.id e q.received_amount h) all

-- A receipt is booked.
pub write_receipt-IsBalanced :
    (id : ℕ) (p : ExpectedPayment) (i : ReceiptInput) (l : Ledger)
    → IsBalancedBy l.txns p
    → IsBalanced l
    → IsBalanced (write_receipt id p i l)
unfolding write_receipt total
write_receipt-IsBalanced id p i l own all =
    let sum = p.received_amount + i.amount in
    set_received-IsBalanced p sum (status_after_receipt sum p.amount) l.txns
      (receipt_txn id p i ∷ l.txns) l.payments (ground arith) (λ n d k h. ground arith) all

-- A receipt is reversed.
pub write_reversal-IsBalanced :
    (id now : ℕ) (p : ExpectedPayment) (x : Txn) (i : ReversalInput) (l : Ledger)
    → IsBalancedBy l.txns p
    → IsBalanced l
    → IsBalanced (write_reversal id now p x i l)
unfolding write_reversal total
write_reversal-IsBalanced id now p x i l own all =
    let reversed = min x.amount p.received_amount in
    let left = p.received_amount - reversed in
    let row = reversal_txn id p x reversed i in
    let marked = λ (q : Txn → Bool) (same : (y : Txn) → q (mark_reversed now y) ≡ q y).
      total-update_many q (has_txn_id x.id) (mark_reversed now) (row ∷ l.txns)
        (λ y. (refl, same y)) in
    set_received-IsBalanced p left (status_after_reversal left p.amount) l.txns
      (update_many (has_txn_id x.id) (mark_reversed now) (row ∷ l.txns)).0 l.payments
      (rw (marked (is_reversal p.id) (λ y. refl), marked (is_receipt p.id) (λ y. refl))
        (ground arith))
      (λ n d k h.
        rw (marked (is_reversal n) (λ y. refl), marked (is_receipt n) (λ y. refl)) (ground arith))
      all
