-- ===== src/Requests/Lifecycle.antt =====
-- The life of a bill as an abstract machine on its status, and how many open transactions a bill has.
use autopay.Base.{
  ℕ, ◌+◌, ◌≤◌, ◌≡◌, ◌⊎◌, inl, refl, Bool, true, false, not, ◌&&◌, ◌||◌, ◌==◌, Option, none, some,
  [], ◌∷◌, arith, Table, get, put, if◌then◌else◌, get-put,
}
use autopay.Models.{Bill, BillStatus, Transaction, TransactionStatus, bill_status_eq, txn_status_eq}

-- The statuses of a bill that is neither over nor in process.
abbrev pub waits : BillStatus → Bool
waits s = not (
    bill_status_eq s BillStatus.processing
    || bill_status_eq s BillStatus.paid
    || bill_status_eq s BillStatus.cancelled)

-- What can happen to a bill.
pub data Move : BillStatus → BillStatus → Type 0 where
  pay : {s : BillStatus} → waits s ≡ true → Move s BillStatus.processing
  cancel : {s : BillStatus} → waits s ≡ true → Move s BillStatus.cancelled
  cover : Move BillStatus.scheduled BillStatus.pending
  settle : Move BillStatus.processing BillStatus.paid
  retry : Move BillStatus.processing BillStatus.scheduled
  give_up : Move BillStatus.processing BillStatus.failed

-- The status stays or makes one move; amount and owner stay.
pub record Follows (b b' : Bill) : Type 0 where
  pub status : (b'.status ≡ b.status) ⊎ Move b.status b'.status
  pub amount : b'.amount ≡ b.amount
  pub user_id : b'.user_id ≡ b.user_id

abbrev pub stays : (b : Bill) → Follows b b
stays b = record { status = inl refl; amount = refl; user_id = refl }

-- Every bill is still there, and has followed the machine.
abbrev pub Follow : Table Bill → Table Bill → Type 0
Follow t t' =
    (k : ℕ) (b : Bill) → get k t ≡ some b → (b' : Bill) × (get k t' ≡ some b') × Follows b b'

abbrev is_open : Transaction → Bool
is_open txn = not (
    txn_status_eq txn.status TransactionStatus.success
    || txn_status_eq txn.status TransactionStatus.failed)

abbrev is_of : ℕ → Option ℕ → Bool
is_of k none = false
is_of k (some j) = j == k

-- One for an open transaction of the bill.
abbrev pub open_of : ℕ → Transaction → ℕ
open_of k txn = if is_open txn && is_of k txn.bill_id then 1 else 0

abbrev pub count_open : ℕ → Table Transaction → ℕ
count_open k [] = 0
count_open k ((j, txn) ∷ t) = open_of k txn + count_open k t

-- One for a bill in process.
abbrev pub in_process : Option Bill → ℕ
in_process none = 0
in_process (some b) = if bill_status_eq b.status BillStatus.processing then 1 else 0

-- A bill has an open transaction at most while it is in process, and then one at most.
abbrev pub Balanced : Table Bill → Table Transaction → Type 0
Balanced bills txns = (k : ℕ) → count_open k txns ≤ in_process (get k bills)

pub count-put_known :
    (k j : ℕ) (x x' : Transaction) (t : Table Transaction)
    → get j t ≡ some x
    → count_open k (put j x' t) + open_of k x ≡ count_open k t + open_of k x'
count-put_known k j x x' [] e = cc
count-put_known k j x x' ((i, y) ∷ t) e = ground (arith, count-put_known k j x x' t)

pub count-put_new :
    (k j : ℕ) (x : Transaction) (t : Table Transaction)
    → get j t ≡ none
    → count_open k (put j x t) ≡ count_open k t + open_of k x
count-put_new k j x [] e = ground arith
count-put_new k j x ((i, y) ∷ t) e = ground (arith, count-put_new k j x t)

-- One bill has changed.
pub put-Follow :
    (k : ℕ) (b b' : Bill) (t : Table Bill) → get k t ≡ some b → Follows b b' → Follow t (put k b' t)
put-Follow k b b' t e f i c h = ground (arith, get-put k i b' t)
