-- ===== src/Requests/Effects.antt =====
-- What an event can have done to the tables of bills and transactions.
use autopay.Base.{ℕ, ◌≡◌, ◌⊎◌, inl, inr, Table, some, String, get, put, first}
use autopay.Models.{BillStatus, Bill, Transaction, Db}
use autopay.Payout.Charge.{has_reference}
use autopay.Payout.Reconcile.{IsOpen, IsClosed}

-- Nothing, or one bill that is there, has changed.
abbrev pub BillRewrite : Table Bill → Table Bill → Type 0
BillRewrite t t' =
    (t' ≡ t) ⊎ ((k : ℕ) × (b : Bill) × (b' : Bill) × (get k t ≡ some b) × (t' ≡ put k b' t))

-- Nothing, or one transaction that a reference names, has changed, and not in its reference.
abbrev pub TransactionRewrite : Table Transaction → Table Transaction → Type 0
TransactionRewrite t t' =
    (t' ≡ t)
    ⊎ ((k : ℕ) × (x : Transaction) × (x' : Transaction) × (r : String) × (first (has_reference r) t
          ≡ some (k, x))
        × (x'.provider_reference ≡ x.provider_reference)
        × (t' ≡ put k x' t))

abbrev pub Rewrites : Db → Db → Type 0
Rewrites d d' = BillRewrite d.bills d'.bills × TransactionRewrite d.transactions d'.transactions

-- How a payout ends for its bill.
pub record Ended (b b' : Bill) : Type 0 where
  pub status :
      (b'.status ≡ BillStatus.paid)
      ⊎ (b'.status ≡ BillStatus.scheduled)
      ⊎ (b'.status ≡ BillStatus.failed)
  pub amount : b'.amount ≡ b.amount
  pub user_id : b'.user_id ≡ b.user_id

-- What a handler has done: nothing; or a transaction that a reference names is closed, and nothing
-- else; or it was open, is closed, and its bill's payout has ended.
pub data Effect (d d' : Db) : Type 0 where
  nothing : d'.bills ≡ d.bills → d'.transactions ≡ d.transactions → Effect d d'
  closes :
      (k : ℕ) (x x' : Transaction) (r : String)
      → first (has_reference r) d.transactions ≡ some (k, x)
      → x'.provider_reference ≡ x.provider_reference
      → IsClosed x'
      → d'.bills ≡ d.bills
      → d'.transactions ≡ put k x' d.transactions
      → Effect d d'
  ends :
      (k : ℕ) (x x' : Transaction) (r : String) (j : ℕ) (b b' : Bill)
      → first (has_reference r) d.transactions ≡ some (k, x)
      → x'.provider_reference ≡ x.provider_reference
      → IsClosed x'
      → x.bill_id ≡ some j
      → get j d.bills ≡ some b
      → IsOpen x
      → Ended b b'
      → d'.bills ≡ put j b' d.bills
      → d'.transactions ≡ put k x' d.transactions
      → Effect d d'

pub Effect-Rewrites : {d d' : Db} → Effect d d' → Rewrites d d'
Effect-Rewrites (Effect.nothing bills txns) = (inl bills, inl txns)
Effect-Rewrites (Effect.closes k x x' r found same closed bills txns) =
    (inl bills, inr (k, x, x', r, found, same, txns))
Effect-Rewrites (Effect.ends k x x' r j b b' found same closed owned billed live ended bills txns) =
    (inr (j, b, b', billed, bills), inr (k, x, x', r, found, same, txns))
