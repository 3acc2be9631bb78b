-- ===== src/Requests/Balance.antt =====
-- What the effect of a webhook's event on the tables means for the life of the bills.
use autopay.Base.{
  ℕ, ◌≤◌, ◌≡◌, ◌⊎◌, inl, inr, refl, subst, true, none, some, [], ◌∷◌, arith, Table, get, put,
  UniqueKeys, get-put, get_of_first,
}
use autopay.Models.{Bill, BillStatus, Transaction, Db}
use autopay.Payout.Charge.{has_reference}
use autopay.Payout.Reconcile.{IsOpen, IsClosed}
use autopay.Requests.Effects.{Ended, Effect}
use autopay.Requests.Lifecycle.{
  Move, Follows, stays, Follow, open_of, count_open, in_process, Balanced, count-put_known,
  count-put_new, waits, put-Follow,
}

-- Every bill has followed the machine, and open transactions are balanced afterwards.
abbrev pub Onwards : Db → Db → Type 0
Onwards d d' = Follow d.bills d'.bills × Balanced d'.bills d'.transactions

closed_of : (k : ℕ) (x : Transaction) → IsClosed x → open_of k x ≡ 0
closed_of k x h = ground arith

open_of_own : (k : ℕ) (x : Transaction) → x.bill_id ≡ some k → IsOpen x → open_of k x ≡ 1
open_of_own k x e h = ground arith

open_counted :
    (k j : ℕ) (x : Transaction) (t : Table Transaction)
    → get j t ≡ some x
    → open_of k x ≤ count_open k t
open_counted k j x [] e = cc
open_counted k j x ((i, y) ∷ t) e = ground (arith, open_counted k j x t)

processing_of : (b : Bill) → 1 ≤ in_process (some b) → b.status ≡ BillStatus.processing
processing_of b h = ground arith

waiting_of : (b : Bill) (b' : Bill) → Ended b b' → in_process (some b') ≡ 0
waiting_of b b' e = let s = e.status in ground arith

ended-Move :
    (s s' : BillStatus)
    → s ≡ BillStatus.processing
    → (s' ≡ BillStatus.paid) ⊎ (s' ≡ BillStatus.scheduled) ⊎ (s' ≡ BillStatus.failed)
    → Move s s'
ended-Move s s' e (inl p) = rw (e, p) Move.settle
ended-Move s s' e (inr (inl p)) = rw (e, p) Move.retry
ended-Move s s' e (inr (inr p)) = rw (e, p) Move.give_up

module _ (d d' : Db) (unique : UniqueKeys d.transactions)
    (balanced : Balanced d.bills d.transactions) where
  pub unchanged-Onwards : d'.bills ≡ d.bills → d'.transactions ≡ d.transactions → Onwards d d'
  unchanged-Onwards bills txns = (rw bills (λ k b e. (b, e, stays b)), rw (bills, txns) balanced)

  closes-Onwards :
      (j : ℕ) (x x' : Transaction)
      → get j d.transactions ≡ some x
      → IsClosed x'
      → d'.bills ≡ d.bills
      → d'.transactions ≡ put j x' d.transactions
      → Onwards d d'
  closes-Onwards j x x' e closed bills txns = (
    rw bills (λ k b e. (b, e, stays b)),
    rw (bills, txns)
        λ k.
          let less = count-put_known k j x x' d.transactions e in
          let zero = closed_of k x' closed in let before = balanced k in omega arith,
  )

  module _ (j k : ℕ) (x x' : Transaction) (b b' : Bill) (found : get j d.transactions ≡ some x)
      (closed : IsClosed x') (owned : x.bill_id ≡ some k) (billed : get k d.bills ≡ some b)
      (live : IsOpen x) (ended : Ended b b') where
    was_processing : b.status ≡ BillStatus.processing
    was_processing =
        let counted = open_counted k j x d.transactions found in
        let one = open_of_own k x owned live in
        let before = subst (λ o. count_open k d.transactions ≤ in_process o) billed (balanced k) in
        processing_of b (omega arith)

    ended-Follows : Follows b b'
    ended-Follows = record {
      status = inr (ended-Move b.status b'.status was_processing ended.status);
      amount = ended.amount;
      user_id = ended.user_id;
    }

    ended_count :
        (i : ℕ) → count_open i (put j x' d.transactions) ≤ in_process (get i (put k b' d.bills))
    ended_count i = ground (
      arith,
      count-put_known i j x x' d.transactions found,
      closed_of i x' closed,
      balanced i,
      get-put k i b' d.bills,
      waiting_of b b' ended,
      open_of_own k x owned live,
    )

  pub Effect-Onwards : Effect d d' → Onwards d d'
  Effect-Onwards (Effect.nothing bills txns) = unchanged-Onwards bills txns
  Effect-Onwards (Effect.closes j x x' r found same closed bills txns) =
      closes-Onwards j x x' (get_of_first (has_reference r) j x d.transactions unique found) closed
        bills txns
  Effect-Onwards
        (Effect.ends j x x' r k b b' named same closed owned billed live ended bills txns) =
      let found = get_of_first (has_reference r) j x d.transactions unique named in
      let followed = ended-Follows j k x x' b b' found closed owned billed live ended in
      (
        rw bills (put-Follow k b b' d.bills billed followed),
        rw (bills, txns) (ended_count j k x x' b b' found closed owned billed live ended),
      )

  -- Transactions stay, and no bill leaves its process.
  pub bills-Onwards :
      Follow d.bills d'.bills
      → ((k : ℕ) → in_process (get k d.bills) ≤ in_process (get k d'.bills))
      → d'.transactions ≡ d.transactions
      → Onwards d d'
  bills-Onwards followed more txns =
      (followed, λ k. rw txns (let before = balanced k in let after = more k in omega arith))

  -- A payment that has begun.
  pub begun-Onwards :
      (n k : ℕ) (b : Bill) (debit : Transaction)
      → get k d.bills ≡ some b
      → waits b.status ≡ true
      → get n d.transactions ≡ none
      → debit.bill_id ≡ some k
      → d'.bills ≡ put k (record b { status = BillStatus.processing }) d.bills
      → d'.transactions ≡ put n debit d.transactions
      → Onwards d d'
  begun-Onwards n k b debit billed waiting free owned bills txns = (
    rw bills (
        put-Follow k b _ d.bills billed
          (record { status = inr (Move.pay waiting); amount = refl; user_id = refl })),
    rw (bills, txns)
        λ i. ground (
          arith,
          count-put_new i n debit d.transactions,
          balanced i,
          get-put k i (record b { status = BillStatus.processing }) d.bills,
        ),
  )
