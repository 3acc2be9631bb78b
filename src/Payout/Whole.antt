-- ===== src/Payout/Whole.antt =====
-- `execute_payout` as a whole: what a return and a raise mean for the wallet, the bill, the debit
-- row and the provider.
use autopay.Base.{
  ℕ, ◌-◌, ◌+◌, ◌≤◌, ◌≡◌, refl, ◌⊎◌, inl, inr, none, some, String, ◌∷◌, Option, arith, put, get,
  first, Bool-cases, put-put, ltb, ltb→le, ltb→lt, ◌∙◌, ap, ◌<◌, ◌++◌, decimal, true,
}
use autopay.Models.{User, Bill, Transaction, BillStatus, TransactionStatus, bill_status_eq}
use autopay.Session.{Exn, Result, ok, err, Transfer, World, put_bill, put_transaction}
use autopay.Audit.{audit_wallet_debit}
use autopay.Provider.{PaymentProvider}
use autopay.Payout.{PayoutResult, count_failure}
use autopay.Payout.Charge.{Payout, new_reference, has_reference}
use autopay.Payout.Execute.{
  resolve, debit_of, begin_with, begin_payout, check_balance, check_status, lock_user, lock_bill,
  execute_payout,
}
use autopay.Payout.Outcome.{Ended, resolve-Ended, AskedAtMost, PassedOn, Unrecorded, Recorded}

-- The statuses in which a bill may be paid.
abbrev pub IsPayable : Bill → Type 0
IsPayable b =
    (b.status ≡ BillStatus.pending)
    ⊎ (b.status ≡ BillStatus.scheduled)
    ⊎ (b.status ≡ BillStatus.failed)

same_status : (s s' : BillStatus) → bill_status_eq s s' ≡ true → s ≡ s'
same_status s s' h = ground arith

module _ (provider : PaymentProvider) (fee : ℕ) (bill_id : ℕ) (bill : Bill) (user : User)
    (hex : String) (w : World) where
  -- What a return has done to the session `w`.
  pub record Charged (r : PayoutResult) (w' : World) : Type 0 where
    pub transfer : Transfer
    pub sent : w'.sent ≡ transfer ∷ w.sent
    pub asked : w'.asked ≡ transfer ∷ w.asked
    pub reference : transfer.reference ≡ new_reference bill_id hex
    pub amount : transfer.amount_kobo ≡ bill.amount
    pub covered : bill.amount + fee ≤ user.balance
    pub users :
        w'.work.users
        ≡ put bill.user_id
            (record user { balance = user.balance - (bill.amount + fee) })
            w.work.users
    pub bills :
        w'.work.bills ≡ put bill_id (record bill { status = BillStatus.processing }) w.work.bills
    pub transactions :
        w'.work.transactions
        ≡ put w.next_transaction
            (debit_of provider fee bill_id bill (new_reference bill_id hex))
            w.work.transactions
    pub fresh : first (has_reference (new_reference bill_id hex)) w.work.transactions ≡ none
    pub committed : w'.committed ≡ w.committed
    pub next : w'.next_transaction ≡ w.next_transaction + 1
    pub told : r.reference ≡ new_reference bill_id hex

  abbrev pub bill' : Bill
  bill' = record bill { status = BillStatus.processing }

  abbrev pub debit : Transaction
  debit = debit_of provider fee bill_id bill' (new_reference bill_id hex)

  abbrev HasBill : Bill → World → Type 0
  HasBill b w' = w'.work.bills ≡ put bill_id b w.work.bills

  abbrev HasDebit : Transaction → World → Type 0
  HasDebit t w' = w'.work.transactions ≡ put w.next_transaction t w.work.transactions

  -- What a raise has done to bill and debit row: nothing, for a bill that may not be paid; the bill is
  -- pending, if the balance does not cover amount and fee; the bill is in process and no row is
  -- inserted, if its reference is taken; the failed attempt is counted and its row marked failed; or
  -- bill and row are left in process by an error that is passed on from the gateway.
  abbrev pub Unpaid : Exn → World → Type 0
  Unpaid e w' =
      ((e ≡ Exn.http 409 "Bill is already paid.")
        × (bill.status ≡ BillStatus.paid)
        × Unrecorded w w')
      ⊎ ((e ≡ Exn.http 409 "Bill is cancelled.")
          × (bill.status ≡ BillStatus.cancelled)
          × Unrecorded w w')
      ⊎ ((e ≡ Exn.http 409 "Bill is already being processed.")
          × (bill.status ≡ BillStatus.processing)
          × Unrecorded w w')
      ⊎ ((detail : String) × (e ≡ Exn.http 402 detail)
          × (user.balance < bill.amount + fee)
          × HasBill (record bill { status = BillStatus.pending }) w'
          × (w'.work.transactions ≡ w.work.transactions))
      ⊎ ((row : ℕ × Transaction) × (e ≡ Exn.integrity_error)
          × (first (has_reference (new_reference bill_id hex)) w.work.transactions ≡ some row)
          × HasBill bill' w'
          × (w'.work.transactions ≡ w.work.transactions))
      ⊎ ((reason : String) × HasBill (count_failure bill') w'
          × HasDebit
              (record debit { status = TransactionStatus.failed; failure_reason = some reason }) w')
      ⊎ (PassedOn provider e × HasBill bill' w' × HasDebit debit w')

  abbrev Outcome : Result PayoutResult × World → Type 0
  Outcome (ok r, w') = Charged r w'
  Outcome (err e, w') =
      (w'.work.users ≡ w.work.users)
      × (w'.sent ≡ w.sent)
      × (w'.committed ≡ w.committed)
      × AskedAtMost (new_reference bill_id hex) bill.amount w w'
      × Unpaid e w'

  -- What step 5 hands to step 6.
  abbrev payout : Payout
  payout = record {
    bill_id = bill_id;
    bill = bill';
    user = user;
    debit_id = w.next_transaction;
    debit = debit_of provider fee bill_id bill' (new_reference bill_id hex);
    reference = new_reference bill_id hex;
  }

  asked_from :
      (w₁ w' : World)
      → w₁.asked ≡ w.asked
      → AskedAtMost (new_reference bill_id hex) bill.amount w₁ w'
      → AskedAtMost (new_reference bill_id hex) bill.amount w w'
  asked_from w₁ w' ek (inl same) = inl (same ∙ ek)
  asked_from w₁ w' ek (inr (t, one, r, a)) = inr (t, one ∙ ap (λ ts. t ∷ ts) ek, r, a)

  Unpaid-raised :
      (w₁ w' : World) (e : Exn)
      → w₁.work.bills ≡ put bill_id bill' w.work.bills
      → w₁.work.transactions ≡ put w.next_transaction payout.debit w.work.transactions
      → ((PassedOn provider e × Unrecorded w₁ w') ⊎ Recorded payout w₁ w')
      → Unpaid e w'
  Unpaid-raised w₁ w' e eb et (inl (passed, (bills, txns))) =
      inr (inr (inr (inr (inr (inr (passed, bills ∙ eb, txns ∙ et))))))
  Unpaid-raised w₁ w' e eb et (inr (reason, bills, txns)) = inr (
      inr (
        inr (
          inr (
            inr (
              inl (
                reason,
                bills ∙ ap (put _ _) eb ∙ put-put bill_id _ _ w.work.bills,
                txns ∙ ap (put _ _) et ∙ put-put w.next_transaction _ _ w.work.transactions,
              ))))))

  Ended-Outcome :
      (w₁ : World) (x : Result PayoutResult × World)
      → bill.amount + fee ≤ user.balance
      → first (has_reference (new_reference bill_id hex)) w.work.transactions ≡ none
      → w₁.sent ≡ w.sent
      → w₁.asked ≡ w.asked
      → w₁.committed ≡ w.committed
      → w₁.work.users ≡ w.work.users
      → w₁.work.bills ≡ put bill_id bill' w.work.bills
      → w₁.work.transactions ≡ put w.next_transaction payout.debit w.work.transactions
      → w₁.next_transaction ≡ w.next_transaction + 1
      → Ended provider (bill.amount + fee) payout w₁ x
      → Outcome x
  unfolding debit_of
  Ended-Outcome w₁ (ok r, w') cov new es ek ec eu eb et en (t, s, k, a, b, c, d, e, f, g, h, i) =
      record {
        transfer = t;
        sent = cc;
        asked = cc;
        reference = a;
        amount = b;
        covered = cov;
        users = c ∙ ap (put _ _) eu;
        bills = d ∙ eb;
        transactions = e ∙ ap (put _ _) et ∙ put-put w.next_transaction _ _ w.work.transactions;
        fresh = new;
        committed = f ∙ ec;
        next = g ∙ en;
        told = h;
      }
  Ended-Outcome w₁ (err e, w') cov new es ek ec eu eb et en (users, sent, committed, rows, asked) =
      (
        users ∙ eu,
        sent ∙ es,
        committed ∙ ec,
        asked_from w₁ w' ek asked,
        Unpaid-raised w₁ w' e eb et rows,
      )

  -- The session at the end of step 5.
  begun : World
  begun =
      (audit_wallet_debit bill.user_id bill.amount fee bill_id (new_reference bill_id hex)
        (user.balance - (bill.amount + fee))
        (record w {
          work = put_transaction w.next_transaction payout.debit (put_bill bill_id bill' w.work);
          next_transaction = w.next_transaction + 1;
        })).1

  begin_with-Outcome :
      (found : Option (ℕ × Transaction))
      → first (has_reference (new_reference bill_id hex)) w.work.transactions ≡ found
      → bill.amount + fee ≤ user.balance
      → Outcome (
          begin_with provider fee bill_id bill' user
            (new_reference bill_id hex)
            found
            (record w { work = put_bill bill_id bill' w.work }))
  unfolding begin_with begun
  begin_with-Outcome none new cov =
      Ended-Outcome begun (resolve provider fee payout begun) cov new refl refl refl refl refl refl
        refl (resolve-Ended provider fee payout begun)
  begin_with-Outcome (some row) dup cov =
      (refl, refl, refl, inl refl, inr (inr (inr (inr (inl (row, refl, dup, refl, refl))))))

  begin_payout-Outcome :
      bill.amount + fee ≤ user.balance → Outcome (begin_payout provider fee bill_id bill user hex w)
  unfolding begin_payout
  begin_payout-Outcome cov = begin_with-Outcome _ refl cov

  check_balance-Outcome : Outcome (check_balance provider fee bill_id bill user hex w)
  unfolding check_balance
  check_balance-Outcome = elim (Bool-cases (ltb user.balance (bill.amount + fee))) [
    | inl short ↦
        rw short (
          refl,
          refl,
          refl,
          inl refl,
          inr (inr (inr (inl (_, refl, ltb→lt _ _ short, refl, refl)))),
        )
    | inr enough ↦ rw enough (begin_payout-Outcome (ltb→le _ _ enough))
  ]

  check_status-Outcome : Outcome (check_status provider fee bill_id bill user hex w)
  unfolding check_status
  check_status-Outcome = elim (Bool-cases (bill_status_eq bill.status BillStatus.paid)) [
    | inl e ↦ rw e (refl, refl, refl, inl refl, inl (refl, same_status _ _ e, (refl, refl)))
    | inr p ↦ rw p (elim (Bool-cases (bill_status_eq bill.status BillStatus.cancelled)) [
      | inl e ↦ rw e (refl, refl, refl, inl refl, inr (inl (refl, same_status _ _ e, (refl, refl))))
      | inr c ↦ rw c (elim (Bool-cases (bill_status_eq bill.status BillStatus.processing)) [
        | inl e ↦
            rw e
              (refl, refl, refl, inl refl, inr (inr (inl (refl, same_status _ _ e, (refl, refl)))))
        | inr r ↦ rw r check_balance-Outcome
      ])
    ])
  ]

  check_status-IsPayable :
      (r : PayoutResult)
      → (check_status provider fee bill_id bill user hex w).0 ≡ ok r
      → IsPayable bill
  unfolding check_status
  check_status-IsPayable r h = ground arith

module _ (provider : PaymentProvider) (fee : ℕ) (bill_id : ℕ) (hex : String) (w : World) where
  -- What `execute_payout` has done to the session `w`, by how it ended.
  abbrev pub Executed : Result PayoutResult × World → Type 0
  Executed (ok r, w') =
      (bill : Bill) × (user : User) × (get bill_id w.work.bills ≡ some bill)
      × (get bill.user_id w.work.users ≡ some user)
      × IsPayable bill
      × Charged provider fee bill_id bill user hex w r w'
  Executed (err e, w') =
      (w'.work.users ≡ w.work.users)
      × (w'.sent ≡ w.sent)
      × (w'.committed ≡ w.committed)
      × (((e ≡ Exn.http 404 ("Bill " ++ decimal bill_id ++ " not found."))
            × (w' ≡ w)
            × (get bill_id w.work.bills ≡ none))
          ⊎ ((bill : Bill) × (get bill_id w.work.bills ≡ some bill)
              × (((e ≡ Exn.http 404 ("User " ++ decimal bill.user_id ++ " not found."))
                    × (w' ≡ w)
                    × (get bill.user_id w.work.users ≡ none))
                  ⊎ ((user : User) × (get bill.user_id w.work.users ≡ some user)
                      × AskedAtMost (new_reference bill_id hex) bill.amount w w'
                      × Unpaid provider fee bill_id bill user hex w e w'))))

  -- The gateway was asked for no transfer, or for one of the bill's amount under the new reference.
  abbrev pub Asked : World → Type 0
  Asked w' =
      (w'.asked ≡ w.asked)
      ⊎ ((bill : Bill) × (t : Transfer) × (get bill_id w.work.bills ≡ some bill)
          × (w'.asked ≡ t ∷ w.asked)
          × (t.reference ≡ new_reference bill_id hex)
          × (t.amount_kobo ≡ bill.amount))

  bill-Asked :
      (bill : Bill) (w' : World)
      → get bill_id w.work.bills ≡ some bill
      → AskedAtMost (new_reference bill_id hex) bill.amount w w'
      → Asked w'
  bill-Asked bill w' eb (inl same) = inl same
  bill-Asked bill w' eb (inr (t, one, r, a)) = inr (bill, t, eb, one, r, a)

  pub raised-Asked : (e : Exn) (w' : World) → Executed (err e, w') → Asked w'
  raised-Asked e w' (_, _, _, inl (_, same, _)) = inl (ap (λ x. x.asked) same)
  raised-Asked e w' (_, _, _, inr (bill, eb, inl (_, same, _))) = inl (ap (λ x. x.asked) same)
  raised-Asked e w' (_, _, _, inr (bill, eb, inr (user, eu, asked, _))) =
      bill-Asked bill w' eb asked

  checked-Executed :
      (bill : Bill) (user : User)
      → get bill_id w.work.bills ≡ some bill
      → get bill.user_id w.work.users ≡ some user
      → (x : Result PayoutResult × World) → check_status provider fee bill_id bill user hex w ≡ x
      → Executed x
  checked-Executed bill user eb eu (ok r, w') e = (
    bill,
    user,
    eb,
    eu,
    check_status-IsPayable provider fee bill_id bill user hex w r (ap (λ y. y.0) e),
    rw e at (check_status-Outcome provider fee bill_id bill user hex w),
  )
  checked-Executed bill user eb eu (err x, w') e =
      let (users, sent, committed, asked, unpaid) =
        (rw e at (check_status-Outcome provider fee bill_id bill user hex w)) in
      (users, sent, committed, inr (bill, eb, inr (user, eu, asked, unpaid)))

  lock_user-Executed :
      (bill : Bill) (owner : Option User)
      → get bill_id w.work.bills ≡ some bill
      → get bill.user_id w.work.users ≡ owner
      → Executed (lock_user provider fee bill_id bill hex owner w)
  unfolding lock_user
  lock_user-Executed bill none eb eu = (refl, refl, refl, inr (bill, eb, inl (refl, refl, eu)))
  lock_user-Executed bill (some user) eb eu = checked-Executed bill user eb eu _ refl

  lock_bill-Executed :
      (locked : Option Bill)
      → get bill_id w.work.bills ≡ locked
      → Executed (lock_bill provider fee bill_id hex locked w)
  unfolding lock_bill
  lock_bill-Executed none eb = (refl, refl, refl, inl (refl, refl, eb))
  lock_bill-Executed (some bill) eb = lock_user-Executed bill _ eb refl

  pub execute_payout_outcome : Executed (execute_payout provider fee bill_id hex w)
  unfolding execute_payout
  execute_payout_outcome = lock_bill-Executed _ refl
