-- ===== src/Requests/Sequences.antt =====
-- The key sequences that a payment request moves: a request that answers normally has taken a new
-- transaction key, and no request takes one back.
use autopay.Base.{
  ℕ, ◌+◌, ◌≡◌, ◌∙◌, ◌≤◌, ◌<◌, inl, inr, refl, String, Option, none, some, arith, Bool-cases, ltb,
  ◌==◌,
}
use autopay.Models.{User, Bill, Transaction, BillStatus, bill_status_eq}
use autopay.Session.{Exn, Result, ok, err, World, put_bill, ◌>>=◌}
use autopay.Provider.{PaymentProvider}
use autopay.Payout.{PayoutResult}
use autopay.Payout.Charge.{new_reference}
use autopay.Payout.Execute.{
  begin_with, begin_payout, check_balance, check_status, lock_user, lock_bill, execute_payout,
}
use autopay.Bills.{BillActionResponse, check_owner, finish_payout, respond, pay_response, pay_bill}

abbrev pub Advances : {A : Type 0} → World → Result A × World → Type 0
Advances w (ok r, w') = (w'.next_bill ≡ w.next_bill) × (w.next_transaction < w'.next_transaction)
Advances w (err e, w') = (w'.next_bill ≡ w.next_bill) × (w.next_transaction ≤ w'.next_transaction)

one_more :
    {A : Type 0} (w : World) (x : Result A × World)
    → x.1.next_bill ≡ w.next_bill
    → x.1.next_transaction ≡ w.next_transaction + 1
    → Advances w x
one_more w (ok r, w') b t = (b, omega arith)
one_more w (err e, w') b t = (b, omega arith)

from :
    {A : Type 0} (w w₁ : World)
    → w₁.next_bill ≡ w.next_bill
    → w₁.next_transaction ≡ w.next_transaction
    → (x : Result A × World) → Advances w₁ x
    → Advances w x
from w w₁ b t (ok r, w') (b', t') = (b' ∙ b, omega arith)
from w w₁ b t (err e, w') (b', t') = (b' ∙ b, omega arith)

stays : (w : World) → (w.next_bill ≡ w.next_bill) × (w.next_transaction ≤ w.next_transaction)
stays w = (refl, omega arith)

module _ (provider : PaymentProvider) (fee bill_id : ℕ) (hex : String) where
  module _ (bill : Bill) (user : User) (w : World) where
    abbrev processing : Bill
    processing = record bill { status = BillStatus.processing }

    begin_with-Advances :
        (found : Option (ℕ × Transaction))
        → Advances w (
            begin_with provider fee bill_id processing user
              (new_reference bill_id hex)
              found
              (record w { work = put_bill bill_id processing w.work }))
    unfolding begin_with
    begin_with-Advances none = one_more w _ (ground arith) (ground arith)
    begin_with-Advances (some row) = (refl, omega arith)

    begin_payout-Advances : Advances w (begin_payout provider fee bill_id bill user hex w)
    unfolding begin_payout
    begin_payout-Advances = begin_with-Advances _

    check_balance-Advances : Advances w (check_balance provider fee bill_id bill user hex w)
    unfolding check_balance
    check_balance-Advances = elim (Bool-cases (ltb user.balance (bill.amount + fee))) [
      | inl short ↦ rw short (refl, omega arith)
      | inr enough ↦ rw enough begin_payout-Advances
    ]

    check_status-Advances : Advances w (check_status provider fee bill_id bill user hex w)
    unfolding check_status
    check_status-Advances = elim (Bool-cases (bill_status_eq bill.status BillStatus.paid)) [
      | inl e ↦ rw e (stays w)
      | inr p ↦ rw p (elim (Bool-cases (bill_status_eq bill.status BillStatus.cancelled)) [
        | inl e ↦ rw e (stays w)
        | inr c ↦ rw c (elim (Bool-cases (bill_status_eq bill.status BillStatus.processing)) [
          | inl e ↦ rw e (stays w)
          | inr r ↦ rw r check_balance-Advances
        ])
      ])
    ]

  lock_user-Advances :
      (bill : Bill) (owner : Option User) (w : World)
      → Advances w (lock_user provider fee bill_id bill hex owner w)
  unfolding lock_user
  lock_user-Advances bill none w = stays w
  lock_user-Advances bill (some user) w = check_status-Advances bill user w

  lock_bill-Advances :
      (row : Option Bill) (w : World) → Advances w (lock_bill provider fee bill_id hex row w)
  unfolding lock_bill
  lock_bill-Advances none w = stays w
  lock_bill-Advances (some bill) w = lock_user-Advances bill _ w

  pub execute_payout-Advances : (w : World) → Advances w (execute_payout provider fee bill_id hex w)
  unfolding execute_payout
  execute_payout-Advances w = lock_bill-Advances _ w

  -- `pay_bill`, from the payout's end.
  module _ (user_id : ℕ) (w : World) where
    abbrev Closed : Result BillActionResponse × World → Result BillActionResponse × World
    Closed (r, w') = (r, record w' { work = w'.committed })

    response-Advances :
        (r : PayoutResult) (row : Option Bill) (w' : World)
        → w'.next_bill ≡ w.next_bill
        → w.next_transaction < w'.next_transaction
        → Advances w (Closed (pay_response bill_id r row w'))
    unfolding pay_response
    response-Advances r none w' b t = (b, omega arith)
    response-Advances r (some bill) w' b t = (b, t)

    ended-Advances :
        (x : Result PayoutResult × World)
        → Advances w x
        → Advances w (Closed (respond bill_id (finish_payout x)))
    unfolding respond finish_payout
    ended-Advances (ok r, w') (b, t) = response-Advances r _ _ b t
    ended-Advances (err (Exn.http code detail), w') a = a
    ended-Advances (err _, w') a = a

    owner-Advances :
        (row : Option Bill) (w₁ : World)
        → w₁.next_bill ≡ w.next_bill
        → w₁.next_transaction ≡ w.next_transaction
        → Advances w (
            Closed (
              ◌>>=◌
                (check_owner user_id row)
                (λ _ w₂.
                  respond bill_id (finish_payout (execute_payout provider fee bill_id hex w₂)))
                w₁))
    unfolding check_owner
    owner-Advances none w₁ b t = (b, omega arith)
    owner-Advances (some bill) w₁ b t = elim (Bool-cases (bill.user_id == user_id)) [
      | inl own ↦ rw own (ended-Advances _ (from w w₁ b t _ (execute_payout-Advances w₁)))
      | inr foreign ↦ rw foreign (b, omega arith)
    ]

    pub pay_bill-Advances : Advances w (pay_bill provider fee user_id bill_id hex w)
    unfolding pay_bill
    pay_bill-Advances = owner-Advances _ _ refl refl
