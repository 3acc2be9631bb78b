-- ===== src/Payout/Cycle.antt =====
-- A payout and the webhook's confirmation of it, one after the other.
use autopay.Base.{
  ℕ, ◌-◌, ◌+◌, ◌≤◌, ◌≡◌, refl, ◌∙◌, ap, inr, inl, true, false, some, String, Option, arith, put,
  get, first, KeysBelow, get_of_KeysBelow, get-put_self, put-put, put-get, first-put_new,
}
use text.Mathlib.TextPositions.{eq_refl}
use autopay.Models.{User, Bill, Transaction, BillStatus}
use autopay.Session.{ok, err, Result, World}
use autopay.Provider.{PaymentProvider}
use autopay.Payout.{PayoutResult, count_failure}
use autopay.Payout.Charge.{has_reference, new_reference}
use autopay.Payout.Execute.{debit_of, execute_payout}
use autopay.Payout.Confirm.{confirm_payout}
use autopay.Payout.Whole.{Charged, Executed, execute_payout_outcome}
use autopay.Payout.Reconcile.{confirm_success, confirm_failure}

module _ (provider : PaymentProvider) (fee bill_id : ℕ) (bill : Bill) (user : User) (hex : String)
    (w : World) (r : PayoutResult) (w' : World) (reason : Option String)
    (billed : get bill_id w.work.bills ≡ some bill)
    (held : get bill.user_id w.work.users ≡ some user)
    (keys : KeysBelow w.next_transaction w.work.transactions)
    (c : Charged provider fee bill_id bill user hex w r w') where
  abbrev reference : String
  reference = new_reference bill_id hex

  debit : Transaction
  debit = debit_of provider fee bill_id bill reference

  debit_found :
      first (has_reference reference) w'.work.transactions ≡ some (w.next_transaction, debit)
  unfolding debit debit_of
  debit_found = rw c.transactions (
      first-put_new (has_reference reference) w.next_transaction debit w.work.transactions c.fresh
        (get_of_KeysBelow w.next_transaction w.next_transaction w.work.transactions keys
          (omega arith))
        (eq_refl reference))

  charged_user :
      get bill.user_id w'.work.users
      ≡ some (record user { balance = user.balance - (bill.amount + fee) })
  charged_user = rw c.users (get-put_self bill.user_id _ w.work.users)

  processing_bill :
      get bill_id w'.work.bills ≡ some (record bill { status = BillStatus.processing })
  processing_bill = rw c.bills (get-put_self bill_id _ w.work.bills)

  restored :
      (record user { balance = user.balance - (bill.amount + fee) + bill.amount + fee }) ≡ user
  restored = let h = c.covered in ground arith

  failed_users : (confirm_payout reference false reason w').1.work.users ≡ w.work.users
  unfolding debit debit_of
  failed_users =
      (confirm_failure reference reason w' debit_found refl processing_bill charged_user
        (inr (inl refl))).0
      ∙ ap (λ (u : User). put bill.user_id u w'.work.users) restored
      ∙ ap (put bill.user_id user) c.users
      ∙ put-put bill.user_id user _ w.work.users
      ∙ put-get bill.user_id user w.work.users held

  failed_bill :
      get bill_id (confirm_payout reference false reason w').1.work.bills
      ≡ some (count_failure (record bill { status = BillStatus.processing }))
  unfolding debit debit_of
  failed_bill =
      ap (get bill_id)
        (confirm_failure reference reason w' debit_found refl processing_bill charged_user
          (inr (inl refl))).1
      ∙ get-put_self bill_id _ w'.work.bills

  paid_users : (confirm_payout reference true reason w').1.work.users ≡ w'.work.users
  unfolding debit debit_of
  paid_users =
      (confirm_success reference reason w' debit_found refl processing_bill charged_user
        (inr (inl refl))).0

  paid_bill :
      get bill_id (confirm_payout reference true reason w').1.work.bills
      ≡ some (record bill { status = BillStatus.paid })
  unfolding debit debit_of
  paid_bill =
      ap (get bill_id)
        (confirm_success reference reason w' debit_found refl processing_bill charged_user
          (inr (inl refl))).1
      ∙ get-put_self bill_id _ w'.work.bills

module _ (provider : PaymentProvider) (fee bill_id : ℕ) (hex : String) (w : World) where
  -- The session after the payout.
  abbrev pub after_payout : World
  after_payout = (execute_payout provider fee bill_id hex w).1

  abbrev pub Returned : World → Type 0
  Returned w' =
      (bill : Bill) × (user : User) × (r : PayoutResult) × (get bill_id w.work.bills ≡ some bill)
      × (get bill.user_id w.work.users ≡ some user)
      × Charged provider fee bill_id bill user hex w r w'

  Returned-pair :
      (x : Result PayoutResult × World) {r : PayoutResult}
      → x.0 ≡ ok r
      → Executed provider fee bill_id hex w x
      → Returned x.1
  Returned-pair (ok r', w') e (bill, user, eb, eu, _, c) = (bill, user, r', eb, eu, c)
  Returned-pair (err x, w') e h = cc

  pub execute_payout-Returned :
      {r : PayoutResult}
      → (execute_payout provider fee bill_id hex w).0 ≡ ok r
      → Returned after_payout
  execute_payout-Returned e = Returned-pair _ e (execute_payout_outcome provider fee bill_id hex w)

  module _ (reason : Option String) {r : PayoutResult}
      (keys : KeysBelow w.next_transaction w.work.transactions)
      (returned : (execute_payout provider fee bill_id hex w).0 ≡ ok r) where
    -- A payout that returned, followed by the provider's failure under the payout's reference,
    -- leaves every wallet exactly as it was before the payout, with amount and fee back, and the
    -- bill with one more attempt counted: failed if the attempts are used up, else scheduled.
    -- (Transaction ids are below the sequence.)
    pub payout_then_failure :
        let w₂ = (confirm_payout (new_reference bill_id hex) false reason after_payout).1 in
        (w₂.work.users ≡ w.work.users)
        × ((bill : Bill) × (get bill_id w.work.bills ≡ some bill)
            × (get bill_id w₂.work.bills
                ≡ some (count_failure (record bill { status = BillStatus.processing }))))
    payout_then_failure =
        let (bill, user, r', eb, eu, c) = execute_payout-Returned returned in
        (
          failed_users provider fee bill_id bill user hex w r' after_payout reason eb eu keys c,
          (
            bill,
            eb,
            failed_bill provider fee bill_id bill user hex w r' after_payout reason eb eu keys c,
          ),
        )

    -- A payout that returned, followed by the provider's success under the payout's reference,
    -- leaves the bill paid and its user charged with exactly amount and fee, which the balance
    -- covered, and all other wallets as they were. (Transaction ids are below the sequence.)
    pub payout_then_success :
        let w₂ = (confirm_payout (new_reference bill_id hex) true reason after_payout).1 in
        (bill : Bill) × (user : User) × (get bill_id w.work.bills ≡ some bill)
        × (get bill.user_id w.work.users ≡ some user)
        × (get bill_id w₂.work.bills ≡ some (record bill { status = BillStatus.paid }))
        × (bill.amount + fee ≤ user.balance)
        × (w₂.work.users
            ≡ put bill.user_id
                (record user { balance = user.balance - (bill.amount + fee) })
                w.work.users)
    payout_then_success =
        let (bill, user, r', eb, eu, c) = execute_payout-Returned returned in
        (
          bill,
          user,
          eb,
          eu,
          paid_bill provider fee bill_id bill user hex w r' after_payout reason eb eu keys c,
          c.covered,
          paid_users provider fee bill_id bill user hex w r' after_payout reason eb eu keys c
              ∙ c.users,
        )
