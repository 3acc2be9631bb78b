-- ===== src/Bills/Pay.antt =====
-- `pay_bill`: the database and the provider agree after every request.
use autopay.Base.{
  ℕ, ◌-◌, ◌+◌, ◌≤◌, ◌≡◌, refl, ◌∙◌, ap, sym, none, some, String, Option, put, get, first, ◌==◌,
  get-put_self, ◌∷◌, Bool-cases, ==_iff, inl, inr,
}
use autopay.Models.{User, Bill, BillStatus}
use autopay.Session.{ok, err, Exn, Result, Transfer, World, ◌>>=◌}
use autopay.Provider.{PaymentProvider}
use autopay.Payout.{PayoutResult}
use autopay.Payout.Charge.{has_reference, new_reference}
use autopay.Payout.Execute.{debit_of, execute_payout}
use autopay.Payout.Whole.{IsPayable, Charged, Executed, Asked, raised-Asked, execute_payout_outcome}
use autopay.Bills.{BillActionResponse, check_owner, finish_payout, pay_response, respond, pay_bill}

module _ (provider : PaymentProvider) (fee user_id bill_id : ℕ) (hex : String) (w : World) where
  abbrev begun : World
  begun = record w { work = w.committed }

  -- What a payment request has done, by how it ended.
  abbrev pub Settled : Result BillActionResponse × World → Type 0
  Settled (ok response, w') =
      (bill : Bill) × (user : User) × (t : Transfer) × (get bill_id w.committed.bills ≡ some bill)
      × (bill.user_id ≡ user_id)
      × (get user_id w.committed.users ≡ some user)
      × IsPayable bill
      × (bill.amount + fee ≤ user.balance)
      × (w'.sent ≡ t ∷ w.sent)
      × (w'.asked ≡ t ∷ w.asked)
      × (t.reference ≡ new_reference bill_id hex)
      × (t.amount_kobo ≡ bill.amount)
      × (w'.committed.users
          ≡ put user_id (record user { balance = user.balance - (bill.amount + fee) })
              w.committed.users)
      × (w'.committed.bills
          ≡ put bill_id (record bill { status = BillStatus.processing }) w.committed.bills)
      × (w'.committed.transactions
          ≡ put w.next_transaction (debit_of provider fee bill_id bill (new_reference bill_id hex))
              w.committed.transactions)
      × (first (has_reference (new_reference bill_id hex)) w.committed.transactions ≡ none)
      × (response.bill ≡ record bill { status = BillStatus.processing })
  Settled (err e, w') =
      (w'.committed ≡ w.committed) × (w'.sent ≡ w.sent) × Asked provider fee bill_id hex begun w'

  abbrev Closed : Result BillActionResponse × World → Result BillActionResponse × World
  Closed (r, w') = (r, record w' { work = w'.committed })

  response-Settled :
      (bill : Bill) (user : User) (r : PayoutResult) (w' : World) (row : Option Bill)
      → get bill_id w.committed.bills ≡ some bill
      → bill.user_id ≡ user_id
      → get bill.user_id w.committed.users ≡ some user
      → IsPayable bill
      → Charged provider fee bill_id bill user hex begun r w'
      → row ≡ some (record bill { status = BillStatus.processing })
      → Settled (Closed (pay_response bill_id r row (record w' { committed = w'.work })))
  unfolding pay_response
  response-Settled bill user r w' none eb own eu payable c e = cc
  response-Settled bill user r w' (some b) eb own eu payable c e = (
    bill,
    user,
    c.transfer,
    eb,
    own,
    ap (λ (k : ℕ). get k w.committed.users) (sym own) ∙ eu,
    payable,
    c.covered,
    c.sent,
    c.asked,
    c.reference,
    c.amount,
    c.users
        ∙ ap
            (λ (k : ℕ).
              put k (record user { balance = user.balance - (bill.amount + fee) })
                w.committed.users)
            own,
    c.bills,
    c.transactions,
    c.fresh,
    cc,
  )

  ended-Settled :
      (owned : (bill : Bill) → get bill_id w.committed.bills ≡ some bill → bill.user_id ≡ user_id)
      (x : Result PayoutResult × World)
      → Executed provider fee bill_id hex begun x
      → Settled (Closed (respond bill_id (finish_payout x)))
  unfolding respond finish_payout
  ended-Settled owned (ok r, w') (bill, user, eb, eu, payable, c) =
      response-Settled bill user r w' _ eb (owned bill eb) eu payable c
        (ap (get bill_id) c.bills ∙ get-put_self bill_id _ w.committed.bills)
  ended-Settled owned (err (Exn.http code detail), w') (a, sent, committed, b) =
      (committed, sent, raised-Asked provider fee bill_id hex begun _ w' (a, sent, committed, b))
  ended-Settled owned (err _, w') (a, sent, committed, b) =
      (committed, sent, raised-Asked provider fee bill_id hex begun _ w' (a, sent, committed, b))

  -- `pay_bill` from the row that it reads.
  owner-Settled :
      (row : Option Bill)
      → get bill_id w.committed.bills ≡ row
      → Settled (
          Closed (
            ◌>>=◌
              (check_owner user_id row)
              (λ _ w₁. respond bill_id (finish_payout (execute_payout provider fee bill_id hex w₁)))
              begun))
  unfolding check_owner
  owner-Settled none e = (refl, refl, inl refl)
  owner-Settled (some b) e = elim (Bool-cases (b.user_id == user_id)) [
    | inl own ↦ rw own (
        ended-Settled
          (λ c e'. let q : c ≡ b = cc in ap (λ (x : Bill). x.user_id) q ∙ (==_iff _ _).0 own)
          (execute_payout provider fee bill_id hex begun)
          (execute_payout_outcome provider fee bill_id hex begun))
    | inr foreign ↦ rw foreign (refl, refl, inl refl)
  ]

  -- A payment request that answers normally was made by the bill's owner on a bill that was
  -- pending, scheduled or failed and covered with its fee; it has asked the gateway for one transfer,
  -- of the bill's amount, whose call returned, and committed the charge of amount and fee, the bill in
  -- process and one debit row under the transfer's reference. Any other answer leaves the committed
  -- database as it was, in every table; no call for a transfer returned, and the gateway was asked for
  -- none, or for one of the bill's amount under the new reference, whose call raised.
  pub pay_bill_settles : Settled (pay_bill provider fee user_id bill_id hex w)
  unfolding pay_bill
  pay_bill_settles = owner-Settled _ refl
