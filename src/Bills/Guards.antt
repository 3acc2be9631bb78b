-- ===== src/Bills/Guards.antt =====
-- Who may pay or cancel a bill, and in which status.
use autopay.Base.{
  ℕ, ◌≡◌, ◌≢◌, refl, ◌∙◌, ap, ◌⊎◌, inl, inr, none, some, String, Option, arith, put, get,
  get-put_self, ◌-◌, ◌+◌, Option-cases,
}
use autopay.Models.{User, Bill, BillStatus}
use autopay.Session.{ok, err, Exn, Result, World, put_bill}
use autopay.Provider.{PaymentProvider}
use autopay.Payout.Execute.{check_status, execute_payout}
use autopay.Bills.{BillActionResponse, cannot_cancel, pay_bill, cancel_bill}
use autopay.Bills.Pay.{Settled, pay_bill_settles}

-- Why a bill in that status is not paid, if it is not.
abbrev pub refusal : BillStatus → Option String
refusal BillStatus.paid = some "Bill is already paid."
refusal BillStatus.cancelled = some "Bill is cancelled."
refusal BillStatus.processing = some "Bill is already being processed."
refusal _ = none

module _ (provider : PaymentProvider) (fee user_id bill_id : ℕ) (hex : String) (w : World) where
  -- Paying a bill that is paid, cancelled or in process is refused with 409 and that reason, and
  -- changes nothing but the session.
  pub pay_bill_refused :
      (bill : Bill) (user : User) {why : String}
      → get bill_id w.committed.bills ≡ some bill
      → bill.user_id ≡ user_id
      → get bill.user_id w.committed.users ≡ some user
      → refusal bill.status ≡ some why
      → pay_bill provider fee user_id bill_id hex w
        ≡ (err (Exn.http 409 why), record w { work = w.committed })
  unfolding pay_bill execute_payout check_status
  pay_bill_refused bill user eb own eu h = ground arith

  pub Settled-bills :
      (x : Result BillActionResponse × World) {response : BillActionResponse}
      → x.0 ≡ ok response
      → Settled provider fee user_id bill_id hex w x
      → (bill : Bill) × (user : User) × (get bill_id x.1.committed.bills
          ≡ some (record bill { status = BillStatus.processing }))
        × (bill.user_id ≡ user_id)
        × (get user_id x.1.committed.users ≡ some user)
  Settled-bills (ok r, w') e (bill, user, t, _, own, _, _, _, _, _, _, _, users, bills, _, _, _) = (
    bill,
    record user { balance = user.balance - (bill.amount + fee) },
    ap (get bill_id) bills ∙ get-put_self bill_id _ w.committed.bills,
    own,
    ap (get user_id) users ∙ get-put_self user_id _ w.committed.users,
  )
  Settled-bills (err x, w') e h = cc

module _ (provider : PaymentProvider) (fee user_id bill_id : ℕ) (hex : String) (w : World) where
  -- After a payment request that answered normally, another one for the same bill by its owner,
  -- through any provider and under any fee, is refused as already in process; the committed
  -- database stays as the first left it, and the gateway is asked for no second transfer.
  pub pay_bill_twice :
      (provider' : PaymentProvider) (fee' : ℕ) (hex' : String) {response : BillActionResponse}
      → (pay_bill provider fee user_id bill_id hex w).0 ≡ ok response
      → let w' = (pay_bill provider fee user_id bill_id hex w).1 in
        let (r, w'') = pay_bill provider' fee' user_id bill_id hex' w' in
        (r ≡ err (Exn.http 409 "Bill is already being processed."))
        × (w''.committed ≡ w'.committed)
        × (w''.asked ≡ w'.asked)
        × (w''.sent ≡ w'.sent)
  pay_bill_twice provider' fee' hex' paid =
      let w' = (pay_bill provider fee user_id bill_id hex w).1 in
      let (bill, user, eb, own, eu) =
        Settled-bills provider fee user_id bill_id hex w _ paid
          (pay_bill_settles provider fee user_id bill_id hex w) in
      let refused =
        pay_bill_refused provider' fee' user_id bill_id hex' w'
          (record bill { status = BillStatus.processing }) user eb own
          (ap (λ (k : ℕ). get k w'.committed.users) own ∙ eu) refl in
      (
        ap (λ x. x.0) refused,
        ap (λ x. x.1.committed) refused,
        ap (λ x. x.1.asked) refused,
        ap (λ x. x.1.sent) refused,
      )

-- A bill that is paid or in process.
abbrev pub IsSettling : Bill → Type 0
IsSettling b = (b.status ≡ BillStatus.paid) ⊎ (b.status ≡ BillStatus.processing)

-- Why a cancellation is refused: there is no such bill or it is another user's (404), or it is paid
-- or in process (409).
abbrev pub Refused : ℕ → ℕ → World → Exn → Type 0
Refused user_id bill_id w e =
    ((e ≡ Exn.http 404 "Bill not found") × (get bill_id w.committed.bills ≡ none))
    ⊎ ((bill : Bill) × (get bill_id w.committed.bills ≡ some bill)
        × (((e ≡ Exn.http 404 "Bill not found") × (bill.user_id ≢ user_id))
            ⊎ ((e ≡ cannot_cancel bill.status) × IsSettling bill)))

-- What a cancellation has done, by how it ended.
abbrev pub Cancelled : ℕ → ℕ → World → Result BillActionResponse × World → Type 0
Cancelled user_id bill_id w (ok response, w') =
    (bill : Bill) × (get bill_id w.committed.bills ≡ some bill)
    × (bill.user_id ≡ user_id)
    × (bill.status ≢ BillStatus.paid)
    × (bill.status ≢ BillStatus.processing)
    × (w'.committed.bills
        ≡ put bill_id (record bill { status = BillStatus.cancelled }) w.committed.bills)
    × (w'.committed.users ≡ w.committed.users)
    × (w'.committed.transactions ≡ w.committed.transactions)
    × (w'.sent ≡ w.sent)
    × (response.bill ≡ record bill { status = BillStatus.cancelled })
Cancelled user_id bill_id w (err e, w') =
    (w'.committed ≡ w.committed) × (w'.sent ≡ w.sent) × Refused user_id bill_id w e

module _ (user_id bill_id : ℕ) (w : World) where
  cancel_ok :
      (bill : Bill)
      → get bill_id w.committed.bills ≡ some bill
      → bill.user_id ≡ user_id
      → bill.status ≢ BillStatus.paid
      → bill.status ≢ BillStatus.processing
      → cancel_bill user_id bill_id w ≡ (
        ok (record {
          bill_id = bill_id;
          bill = record bill { status = BillStatus.cancelled };
          message = "Bill cancelled.";
          decision = none;
          decision_reason = none;
        }),
        record w {
          work = put_bill bill_id (record bill { status = BillStatus.cancelled }) w.committed;
          committed = put_bill bill_id (record bill { status = BillStatus.cancelled }) w.committed;
        },
      )
  unfolding cancel_bill
  cancel_ok bill e own np nr = ground (
    arith,
    get-put_self bill_id (record bill { status = BillStatus.cancelled }) w.committed.bills,
  )

  cancel_missing :
      get bill_id w.committed.bills ≡ none
      → cancel_bill user_id bill_id w
        ≡ (err (Exn.http 404 "Bill not found"), record w { work = w.committed })
  unfolding cancel_bill
  cancel_missing e = ground arith

  cancel_foreign :
      (bill : Bill)
      → get bill_id w.committed.bills ≡ some bill
      → bill.user_id ≢ user_id
      → cancel_bill user_id bill_id w
        ≡ (err (Exn.http 404 "Bill not found"), record w { work = w.committed })
  unfolding cancel_bill
  cancel_foreign bill e ne = ground arith

  cancel_settling :
      (bill : Bill)
      → get bill_id w.committed.bills ≡ some bill
      → bill.user_id ≡ user_id
      → IsSettling bill
      → cancel_bill user_id bill_id w
        ≡ (err (cannot_cancel bill.status), record w { work = w.committed })
  unfolding cancel_bill
  cancel_settling bill e own h = ground arith

  IsSettling-or_not :
      (bill : Bill)
      → IsSettling bill ⊎ ((bill.status ≢ BillStatus.paid) × (bill.status ≢ BillStatus.processing))
  IsSettling-or_not bill = ground arith

  own_or_not : (bill : Bill) → (bill.user_id ≡ user_id) ⊎ (bill.user_id ≢ user_id)
  own_or_not bill = omega arith

  -- A cancellation that answers normally was made by the bill's owner on a bill that was neither
  -- paid nor in process; it commits the bill as cancelled and touches no wallet, no transaction and
  -- no other bill. Any other answer changes nothing in the committed database: it is a 404 for a
  -- bill that is missing or another user's, or a 409 for a bill that is paid or in process.
  pub cancel_bill_outcome : Cancelled user_id bill_id w (cancel_bill user_id bill_id w)
  cancel_bill_outcome = elim (Option-cases (get bill_id w.committed.bills)) [
    | inl e ↦ rw (cancel_missing e) (refl, refl, inl (refl, e))
    | inr (bill, e) ↦ elim (own_or_not bill) [
      | inr ne ↦ rw (cancel_foreign bill e ne) (refl, refl, inr (bill, e, inl (refl, ne)))
      | inl own ↦ elim (IsSettling-or_not bill) [
        | inl h ↦ rw (cancel_settling bill e own h) (refl, refl, inr (bill, e, inr (refl, h)))
        | inr (np, nr) ↦
            rw (cancel_ok bill e own np nr) (bill, e, own, np, nr, refl, refl, refl, refl, refl)
      ]
    ]
  ]
