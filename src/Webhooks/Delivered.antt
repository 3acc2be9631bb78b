-- ===== src/Webhooks/Delivered.antt =====
-- What a `transfer.*` event and an answered payment request have committed, as the two meet in one
-- history.
use autopay.Base.{
  ℕ, ◌-◌, ◌+◌, ◌≤◌, ◌≡◌, refl, ◌∙◌, ap, sym, true, false, none, some, String, Bool, arith, put, get,
  first, str_eq, if◌then◌else◌,
}
use autopay.Models.{User, Bill, BillStatus}
use autopay.Session.{ok, err, Result, World}
use autopay.Provider.{PaymentProvider}
use autopay.Payout.Charge.{has_reference, new_reference}
use autopay.Payout.Execute.{debit_of}
use autopay.Payout.Confirm.{confirm_payout}
use autopay.Bills.{BillActionResponse, pay_bill}
use autopay.Bills.Pay.{Settled, pay_bill_settles}
use autopay.Webhooks.{
  WebhookEvent, is_transfer_event, is_recorded, record_event, handle_transfer_update, dispatch,
  nomba_webhook,
}
use autopay.Webhooks.Replay.{confirm_payout_returns, return_value}

module _ (provider : String) (event : WebhookEvent) (w : World) where
  abbrev pub noted : World
  noted = record w { work = record_event provider event w.committed }

  abbrev success : Bool
  success = str_eq event.event_type "transfer.success"

  -- What the event's confirmation makes of the session.
  abbrev pub confirmed : World
  confirmed =
      (confirm_payout event.provider_reference success
        (if success then none else some event.event_type) noted).1

  pub transfer_committed :
      str_eq event.event_type "charge.success" ≡ false
      → is_transfer_event event.event_type ≡ true
      → is_recorded provider event.event_id w.committed.webhook_events ≡ false
      → (nomba_webhook provider (ok event) w).1.committed ≡ confirmed.work
  unfolding nomba_webhook dispatch handle_transfer_update
  transfer_committed not_charge transfer new =
      let (r, e) = return_value _ (
        confirm_payout_returns event.provider_reference success
          (if success then none else some event.event_type) noted) in
      ground arith

-- What a payment request that answered normally has committed.
module _ (provider : PaymentProvider) (fee user_id bill_id : ℕ) (hex : String) (w : World) where
  abbrev w₁ : World
  w₁ = (pay_bill provider fee user_id bill_id hex w).1

  abbrev pub Request : Type 0
  Request =
      (bill : Bill) × (user : User) × (get bill_id w.committed.bills ≡ some bill)
      × (bill.user_id ≡ user_id)
      × (get user_id w.committed.users ≡ some user)
      × (bill.amount + fee ≤ user.balance)
      × (first (has_reference (new_reference bill_id hex)) w.committed.transactions ≡ none)
      × (w₁.committed.users
          ≡ put user_id (record user { balance = user.balance - (bill.amount + fee) })
              w.committed.users)
      × (w₁.committed.bills
          ≡ put bill_id (record bill { status = BillStatus.processing }) w.committed.bills)
      × (w₁.committed.transactions
          ≡ put w.next_transaction (debit_of provider fee bill_id bill (new_reference bill_id hex))
              w.committed.transactions)

  request_of :
      {response : BillActionResponse} (x : Result BillActionResponse × World)
      → x.0 ≡ ok response
      → Settled provider fee user_id bill_id hex w x
      → x ≡ pay_bill provider fee user_id bill_id hex w
      → Request
  request_of (ok r, w') e (bill, user, t, eb, own, eu, _, cov, _, _, _, _, us, bs, ts, new, _)
        same =
      (
        bill,
        user,
        eb,
        own,
        eu,
        cov,
        new,
        ap (λ (x : Result BillActionResponse × World). x.1.committed.users) (sym same) ∙ us,
        ap (λ (x : Result BillActionResponse × World). x.1.committed.bills) (sym same) ∙ bs,
        ap (λ (x : Result BillActionResponse × World). x.1.committed.transactions) (sym same) ∙ ts,
      )
  request_of (err e', w') e s same = cc

  pub request :
      {response : BillActionResponse}
      → (pay_bill provider fee user_id bill_id hex w).0 ≡ ok response
      → Request
  request answered =
      request_of _ answered (pay_bill_settles provider fee user_id bill_id hex w) refl
