-- ===== src/Webhooks/Transfers.antt =====
-- The `transfer.*` events, and a payment request with the provider's answer to it, end to end over
-- the committed database.
use autopay.Base.{
  ℕ, ◌-◌, ◌+◌, ◌≤◌, ◌≡◌, ◌⊎◌, refl, ◌∙◌, ap, inr, inl, true, false, none, some, String, Bool, arith,
  put, get, first, KeysBelow, get_of_KeysBelow, get-put_self, put-put, put-get, first-put_new,
  str_eq, if◌then◌else◌,
}
use text.Mathlib.TextPositions.{eq_refl}
use autopay.Models.{User, Bill, Transaction, BillStatus}
use autopay.Session.{ok, World}
use autopay.Provider.{PaymentProvider}
use autopay.Payout.{count_failure}
use autopay.Payout.Charge.{has_reference, new_reference}
use autopay.Payout.Execute.{debit_of}
use autopay.Payout.Confirm.{confirm_payout}
use autopay.Payout.Reconcile.{confirm_success, confirm_failure}
use autopay.Bills.{BillActionResponse, pay_bill}
use autopay.Webhooks.{WebhookEvent, is_transfer_event, is_recorded, nomba_webhook}
use autopay.Webhooks.Delivered.{noted, transfer_committed, request}

-- A payment request that answered normally, and the event that names its transfer.
module _ (provider : PaymentProvider) (fee user_id bill_id : ℕ) (hex : String) (w : World)
    (event : WebhookEvent) {response : BillActionResponse}
    (keys : KeysBelow w.next_transaction w.committed.transactions)
    (answered : (pay_bill provider fee user_id bill_id hex w).0 ≡ ok response)
    (named : event.provider_reference ≡ new_reference bill_id hex) where
  -- The committed database after the request, and after the event.
  abbrev pub w₁ : World
  w₁ = (pay_bill provider fee user_id bill_id hex w).1

  abbrev pub w₂ : World
  w₂ = (nomba_webhook provider.name (ok event) w₁).1

  module _ (bill : Bill) (user : User) (own : bill.user_id ≡ user_id)
      (fresh : first (has_reference (new_reference bill_id hex)) w.committed.transactions ≡ none)
      (users : w₁.committed.users
        ≡ put user_id
            (record user { balance = user.balance - (bill.amount + fee) })
            w.committed.users)
      (bills : w₁.committed.bills
        ≡ put bill_id (record bill { status = BillStatus.processing }) w.committed.bills)
      (transactions : w₁.committed.transactions
        ≡ put w.next_transaction
            (debit_of provider fee bill_id bill (new_reference bill_id hex))
            w.committed.transactions) where
    debit : Transaction
    debit = debit_of provider fee bill_id bill (new_reference bill_id hex)

    found :
        first (has_reference event.provider_reference) w₁.committed.transactions
        ≡ some (w.next_transaction, debit)
    unfolding debit debit_of
    found =
        ap (λ (r : String). first (has_reference r) w₁.committed.transactions) named
        ∙ ap (first (has_reference (new_reference bill_id hex))) transactions
        ∙ first-put_new (has_reference (new_reference bill_id hex)) w.next_transaction debit
            w.committed.transactions fresh
            (get_of_KeysBelow w.next_transaction w.next_transaction w.committed.transactions keys
              (omega arith))
            (eq_refl (new_reference bill_id hex))

    held :
        get bill.user_id w₁.committed.users
        ≡ some (record user { balance = user.balance - (bill.amount + fee) })
    held =
        ap (λ (k : ℕ). get k w₁.committed.users) own
        ∙ ap (get user_id) users
        ∙ get-put_self user_id _ w.committed.users

    billed : get bill_id w₁.committed.bills ≡ some (record bill { status = BillStatus.processing })
    billed = ap (get bill_id) bills ∙ get-put_self bill_id _ w.committed.bills

    failed :
        let w' =
          (confirm_payout event.provider_reference false
            (some event.event_type)
            (noted provider.name event w₁)).1 in
        (w'.work.users
          ≡ put bill.user_id
              (record user { balance = user.balance - (bill.amount + fee) + bill.amount + fee })
              w₁.committed.users)
        × (w'.work.bills
            ≡ put bill_id
                (count_failure (record bill { status = BillStatus.processing }))
                w₁.committed.bills)
    unfolding debit debit_of
    failed =
        let facts =
          confirm_failure event.provider_reference (some event.event_type)
            (noted provider.name event w₁) found refl billed held (inr (inl refl)) in
        (facts.0, facts.1)

    succeeded :
        let w' =
          (confirm_payout event.provider_reference true none (noted provider.name event w₁)).1 in
        (w'.work.users ≡ w₁.committed.users)
        × (w'.work.bills
            ≡ put bill_id (record bill { status = BillStatus.paid }) w₁.committed.bills)
    unfolding debit debit_of
    succeeded =
        let facts =
          confirm_success event.provider_reference none (noted provider.name event w₁) found refl
            billed held (inr (inl refl)) in
        (facts.0, facts.1)

    restored :
        bill.amount + fee ≤ user.balance
        → get user_id w.committed.users ≡ some user
        → put bill.user_id
            (record user { balance = user.balance - (bill.amount + fee) + bill.amount + fee })
            w₁.committed.users
          ≡ w.committed.users
    restored cov eu =
        let same : (record user {
          balance = user.balance - (bill.amount + fee) + bill.amount + fee;
        })
            ≡ user =
          ground arith in
        ap (λ (u : User). put bill.user_id u w₁.committed.users) same
        ∙ ap (λ (k : ℕ). put k user w₁.committed.users) own
        ∙ ap (put user_id user) users
        ∙ put-put user_id user _ w.committed.users
        ∙ put-get user_id user w.committed.users eu

  module _
      (new : is_recorded provider.name event.event_id w₁.committed.webhook_events ≡ false) where
    -- The committed database is that of the confirmation.
    event_committed :
        (t : String) (b : Bool)
        → event.event_type ≡ t
        → str_eq t "charge.success" ≡ false
        → is_transfer_event t ≡ true
        → str_eq t "transfer.success" ≡ b
        → w₂.committed
          ≡ (confirm_payout event.provider_reference b
              (if b then none else some event.event_type)
              (noted provider.name event w₁)).1.work
    event_committed t b e c tr s =
        transfer_committed provider.name event w₁ (ap (λ x. str_eq x "charge.success") e ∙ c)
          (ap is_transfer_event e ∙ tr) new
        ∙ ap
            (λ (x : Bool).
              (confirm_payout event.provider_reference x (if x then none else some event.event_type)
                (noted provider.name event w₁)).1.work)
            (ap (λ x. str_eq x "transfer.success") e ∙ s)

    failing :
        w₂.committed
          ≡ (confirm_payout event.provider_reference false
              (some event.event_type)
              (noted provider.name event w₁)).1.work
        → (w₂.committed.users ≡ w.committed.users)
          × ((bill : Bill) × (get bill_id w.committed.bills ≡ some bill)
              × (get bill_id w₂.committed.bills
                  ≡ some (count_failure (record bill { status = BillStatus.processing }))))
    failing same =
        let (bill, user, eb, own, eu, cov, fresh, us, bs, ts) =
          request provider fee user_id bill_id hex w answered in
        let (us', bs') = failed bill user own fresh us bs ts in
        (
          ap (λ x. x.users) same ∙ us' ∙ restored bill user own fresh us bs ts cov eu,
          (
            bill,
            eb,
            ap (λ x. get bill_id x.bills) same
                ∙ ap (get bill_id) bs'
                ∙ get-put_self bill_id _ w₁.committed.bills,
          ),
        )

    -- A payment request that answered normally, followed by a verified event, delivered for the
    -- first time, that its transfer failed or was reversed, leaves every committed wallet as it was
    -- before the request, and the bill with one more attempt counted. (Transaction ids are below
    -- the sequence.)
    pub failed_transfer_restores :
        ((event.event_type ≡ "transfer.failed") ⊎ (event.event_type ≡ "transfer.reversed"))
        → (w₂.committed.users ≡ w.committed.users)
          × ((bill : Bill) × (get bill_id w.committed.bills ≡ some bill)
              × (get bill_id w₂.committed.bills
                  ≡ some (count_failure (record bill { status = BillStatus.processing }))))
    failed_transfer_restores (inl e) =
        failing (event_committed "transfer.failed" false e refl refl refl)
    failed_transfer_restores (inr e) =
        failing (event_committed "transfer.reversed" false e refl refl refl)

    -- A payment request that answered normally, followed by a verified event, delivered for the
    -- first time, that its transfer succeeded, leaves the bill paid and the owner's committed
    -- wallet charged with exactly amount and fee, which it covered, and every other wallet as it
    -- was. (Transaction ids are below the sequence.)
    pub successful_transfer_pays :
        event.event_type ≡ "transfer.success"
        → (bill : Bill) × (user : User) × (get bill_id w.committed.bills ≡ some bill)
          × (get user_id w.committed.users ≡ some user)
          × (bill.amount + fee ≤ user.balance)
          × (get bill_id w₂.committed.bills ≡ some (record bill { status = BillStatus.paid }))
          × (w₂.committed.users
              ≡ put user_id
                  (record user { balance = user.balance - (bill.amount + fee) })
                  w.committed.users)
    successful_transfer_pays kind =
        let (bill, user, eb, own, eu, cov, fresh, us, bs, ts) =
          request provider fee user_id bill_id hex w answered in
        let (us', bs') = succeeded bill user own fresh us bs ts in
        let same = event_committed "transfer.success" true kind refl refl refl in
        (
          bill,
          user,
          eb,
          eu,
          cov,
          ap (λ x. get bill_id x.bills) same
              ∙ ap (get bill_id) bs'
              ∙ get-put_self bill_id _ w₁.committed.bills,
          ap (λ x. x.users) same ∙ us' ∙ us,
        )
