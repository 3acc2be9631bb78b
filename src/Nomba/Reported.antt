-- ===== src/Nomba/Reported.antt =====
-- A payout from the payment request to Nomba's webhook that reports on it, in bytes.
use autopay.Base.{
  ℕ, ◌+◌, ◌-◌, ◌≤◌, ◌≡◌, ◌⊎◌, inl, inr, refl, sym, ◌∙◌, subst, true, false, Option, some, String,
  get, put, KeysBelow,
}
use autopay.Models.{User, Bill, BillStatus}
use autopay.Session.{ok, World}
use autopay.Provider.{PaymentProvider}
use autopay.Payout.{count_failure}
use autopay.Payout.Charge.{new_reference}
use autopay.Bills.{BillActionResponse, pay_bill}
use autopay.Webhooks.{WebhookEvent, is_recorded, nomba_webhook}
use autopay.Webhooks.Transfers.{failed_transfer_restores, successful_transfer_pays}
use autopay.Nomba.Values.{Value, Fields, text, fields_of, get_field, or_value, str}
use autopay.Nomba.Tokens.{Credentials}
use autopay.Nomba.Events.{
  Libraries, Headers, data_of, transaction_of, event_type_of, verify_webhook_signature, amount_of,
  reference_of, event_id_of, event_of, parse_webhook, webhook_request,
}
use autopay.Nomba.Verified.{verified_parse}

-- A signed body that has the shape of Nomba's.
module _ (libraries : Libraries) (credentials : Credentials) (headers : Headers) (raw_body : String)
    (v : Value) (payload fields transaction : Fields) (amount : Option ℕ) (kind : String) where
  abbrev pub SaysSigned : Type 0
  SaysSigned =
      (verify_webhook_signature libraries credentials.webhook_secret headers raw_body ≡ ok true)
      × (libraries.loads raw_body ≡ some v)
      × (fields_of v ≡ ok payload)
      × (data_of payload ≡ ok fields)
      × (transaction_of fields ≡ ok transaction)
      × (amount_of libraries (get_field "transactionAmount" transaction) ≡ ok amount)
      × (get_field "event_type" payload ≡ text kind)

  abbrev said : WebhookEvent
  said = record {
    event_type = event_type_of (str (or_value (text kind) (text "")));
    provider_reference = reference_of transaction;
    event_id = event_id_of libraries raw_body payload;
    amount_kobo = amount;
  }

  parsed :
      SaysSigned → parse_webhook libraries credentials.webhook_secret headers raw_body ≡ ok said
  unfolding event_of
  parsed (verified, loaded, object, data', transaction', amount', kind') =
      verified_parse libraries credentials.webhook_secret headers raw_body v payload verified loaded
        object
      ∙ rw (data', transaction', amount', kind') refl

  failing_kind :
      ((kind ≡ "payout_failed") ⊎ (kind ≡ "payout_refund"))
      → (said.event_type ≡ "transfer.failed") ⊎ (said.event_type ≡ "transfer.reversed")
  unfolding event_type_of str
  failing_kind (inl e) = inl (rw e refl)
  failing_kind (inr e) = inr (rw e refl)

  module _ (provider : PaymentProvider) (fee user_id bill_id : ℕ) (hex : String) (w : World) where
    abbrev pub w₁ : World
    w₁ = (pay_bill provider fee user_id bill_id hex w).1

    abbrev pub w₂ : World
    w₂ = (webhook_request libraries credentials.webhook_secret headers raw_body w₁).1

    -- The wallets are as before the payment, and one more attempt is counted.
    abbrev pub IsRestored : World → Type 0
    IsRestored w' =
        (w'.committed.users ≡ w.committed.users)
        × ((bill : Bill) × (get bill_id w.committed.bills ≡ some bill)
            × (get bill_id w'.committed.bills
                ≡ some (count_failure (record bill { status = BillStatus.processing }))))

    -- The bill is paid, and its owner charged with amount and fee.
    abbrev pub IsPaid : World → Type 0
    IsPaid w' =
        (bill : Bill) × (user : User) × (get bill_id w.committed.bills ≡ some bill)
        × (get user_id w.committed.users ≡ some user)
        × (bill.amount + fee ≤ user.balance)
        × (get bill_id w'.committed.bills ≡ some (record bill { status = BillStatus.paid }))
        × (w'.committed.users
            ≡ put user_id (record user { balance = user.balance - (bill.amount + fee) })
                w.committed.users)

    -- A payment request that answered normally, whatever the gateway's calls answered, followed by a signed webhook request
    -- with a new event id that reports the payout of that reference as failed or refunded, leaves
    -- every committed wallet as it was before the payment, and the bill with one more attempt
    -- counted. (Transaction ids are below the sequence.)
    pub payout_failed_restores :
        {response : BillActionResponse}
        → KeysBelow w.next_transaction w.committed.transactions
        → (pay_bill provider fee user_id bill_id hex w).0 ≡ ok response
        → provider.name ≡ "nomba"
        → SaysSigned
        → ((kind ≡ "payout_failed") ⊎ (kind ≡ "payout_refund"))
        → reference_of transaction ≡ new_reference bill_id hex
        → is_recorded "nomba" (event_id_of libraries raw_body payload) w₁.committed.webhook_events
          ≡ false
        → IsRestored w₂
    payout_failed_restores keys answered is_nomba says is_kind named new =
        let new' =
          subst
            (λ n.
              is_recorded n (event_id_of libraries raw_body payload) w₁.committed.webhook_events
              ≡ false)
            (sym is_nomba) new in
        subst (λ x. IsRestored (nomba_webhook "nomba" x w₁).1) (sym (parsed says))
          (subst (λ n. IsRestored (nomba_webhook n (ok said) w₁).1) is_nomba
            (failed_transfer_restores provider fee user_id bill_id hex w said keys answered named
              new' (failing_kind is_kind)))

    -- The same, where the webhook reports the payout as done: the bill is paid, and the owner's
    -- committed wallet is charged with exactly amount and fee, which it covered.
    pub payout_success_pays :
        {response : BillActionResponse}
        → KeysBelow w.next_transaction w.committed.transactions
        → (pay_bill provider fee user_id bill_id hex w).0 ≡ ok response
        → provider.name ≡ "nomba"
        → SaysSigned
        → kind ≡ "payout_success"
        → reference_of transaction ≡ new_reference bill_id hex
        → is_recorded "nomba" (event_id_of libraries raw_body payload) w₁.committed.webhook_events
          ≡ false
        → IsPaid w₂
    unfolding event_type_of str
    payout_success_pays keys answered is_nomba says is_kind named new =
        let new' =
          subst
            (λ n.
              is_recorded n (event_id_of libraries raw_body payload) w₁.committed.webhook_events
              ≡ false)
            (sym is_nomba) new in
        subst (λ x. IsPaid (nomba_webhook "nomba" x w₁).1) (sym (parsed says))
          (subst (λ n. IsPaid (nomba_webhook n (ok said) w₁).1) is_nomba
            (successful_transfer_pays provider fee user_id bill_id hex w said keys answered named
              new' (rw is_kind refl)))
