-- ===== src/Webhooks/Credit.antt =====
-- `charge.success`: what a wallet top-up event does.
use autopay.Base.{
  ℕ, ◌+◌, ◌≡◌, ◌≢◌, ◌⊎◌, inl, inr, true, false, none, some, String, arith, get, put, first, eq_iff,
  str_eq, Option-cases, Bool-cases,
}
use autopay.Models.{User, Transaction, TransactionStatus}
use autopay.Session.{ok, World}
use autopay.Payout.Charge.{has_reference}
use autopay.Webhooks.{
  WebhookEvent, amount_or_0, handle_charge_success, dispatch, is_recorded, nomba_webhook,
}

module _ (provider : String) (event : WebhookEvent) (w : World) where
  -- The session after the delivery.
  abbrev pub w' : World
  w' = (nomba_webhook provider (ok event) w).1

  -- The event names an open transaction of a user that is there: that wallet gets the amount.
  abbrev pub Credited : Type 0
  Credited =
      (txn_id : ℕ) × (txn : Transaction) × (user : User) × (first
          (has_reference event.provider_reference) w.committed.transactions
        ≡ some (txn_id, txn))
      × (txn.status ≢ TransactionStatus.success)
      × (get txn.user_id w.committed.users ≡ some user)
      × (w'.committed.users
          ≡ put txn.user_id (record user { balance = user.balance + amount_or_0 event.amount_kobo })
              w.committed.users)
      × (w'.committed.transactions
          ≡ put txn_id (record txn { status = TransactionStatus.success }) w.committed.transactions)

  -- It names none, or one that is done, or one whose user is gone: no wallet changes.
  abbrev pub Ignored : Type 0
  Ignored =
      ((event.provider_reference ≡ "")
        ⊎ (first (has_reference event.provider_reference) w.committed.transactions ≡ none)
        ⊎ ((txn_id : ℕ) × (txn : Transaction) × (first (has_reference event.provider_reference)
                w.committed.transactions
              ≡ some (txn_id, txn))
            × ((txn.status ≡ TransactionStatus.success)
                ⊎ (get txn.user_id w.committed.users ≡ none))))
      × (w'.committed.users ≡ w.committed.users)
      × (w'.committed.transactions ≡ w.committed.transactions)

  module _ (charge : str_eq event.event_type "charge.success" ≡ true)
      (new : is_recorded provider event.event_id w.committed.webhook_events ≡ false) where
    no_reference : str_eq event.provider_reference "" ≡ true → Ignored
    unfolding nomba_webhook dispatch handle_charge_success
    no_reference e = (inl ((eq_iff _ _).0 e), ground arith, ground arith)

    module _ (named : str_eq event.provider_reference "" ≡ false) where
      orphan :
          first (has_reference event.provider_reference) w.committed.transactions ≡ none → Ignored
      unfolding nomba_webhook dispatch handle_charge_success
      orphan e = (inr (inl e), ground arith, ground arith)

      module _ {txn_id : ℕ} {txn : Transaction}
          (found : first (has_reference event.provider_reference) w.committed.transactions
            ≡ some (txn_id, txn)) where
        done_already : txn.status ≡ TransactionStatus.success → Ignored
        unfolding nomba_webhook dispatch handle_charge_success
        done_already e = (inr (inr (txn_id, txn, found, inl e)), ground arith, ground arith)

        module _ (live : txn.status ≢ TransactionStatus.success) where
          no_user : get txn.user_id w.committed.users ≡ none → Ignored
          unfolding nomba_webhook dispatch handle_charge_success
          no_user e = (inr (inr (txn_id, txn, found, inr e)), ground arith, ground arith)

          credited : (user : User) → get txn.user_id w.committed.users ≡ some user → Credited
          unfolding nomba_webhook dispatch handle_charge_success
          credited user e = (txn_id, txn, user, found, live, e, ground arith, ground arith)

        done_or_live :
            (txn.status ≡ TransactionStatus.success) ⊎ (txn.status ≢ TransactionStatus.success)
        done_or_live = ground arith

        with_row : Credited ⊎ Ignored
        with_row = elim done_or_live [
          | inl e ↦ inr (done_already e)
          | inr live ↦ elim (Option-cases (get txn.user_id w.committed.users)) [
            | inl e ↦ inr (no_user live e)
            | inr (user, e) ↦ inl (credited live user e)
          ]
        ]

    -- A new `charge.success` event credits exactly the wallet of the user of the transaction that
    -- it names, by its amount, and marks that transaction as successful, if it was not so before;
    -- it changes no wallet and no transaction if it names no transaction, or a successful one, or
    -- one whose user is gone.
    pub charge_success_outcome : Credited ⊎ Ignored
    charge_success_outcome = elim (Bool-cases (str_eq event.provider_reference "")) [
      | inl e ↦ inr (no_reference e)
      | inr named ↦
          elim (Option-cases
            (first (has_reference event.provider_reference) w.committed.transactions)) [
              | inl e ↦ inr (orphan named e)
              | inr ((txn_id, txn), e) ↦ with_row named e
            ]
    ]
