-- ===== src/Requests/Rewrites.antt =====
-- The webhook's handlers add no bill and no transaction: each updates at most one row of either table,
-- which it found, and keeps a transaction's reference.
use autopay.Base.{
  ℕ, ◌≡◌, ◌⊎◌, inl, inr, refl, ap, sym, subst, Bool, true, false, Option, none, some, String, arith,
  get, put, first, Option-cases, Bool-cases, str_eq, if◌then◌else◌,
}
use autopay.Models.{User, TransactionStatus, BillStatus, Bill, Transaction}
use autopay.Session.{World}
use autopay.Payout.{count_failure}
use autopay.Payout.Charge.{has_reference}
use autopay.Payout.Confirm.{confirm_payout}
use autopay.Payout.Reconcile.{
  IsOpen, IsOpen-or_IsClosed, confirm_success, confirm_failure, confirm_unknown, confirm_no_bill,
  confirm_lost_bill, confirm_no_user, confirm_closed,
}
use autopay.Webhooks.{
  WebhookEvent, is_transfer_event, handle_charge_success, handle_transfer_update,
  handle_dva_assigned, handle_unknown, dispatch,
}
use autopay.Webhooks.Replay.{confirm_payout_returns, return_value}
use autopay.Requests.Effects.{Ended, Effect, Rewrites, Effect-Rewrites}

counted-Ended : (b : Bill) → Ended b (count_failure b)
unfolding count_failure
counted-Ended b = record { status = ground arith; amount = refl; user_id = refl }

module _ (reference : String) (reason : Option String) (w : World) where
  abbrev Affected : World → Type 0
  Affected w' = Effect w.work w'.work

  untouched : (w' : World) → w' ≡ w → Affected w'
  untouched w' e = Effect.nothing (ap (λ x. x.work.bills) e) (ap (λ x. x.work.transactions) e)

  module _ {txn_id bill_id : ℕ} {txn : Transaction} {bill : Bill}
      (found : first (has_reference reference) w.work.transactions ≡ some (txn_id, txn))
      (owned : txn.bill_id ≡ some bill_id) (billed : get bill_id w.work.bills ≡ some bill)
      (live : IsOpen txn) where
    outcome_Affected :
        (success : Bool) {user : User}
        → get txn.user_id w.work.users ≡ some user
        → Affected (confirm_payout reference success reason w).1
    outcome_Affected true held =
        let (_, bills, txns, _, _) =
          confirm_success reference reason w found owned billed held live in
        let paid : Ended bill (record bill { status = BillStatus.paid }) = record {
          status = inl refl;
          amount = refl;
          user_id = refl;
        } in
        Effect.ends txn_id txn _ reference bill_id bill _ found refl (inl refl) owned billed live
          paid bills txns
    outcome_Affected false held =
        let (_, bills, txns, _, _) =
          confirm_failure reference reason w found owned billed held live in
        Effect.ends txn_id txn _ reference bill_id bill _ found refl (inr refl) owned billed live
          (counted-Ended bill) bills txns

    open_Affected : (success : Bool) → Affected (confirm_payout reference success reason w).1
    open_Affected success = elim (Option-cases (get txn.user_id w.work.users)) [
      | inl lost ↦
          untouched _ (
            ap (λ x. x.1) (confirm_no_user reference success reason w found owned billed live lost))
      | inr (user, held) ↦ outcome_Affected success held
    ]

  pub confirm_payout-Effect :
      (success : Bool) → Affected (confirm_payout reference success reason w).1
  confirm_payout-Effect success =
      elim (Option-cases (first (has_reference reference) w.work.transactions)) [
        | inl h ↦ untouched _ (ap (λ x. x.1) (confirm_unknown reference success reason w h))
        | inr ((txn_id, txn), found) ↦ elim (Option-cases txn.bill_id) [
          | inl h ↦ untouched _ (ap (λ x. x.1) (confirm_no_bill reference success reason w found h))
          | inr (bill_id, owned) ↦ elim (Option-cases (get bill_id w.work.bills)) [
            | inl h ↦
                untouched _
                  (ap (λ x. x.1) (confirm_lost_bill reference success reason w found owned h))
            | inr (bill, billed) ↦ elim (IsOpen-or_IsClosed txn) [
              | inl live ↦ open_Affected found owned billed live success
              | inr closed ↦
                  untouched _ (confirm_closed reference success reason w found owned billed closed)
            ]
          ]
        ]
      ]

module _ (event : WebhookEvent) (w : World) where
  abbrev Handled : World → Type 0
  Handled w' = Effect w.work w'.work

  abbrev success : Bool
  success = str_eq event.event_type "transfer.success"

  abbrev reason : Option String
  reason = if success then none else some event.event_type

  transfer_rows :
      (handle_transfer_update event w).1.work
      ≡ (confirm_payout event.provider_reference success reason w).1.work
  unfolding handle_transfer_update
  transfer_rows =
      let (r, e) =
        return_value _ (confirm_payout_returns event.provider_reference success reason w) in
      ground arith

  handle_transfer_update-Effect : Handled (handle_transfer_update event w).1
  handle_transfer_update-Effect =
      subst (Effect w.work) (sym transfer_rows)
        (confirm_payout-Effect event.provider_reference reason w success)

  charge_bills : (handle_charge_success event w).1.work.bills ≡ w.work.bills
  unfolding handle_charge_success
  charge_bills = ground arith

  charge_nothing :
      first (has_reference event.provider_reference) w.work.transactions ≡ none
      → (handle_charge_success event w).1.work.transactions ≡ w.work.transactions
  unfolding handle_charge_success
  charge_nothing e = ground arith

  charge_found :
      (k : ℕ) (txn : Transaction)
      → first (has_reference event.provider_reference) w.work.transactions ≡ some (k, txn)
      → let t = (handle_charge_success event w).1.work.transactions in
        (t ≡ w.work.transactions)
        ⊎ (t ≡ put k (record txn { status = TransactionStatus.success }) w.work.transactions)
  unfolding handle_charge_success
  charge_found k txn e = ground arith

  handle_charge_success-Effect : Handled (handle_charge_success event w).1
  handle_charge_success-Effect =
      let test = has_reference event.provider_reference in
      elim (Option-cases (first test w.work.transactions)) [
        | inl e ↦ Effect.nothing charge_bills (charge_nothing e)
        | inr ((k, txn), e) ↦ elim (charge_found k txn e) [
          | inl same ↦ Effect.nothing charge_bills same
          | inr more ↦
              Effect.closes k txn _ event.provider_reference e refl (inl refl) charge_bills more
        ]
      ]

  handle_dva_assigned-Effect : Handled (handle_dva_assigned event w).1
  unfolding handle_dva_assigned
  handle_dva_assigned-Effect = Effect.nothing refl refl

  handle_unknown-Effect : (provider : String) → Handled (handle_unknown provider event w).1
  unfolding handle_unknown
  handle_unknown-Effect provider = Effect.nothing refl refl

  pub dispatch-Effect : (provider : String) → Handled (dispatch provider event w).1
  unfolding dispatch
  dispatch-Effect provider = elim (Bool-cases (str_eq event.event_type "charge.success")) [
    | inl e ↦ rw e handle_charge_success-Effect
    | inr n₁ ↦ rw n₁ (elim (Bool-cases (is_transfer_event event.event_type)) [
      | inl e ↦ rw e handle_transfer_update-Effect
      | inr n₂ ↦
          rw n₂ (elim (Bool-cases (str_eq event.event_type "dedicatedaccount.assign.success")) [
            | inl e ↦ rw e handle_dva_assigned-Effect
            | inr n₃ ↦ rw n₃ (handle_unknown-Effect provider)
          ])
    ])
  ]

  pub dispatch-Rewrites : (provider : String) → Rewrites w.work (dispatch provider event w).1.work
  dispatch-Rewrites provider = Effect-Rewrites (dispatch-Effect provider)
