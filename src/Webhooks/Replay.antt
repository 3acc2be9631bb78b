-- ===== src/Webhooks/Replay.antt =====
-- A second delivery of the same event changes no business row.
use autopay.Base.{
  ◌≡◌, refl, ◌∙◌, ap, ◌⊎◌, inl, inr, Bool, true, false, none, some, String, Option, arith,
  Bool-cases, str_eq, if◌then◌else◌,
}
use text.Mathlib.TextPositions.{eq_refl}
use autopay.Models.{Db}
use autopay.Session.{ok, err, Result, World}
use autopay.Payout.Confirm.{confirm_payout}
use autopay.Webhooks.{
  WebhookEvent, handle_charge_success, handle_transfer_update, handle_dva_assigned, handle_unknown,
  dispatch, is_recorded, nomba_webhook, record_event, is_transfer_event,
}

-- What every handler leaves alone: the event rows of the transaction, what was sent, the sequences.
pub record Frame (w w' : World) : Type 0 where
  pub events : w'.work.webhook_events ≡ w.work.webhook_events
  pub asked : w'.asked ≡ w.asked
  pub sent : w'.sent ≡ w.sent
  pub bill : w'.next_bill ≡ w.next_bill
  pub transaction : w'.next_transaction ≡ w.next_transaction
  pub account : w'.next_virtual_account ≡ w.next_virtual_account
  pub user : w'.next_user ≡ w.next_user
  pub token : w'.next_refresh_token ≡ w.next_refresh_token
  pub link_code : w'.next_link_code ≡ w.next_link_code
  pub kyc_record : w'.next_kyc_record ≡ w.next_kyc_record

-- It has committed all of its transaction, or nothing.
abbrev pub Ends : World → World → Type 0
Ends w w' = Frame w w' × ((w'.committed ≡ w'.work) ⊎ (w'.committed ≡ w.committed))

confirm_payout-Frame :
    (reference : String) (success : Bool) (reason : Option String) (w : World)
    → Frame w (confirm_payout reference success reason w).1
unfolding confirm_payout
confirm_payout-Frame reference success reason w = ground arith

abbrev pub IsReturn : {A : Type 0} → Result A → Type 0
IsReturn (ok _) = Unit {0}
IsReturn (err _) = ⊥

pub return_value : {A : Type 0} (r : Result A) → IsReturn r → (a : A) × (r ≡ ok a)
return_value (ok a) h = (a, refl)
return_value (err e) h = absurd h

-- `confirm_payout` does not raise.
pub confirm_payout_returns :
    (reference : String) (success : Bool) (reason : Option String) (w : World)
    → IsReturn (confirm_payout reference success reason w).0
unfolding confirm_payout
confirm_payout_returns reference success reason w = ground arith

module _ (event : WebhookEvent) (w : World) where
  handle_charge_success-Ends : Ends w (handle_charge_success event w).1
  unfolding handle_charge_success
  handle_charge_success-Ends = ground arith

  handle_transfer_update-Ends : Ends w (handle_transfer_update event w).1
  unfolding handle_transfer_update
  handle_transfer_update-Ends =
      let success = str_eq event.event_type "transfer.success" in
      let reason : Option String = if success then none else some event.event_type in
      let (r, e) =
        return_value _ (confirm_payout_returns event.provider_reference success reason w) in
      ground (arith, confirm_payout-Frame event.provider_reference success reason w)

  handle_dva_assigned-Ends : Ends w (handle_dva_assigned event w).1
  unfolding handle_dva_assigned
  handle_dva_assigned-Ends = ground arith

  handle_unknown-Ends : (provider : String) → Ends w (handle_unknown provider event w).1
  unfolding handle_unknown
  handle_unknown-Ends provider = ground arith

  module _ (provider : String) where
    pub dispatch-Ends : Ends w (dispatch provider event w).1
    unfolding dispatch
    dispatch-Ends = elim (Bool-cases (str_eq event.event_type "charge.success")) [
      | inl e ↦ rw e handle_charge_success-Ends
      | inr n₁ ↦ rw n₁ (elim (Bool-cases (is_transfer_event event.event_type)) [
        | inl e ↦ rw e handle_transfer_update-Ends
        | inr n₂ ↦
            rw n₂ (elim (Bool-cases (str_eq event.event_type "dedicatedaccount.assign.success")) [
              | inl e ↦ rw e handle_dva_assigned-Ends
              | inr n₃ ↦ rw n₃ (handle_unknown-Ends provider)
            ])
      ])
    ]

module _ (provider : String) (event : WebhookEvent) (w : World) where
  abbrev begun : World
  begun = record w { work = w.committed }

  abbrev pub handled : World
  handled = (nomba_webhook provider (ok event) w).1

  -- No business row of the committed database differs, and the gateway is asked for no transfer.
  pub record Same (w' : World) : Type 0 where
    pub users : w'.committed.users ≡ w.committed.users
    pub bills : w'.committed.bills ≡ w.committed.bills
    pub transactions : w'.committed.transactions ≡ w.committed.transactions
    pub events : w'.committed.webhook_events ≡ w.committed.webhook_events
    pub asked : w'.asked ≡ w.asked
    pub sent : w'.sent ≡ w.sent

  pub recorded-Same :
      is_recorded provider event.event_id w.committed.webhook_events ≡ true → Same handled
  unfolding nomba_webhook
  recorded-Same h = ground arith

  abbrev pub noted : World
  noted = record w { work = record_event provider event w.committed }

  abbrev pub dispatched : World
  dispatched = (dispatch provider event noted).1

  pub handled_new :
      is_recorded provider event.event_id w.committed.webhook_events ≡ false
      → handled ≡ record dispatched { work = dispatched.committed }
  unfolding nomba_webhook
  handled_new h = ground arith

  head_recorded : is_recorded provider event.event_id noted.work.webhook_events ≡ true
  head_recorded = simp (eq_refl)

  -- A first delivery is recorded, or it has left the session as it began.
  new_event :
      is_recorded provider event.event_id w.committed.webhook_events ≡ false
      → (is_recorded provider event.event_id handled.committed.webhook_events ≡ true)
        ⊎ (handled ≡ begun)
  new_event h =
      let (frame, ends) = dispatch-Ends event noted provider in
      elim ends [
        | inl all ↦ inl (
            ap (λ (x : World). is_recorded provider event.event_id x.committed.webhook_events)
              (handled_new h)
            ∙ ap (λ (d : Db). is_recorded provider event.event_id d.webhook_events) all
            ∙ ap (is_recorded provider event.event_id) frame.events
            ∙ head_recorded)
        | inr nothing ↦ inr (handled_new h ∙ (let f = frame in ground arith))
      ]

module _ (provider : String) (event : WebhookEvent) (w : World) where
  -- The database after a second delivery of the event, against that after the first.
  abbrev pub Twice : Type 0
  Twice =
      let w₁ = (nomba_webhook provider (ok event) w).1 in
      Same provider event w₁ (nomba_webhook provider (ok event) w₁).1

  recorded_twice :
      is_recorded provider event.event_id
          (nomba_webhook provider (ok event) w).1.committed.webhook_events
        ≡ true
      → Twice
  recorded_twice h = recorded-Same provider event (nomba_webhook provider (ok event) w).1 h

  Same-of_eq : (w₁ w₂ : World) → w₂ ≡ w₁ → Same provider event w₁ w₂
  Same-of_eq w₁ w₂ e = record {
    users = ap (λ x. x.committed.users) e;
    bills = ap (λ x. x.committed.bills) e;
    transactions = ap (λ x. x.committed.transactions) e;
    events = ap (λ x. x.committed.webhook_events) e;
    asked = ap (λ x. x.asked) e;
    sent = ap (λ x. x.sent) e;
  }

  -- The session starts from what is committed.
  from_begun :
      nomba_webhook provider (ok event) (begun provider event w)
      ≡ nomba_webhook provider (ok event) w
  unfolding nomba_webhook
  from_begun = refl

  unchanged_twice : handled provider event w ≡ begun provider event w → Twice
  unchanged_twice h =
      Same-of_eq _ _
        (ap (λ (x : World). (nomba_webhook provider (ok event) x).1) h ∙ ap (λ x. x.1) from_begun)

  -- A second delivery of a verified event, with whatever type, leaves users, bills, transactions and
  -- recorded events as the first delivery left them, and asks the gateway for no transfer.
  pub nomba_webhook_twice : Twice
  nomba_webhook_twice =
      elim (Bool-cases (is_recorded provider event.event_id w.committed.webhook_events)) [
        | inl old ↦ recorded_twice (
            ap (is_recorded provider event.event_id) (recorded-Same provider event w old).events
            ∙ old)
        | inr new ↦ elim (new_event provider event w new) [
          | inl h ↦ recorded_twice h
          | inr h ↦ unchanged_twice h
        ]
      ]
