-- ===== src/Webhooks.antt =====
-- app/api/webhooks.py: the handler of POST /webhooks/nomba, in a session of its own. What
-- `provider.parse_webhook` made of the request, a verified event or an error, is an argument.
pub mod Replay
pub mod Credit
pub mod Delivered
pub mod Transfers
use autopay.Base.{
  ℕ, ◌+◌, Bool, true, false, ◌&&◌, ◌||◌, Option, none, some, List, [], ◌∷◌, String, str_eq,
  if◌then◌else◌, get, first,
}
use autopay.Models.{
  User, Transaction, TransactionStatus, txn_status_eq, AuditActor, AuditEventType, AuditEntityType,
  Json, WebhookEventRow, Db,
}
use autopay.Session.{
  PaymentErrorKind, Exn, Result, ok, err, Action, pure, raise, gets, ◌>>=◌, ◌>>◌, modify, commit,
  rollback, put_user, put_transaction, with_session,
}
use autopay.Audit.{write_audit, audit_wallet_credit}
use autopay.Payout.Charge.{has_reference}
use autopay.Payout.Confirm.{confirm_payout}

-- `WebhookEvent` of app/services/payments/base.py; `raw` is only logged.
pub record WebhookEvent : Type 0 where
  pub event_type : String
  pub provider_reference : String
  pub event_id : String
  pub amount_kobo : Option ℕ

pub record WebhookResponse : Type 0 where
  pub replay : Bool
  pub event : String

-- The UNIQUE constraint on (provider, event_id).
abbrev pub is_recorded : String → String → List WebhookEventRow → Bool
is_recorded provider event_id [] = false
is_recorded provider event_id (row ∷ rows) =
    str_eq row.provider provider && str_eq row.event_id event_id
    || is_recorded provider event_id rows

-- `event.amount_kobo or 0`
abbrev pub amount_or_0 : Option ℕ → ℕ
amount_or_0 none = 0
amount_or_0 (some n) = n

abbrev pub amount_json : Option ℕ → Json
amount_json none = Json.null
amount_json (some n) = Json.num n

-- The wallet is credited, and the transaction is done.
unfoldable pub credit : WebhookEvent → ℕ → Transaction → Option User → Action (Unit {0})
credit event txn_id txn none = pure tt
credit event txn_id txn (some user) = do
  let amount = amount_or_0 event.amount_kobo
  modify (put_user txn.user_id (record user { balance = user.balance + amount }))
  modify (put_transaction txn_id (record txn { status = TransactionStatus.success }))
  audit_wallet_credit txn.user_id amount event.provider_reference (user.balance + amount)
  commit

-- `_handle_charge_success`, from the row that its reference names.
unfoldable pub apply_charge : WebhookEvent → Option (ℕ × Transaction) → Action (Unit {0})
unfolding credit
apply_charge event none = do
  write_audit AuditActor.webhook AuditEventType.wallet_credited none
      (some AuditEntityType.transaction) none none none
      (some (
        ("reference", Json.text event.provider_reference)
        ∷ ("amount_kobo", amount_json event.amount_kobo)
        ∷ ("status", Json.text "orphan_credit")
        ∷ []))
      none
  commit
apply_charge event (some (txn_id, txn)) =
    if txn_status_eq txn.status TransactionStatus.success
    then pure tt
    else (do user ← gets (λ d. get txn.user_id d.users); credit event txn_id txn user)

-- `_handle_charge_success`
unfoldable pub handle_charge_success : WebhookEvent → Action (Unit {0})
unfolding apply_charge
handle_charge_success event = if str_eq event.provider_reference "" then pure tt else (do
  found ← gets (λ d. first (has_reference event.provider_reference) d.transactions)
  apply_charge event found)

-- `_handle_transfer_update`
unfoldable pub handle_transfer_update : WebhookEvent → Action (Unit {0})
handle_transfer_update event = do
  let success = str_eq event.event_type "transfer.success"
  _ ←
      confirm_payout event.provider_reference success
        (if success then none else some event.event_type)
  commit

-- `_handle_dva_assigned`
unfoldable pub handle_dva_assigned : WebhookEvent → Action (Unit {0})
handle_dva_assigned event = do
  write_audit AuditActor.webhook AuditEventType.va_created none
      (some AuditEntityType.virtual_account) none none none
      (some (
        ("event", Json.text "dva_assigned")
        ∷ ("reference", Json.text event.provider_reference)
        ∷ ("event_id", Json.text event.event_id)
        ∷ []))
      none
  commit

-- An event of another type leaves an audit row.
unfoldable pub handle_unknown : String → WebhookEvent → Action (Unit {0})
handle_unknown provider event = do
  write_audit AuditActor.webhook AuditEventType.webhook_unknown none
      (some AuditEntityType.transaction) none none none
      (some (
        ("provider", Json.text provider)
        ∷ ("event_type", Json.text event.event_type)
        ∷ ("reference", Json.text event.provider_reference)
        ∷ ("event_id", Json.text event.event_id)
        ∷ []))
      none
  commit

abbrev pub is_transfer_event : String → Bool
is_transfer_event t =
    str_eq t "transfer.success" || str_eq t "transfer.failed" || str_eq t "transfer.reversed"

-- The dispatch on the event's type.
unfoldable pub dispatch : String → WebhookEvent → Action (Unit {0})
dispatch provider event =
    if str_eq event.event_type "charge.success"
    then handle_charge_success event
    else if is_transfer_event event.event_type
    then handle_transfer_update event
    else if str_eq event.event_type "dedicatedaccount.assign.success"
    then handle_dva_assigned event
    else handle_unknown provider event

-- The answer to an event that is recorded already.
unfoldable pub answer_replay : String → WebhookEvent → Action WebhookResponse
answer_replay provider event = do
  rollback
  write_audit AuditActor.webhook AuditEventType.webhook_replay none
      (some AuditEntityType.transaction) none none none
      (some (
        ("provider", Json.text provider)
        ∷ ("event_id", Json.text event.event_id)
        ∷ ("event_type", Json.text event.event_type)
        ∷ []))
      none
  commit
  pure (record { replay = true; event = event.event_type })

abbrev pub record_event : String → WebhookEvent → Db → Db
record_event provider event d = record d {
  webhook_events =
      record { provider = provider; event_id = event.event_id; event_type = event.event_type }
      ∷ d.webhook_events;
}

-- The handler, from whether the UNIQUE constraint refuses the event's row.
unfoldable pub receive : String → WebhookEvent → Bool → Action WebhookResponse
unfolding answer_replay
receive provider event true = answer_replay provider event
receive provider event false = do
  modify (record_event provider event)
  dispatch provider event
  pure (record { replay = false; event = event.event_type })

abbrev is_bad_signature : PaymentErrorKind → Bool
is_bad_signature PaymentErrorKind.webhook_signature = true
is_bad_signature _ = false

-- `nomba_webhook`
unfoldable pub nomba_webhook : String → Result WebhookEvent → Action WebhookResponse
unfolding receive
nomba_webhook provider (ok event) = with_session (do
  seen ← gets (λ d. is_recorded provider event.event_id d.webhook_events)
  receive provider event seen)
nomba_webhook provider (err (Exn.payment e)) = with_session (
    if is_bad_signature e.kind
    then raise (Exn.http 400 "Invalid signature")
    else raise (Exn.payment e))
nomba_webhook provider (err e) = with_session (raise e)
