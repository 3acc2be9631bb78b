-- ===== src/Audit.antt =====
-- app/services/audit.py: the audit rows, written in the session of the business change. An action
-- returns nothing, since no caller reads the row that comes back; amounts are in kobo, where the
-- code prints them as floats of naira.
use autopay.Base.{ℕ, Option, none, some, [], ◌∷◌, String, last_four}
use autopay.Models.{AuditActor, AuditEventType, AuditEntityType, Json, Payload}
use autopay.Session.{Action, modify, add_audit}

-- `write_audit`
abbrev pub write_audit :
    AuditActor
    → AuditEventType
    → Option ℕ
    → Option AuditEntityType
    → Option ℕ
    → Option Payload
    → Option Payload
    → Option Payload
    → Option String
    → Action (Unit {0})
write_audit actor event_type user_id entity_type entity_id before after metadata ip = modify (
    add_audit (record {
      user_id = user_id;
      actor = actor;
      event_type = event_type;
      entity_type = entity_type;
      entity_id = entity_id;
      before_state = before;
      after_state = after;
      event_metadata = metadata;
      ip_address = ip;
    }))

abbrev pub audit_user_event : AuditEventType → ℕ → Option String → Action (Unit {0})
audit_user_event event user_id ip =
    write_audit AuditActor.user event (some user_id) (some AuditEntityType.user) (some user_id) none
      none none ip

abbrev pub audit_user_signup : ℕ → Option String → Action (Unit {0})
audit_user_signup = audit_user_event AuditEventType.user_signup

abbrev pub audit_login : ℕ → Option String → Action (Unit {0})
audit_login = audit_user_event AuditEventType.user_login

abbrev pub audit_logout : ℕ → Option String → Action (Unit {0})
audit_logout = audit_user_event AuditEventType.user_logout

-- `actor` has the default WEBHOOK, which every caller takes.
abbrev pub audit_wallet_credit : ℕ → ℕ → String → ℕ → Action (Unit {0})
audit_wallet_credit user_id amount reference new_balance =
    write_audit AuditActor.webhook AuditEventType.wallet_credited (some user_id)
      (some AuditEntityType.transaction) none none
      (some (("amount", Json.num amount) ∷ ("balance", Json.num new_balance) ∷ []))
      (some (("provider_reference", Json.text reference) ∷ [])) none

abbrev pub audit_wallet_debit : ℕ → ℕ → ℕ → ℕ → String → ℕ → Action (Unit {0})
audit_wallet_debit user_id amount fee bill_id reference new_balance =
    write_audit AuditActor.system AuditEventType.payout_attempted (some user_id)
      (some AuditEntityType.transaction) (some bill_id) none
      (some (
        ("amount", Json.num amount)
        ∷ ("fee", Json.num fee)
        ∷ ("balance", Json.num new_balance)
        ∷ ("provider_reference", Json.text reference)
        ∷ []))
      none none

abbrev pub audit_payout_succeeded : ℕ → ℕ → String → Action (Unit {0})
audit_payout_succeeded user_id bill_id reference =
    write_audit AuditActor.webhook AuditEventType.payout_succeeded (some user_id)
      (some AuditEntityType.bill) (some bill_id) none none
      (some (("provider_reference", Json.text reference) ∷ [])) none

abbrev pub audit_payout_failed : ℕ → ℕ → String → ℕ → Action (Unit {0})
audit_payout_failed user_id bill_id reason retry_count =
    write_audit AuditActor.system AuditEventType.payout_failed (some user_id)
      (some AuditEntityType.bill) (some bill_id) none none
      (some (("reason", Json.text reason) ∷ ("retry_count", Json.num retry_count) ∷ [])) none

abbrev pub audit_bill_created : ℕ → ℕ → ℕ → String → Action (Unit {0})
audit_bill_created user_id bill_id amount provider =
    write_audit AuditActor.user AuditEventType.bill_created (some user_id)
      (some AuditEntityType.bill) (some bill_id) none
      (some (("amount", Json.num amount) ∷ ("provider", Json.text provider) ∷ [])) none none

-- `audit_va_created`
abbrev pub audit_va_created : ℕ → ℕ → String → String → Action (Unit {0})
audit_va_created user_id va_id provider account_number =
    write_audit AuditActor.system AuditEventType.va_created (some user_id)
      (some AuditEntityType.virtual_account) (some va_id) none
      (some (
        ("provider", Json.text provider)
        ∷ ("account_number_last4", Json.text (last_four account_number))
        ∷ []))
      none none

-- `audit_kyc_bvn_submitted`
abbrev pub audit_kyc_bvn_submitted : ℕ → ℕ → String → Action (Unit {0})
audit_kyc_bvn_submitted user_id kyc_id bvn_last4 =
    write_audit AuditActor.user AuditEventType.kyc_bvn_submitted (some user_id)
      (some AuditEntityType.kyc_record) (some kyc_id) none
      (some (("bvn_last4", Json.text bvn_last4) ∷ [])) none none
