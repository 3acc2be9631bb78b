-- ===== src/Models/Rows.antt =====
-- app/models: the rows. The primary key is the key of the table, not a field. Money is in kobo, the
-- hundredths of NUMERIC(14,2); a moment is a number of microseconds. The columns `created_at` and
-- `updated_at`, which no operation here reads, are left out.
use autopay.Base.{ℕ, Bool, Option, String, List}
use autopay.Base.{Table}
use autopay.Models.Enums.{
  TransactionType, TransactionStatus, BillStatus, AuditActor, AuditEventType, AuditEntityType,
}

pub record User : Type 0 where
  pub first_name : String
  pub last_name : String
  pub email : String
  pub phone_number : String
  pub hashed_password : String
  pub telegram_chat_id : Option String
  pub is_telegram_linked : Bool
  pub balance : ℕ
  pub currency : String
  pub address : Option String

pub record Bill : Type 0 where
  pub user_id : ℕ
  pub vendor_name : String
  pub account_number : Option String
  pub bank_code : Option String
  pub bank_name : Option String
  pub amount : ℕ
  pub currency : String
  pub due_date : ℕ
  pub status : BillStatus
  pub is_recurring : Bool
  pub recurrence_interval : Option String
  pub next_recurrence_date : Option ℕ
  pub retry_count : ℕ
  pub max_retries : ℕ

pub record Transaction : Type 0 where
  pub user_id : ℕ
  pub bill_id : Option ℕ
  pub type : TransactionType
  pub amount : ℕ
  pub fee : ℕ
  pub currency : String
  pub status : TransactionStatus
  pub provider : String
  pub provider_reference : Option String
  pub retry_count : ℕ
  pub failure_reason : Option String
  pub narration : Option String

-- The values in an audit row's JSON columns.
pub data Json : Type 0 where
  null : Json
  num : ℕ → Json
  text : String → Json

abbrev pub Payload : Type 0
Payload = List (String × Json)

pub record AuditLog : Type 0 where
  pub user_id : Option ℕ
  pub actor : AuditActor
  pub event_type : AuditEventType
  pub entity_type : Option AuditEntityType
  pub entity_id : Option ℕ
  pub before_state : Option Payload
  pub after_state : Option Payload
  pub event_metadata : Option Payload
  pub ip_address : Option String

pub record WebhookEventRow : Type 0 where
  pub provider : String
  pub event_id : String
  pub event_type : String

pub record VirtualAccount : Type 0 where
  pub user_id : ℕ
  pub provider : String
  pub provider_account_reference : String
  pub account_number : Option String
  pub account_name : Option String
  pub bank_name : Option String
  pub currency : String

pub record RefreshToken : Type 0 where
  pub user_id : ℕ
  pub token_hash : String
  pub expires_at : ℕ
  pub revoked : Bool

-- The code is unique.
pub record TelegramLinkCode : Type 0 where
  pub user_id : ℕ
  pub code : String
  pub expires_at : ℕ
  pub is_used : Bool

-- app/models/kyc.py; the ciphertext is told by its bytes as a text.
pub record KycRecord : Type 0 where
  pub user_id : ℕ
  pub bvn_ciphertext : String
  pub bvn_last4 : String
  pub bvn_hash : String
  pub bvn_validated : Bool
  pub validated_at : Option ℕ

-- The tables of the database.
pub record Db : Type 0 where
  pub users : Table User
  pub bills : Table Bill
  pub transactions : Table Transaction
  pub webhook_events : List WebhookEventRow
  pub virtual_accounts : Table VirtualAccount
  pub refresh_tokens : Table RefreshToken
  pub telegram_link_codes : Table TelegramLinkCode
  pub kyc_records : Table KycRecord
  pub audit_logs : List AuditLog
