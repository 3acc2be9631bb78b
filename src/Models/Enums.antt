-- ===== src/Models/Enums.antt =====
-- app/models/enums.py. The columns hold the enumerations' values; the model holds the members, and
-- `value` gives the text where the code compares with a text from outside.
use autopay.Base.{ℕ, Bool, String, ◌==◌}

pub data TransactionType : Type 0 where
  credit debit : TransactionType

pub data TransactionStatus : Type 0 where
  pending processing success failed reversed : TransactionStatus

pub data BillStatus : Type 0 where
  pending scheduled processing paid failed cancelled : BillStatus

pub data AuditActor : Type 0 where
  user system webhook scheduler admin : AuditActor

pub data AuditEventType : Type 0 where
  user_signup user_login user_logout user_telegram_linked : AuditEventType
  wallet_credited wallet_debited wallet_refund : AuditEventType
  payout_attempted payout_succeeded payout_failed payout_reversed : AuditEventType
  bill_created bill_scheduled bill_paid bill_failed bill_cancelled : AuditEventType
  bill_recurrence_created va_created va_credited : AuditEventType
  kyc_bvn_submitted kyc_bvn_validated : AuditEventType
  webhook_received webhook_replay webhook_unknown : AuditEventType

pub data AuditEntityType : Type 0 where
  user kyc_record virtual_account bill transaction refresh_token : AuditEntityType

-- The member's place in the enumeration, by which members are compared.
abbrev bill_rank : BillStatus → ℕ
bill_rank BillStatus.pending = 0
bill_rank BillStatus.scheduled = 1
bill_rank BillStatus.processing = 2
bill_rank BillStatus.paid = 3
bill_rank BillStatus.failed = 4
bill_rank BillStatus.cancelled = 5

-- `a == b` on bill statuses.
abbrev pub bill_status_eq : BillStatus → BillStatus → Bool
bill_status_eq a b = bill_rank a == bill_rank b

abbrev txn_rank : TransactionStatus → ℕ
txn_rank TransactionStatus.pending = 0
txn_rank TransactionStatus.processing = 1
txn_rank TransactionStatus.success = 2
txn_rank TransactionStatus.failed = 3
txn_rank TransactionStatus.reversed = 4

-- `a == b` on transaction statuses.
abbrev pub txn_status_eq : TransactionStatus → TransactionStatus → Bool
txn_status_eq a b = txn_rank a == txn_rank b

-- `BillStatus.X.value`
abbrev pub bill_status_value : BillStatus → String
bill_status_value BillStatus.pending = "pending"
bill_status_value BillStatus.scheduled = "scheduled"
bill_status_value BillStatus.processing = "processing"
bill_status_value BillStatus.paid = "paid"
bill_status_value BillStatus.failed = "failed"
bill_status_value BillStatus.cancelled = "cancelled"
