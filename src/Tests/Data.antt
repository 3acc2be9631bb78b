-- ===== src/Tests/Data.antt =====
-- A small database: two users, a bill with a payout account and a recurring one.
use autopay.Base.{ℕ, true, false, none, some, [], ◌∷◌}
use autopay.Models.{User, Bill, BillStatus, Db}
use autopay.Session.{ok, err, Exn, PaymentErrorKind, World}
use autopay.Provider.{PaymentProvider}

-- A gateway that accepts everything.
abbrev pub willing : PaymentProvider
willing = record {
  name = "nomba";
  create_customer = λ _ _ _ _. ok "apy-1";
  create_virtual_account = λ _ name. ok (record {
    account_number = "9000000001";
    account_name = name;
    bank_name = "Nombank";
    bank_code = "";
    provider_reference = "va-1";
    provider = "nomba";
  });
  resolve_account = λ number code.
      ok (record { account_number = number; account_name = "IKEJA ELECTRIC"; bank_code = code });
  create_transfer_recipient = λ number _ _. ok number;
  initiate_transfer = λ t. ok (record {
    provider_reference = t.reference;
    provider_transfer_id = "tr-1";
    status = "pending";
  });
}

-- A gateway whose own balance is too low.
abbrev pub broke : PaymentProvider
broke = record willing {
  initiate_transfer = λ _. err (
      Exn.payment (record { kind = PaymentErrorKind.insufficient_funds; message = "low balance" }));
}

abbrev pub ada : User
ada = record {
  first_name = "Ada";
  last_name = "Obi";
  email = "ada@example.com";
  phone_number = "0800";
  hashed_password = "x";
  telegram_chat_id = none;
  is_telegram_linked = false;
  balance = 100000;
  currency = "NGN";
  address = none;
}

abbrev pub power_bill : Bill
power_bill = record {
  user_id = 1;
  vendor_name = "Ikeja Electric";
  account_number = some "0123456789";
  bank_code = some "058";
  bank_name = none;
  amount = 40000;
  currency = "NGN";
  due_date = 0;
  status = BillStatus.pending;
  is_recurring = false;
  recurrence_interval = none;
  next_recurrence_date = none;
  retry_count = 0;
  max_retries = 3;
}

abbrev pub rent : Bill
rent = record power_bill {
  status = BillStatus.scheduled;
  is_recurring = true;
  recurrence_interval = some "monthly";
  next_recurrence_date = some 0;
}

abbrev pub db : Db
db = record {
  users = (1, ada) ∷ (2, record ada { email = "bem@example.com"; balance = 0 }) ∷ [];
  bills = (7, power_bill) ∷ (8, rent) ∷ [];
  transactions = [];
  webhook_events = [];
  virtual_accounts = [];
  refresh_tokens = [];
  telegram_link_codes = [];
  kyc_records = [];
  audit_logs = [];
}

abbrev pub start : World
start = record {
  committed = db;
  work = db;
  asked = [];
  sent = [];
  next_bill = 9;
  next_transaction = 1;
  next_virtual_account = 1;
  next_user = 3;
  next_refresh_token = 1;
  next_link_code = 1;
  next_kyc_record = 1;
}

-- 50 naira.
abbrev pub fee : ℕ
fee = 5000
