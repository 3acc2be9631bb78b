-- ===== src/Payout/Recurrence.antt =====
-- app/services/payout.py: `schedule_recurrence`. The tzinfo that the code strips has no place in
-- a moment that is a number.
use autopay.Base.{
  ℕ, ◌+◌, ◌*◌, true, not, ◌||◌, Option, none, some, String, if◌then◌else◌, truthy, text_or, str_eq,
}
use autopay.Base.Int.{day}
use autopay.Models.{Bill, BillStatus}
use autopay.Session.{Action, pure, ◌>>=◌, ◌>>◌, modify, put_bill, insert_bill}

-- `timedelta(days=30 if ... == "monthly" else 7)`
abbrev pub period : Option String → ℕ
period interval = (if str_eq (text_or interval "") "monthly" then 30 else 7) * day

-- The bill of the next period; what it does not set has the model's defaults.
unfoldable pub next_of : Bill → Bill
next_of bill =
    let next_due = bill.due_date + period bill.recurrence_interval in
    record {
      user_id = bill.user_id;
      vendor_name = bill.vendor_name;
      account_number = bill.account_number;
      bank_code = bill.bank_code;
      bank_name = bill.bank_name;
      amount = bill.amount;
      currency = bill.currency;
      due_date = next_due;
      status = BillStatus.scheduled;
      is_recurring = true;
      recurrence_interval = bill.recurrence_interval;
      next_recurrence_date = some next_due;
      retry_count = 0;
      max_retries = 3;
    }

-- `schedule_recurrence`: the key of the new bill, if there is one.
unfoldable pub schedule_recurrence : ℕ → Bill → Action (Option ℕ)
unfolding next_of
schedule_recurrence bill_id bill =
    if not bill.is_recurring || not (truthy bill.recurrence_interval) then pure none else (do
      let next_due = bill.due_date + period bill.recurrence_interval
      modify (put_bill bill_id (record bill { next_recurrence_date = some next_due }))
      next_id ← insert_bill (next_of bill)
      pure (some next_id))
