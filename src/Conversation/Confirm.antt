-- ===== src/Conversation/Confirm.antt =====
-- The handlers of app/handlers/bill_conversation.py that open a session: `handle_confirm`,
-- `handle_cancel` and `handle_final_confirm`. `session_scope` closes its session without a commit.
use autopay.Base.{
  ℕ, zero, suc, Bool, false, ◌||◌, Option, none, some, String, str_eq, get, if◌then◌else◌,
}
use autopay.Base.Int.{days_between}
use autopay.Models.{Bill, BillStatus, bill_status_eq}
use autopay.Session.{
  Exn, Result, ok, err, Action, World, pure, raise, gets, ◌>>=◌, ◌>>◌, modify, commit, put_bill,
  insert_bill, with_session,
}
use autopay.Audit.{audit_bill_created}
use autopay.Agent.{Decision, run_agent}
use autopay.Provider.{PaymentProvider}
use autopay.Payout.{PayoutResult}
use autopay.Payout.Execute.{execute_payout}
use autopay.DateParser.{Calendar, written, parse_bill_due_date}
use autopay.Conversation.{Step, final_confirm, BillData, UserData, cleared, Talk, Handler}

-- `s or None`
abbrev or_none : String → Option String
or_none s = if str_eq s "" then none else some s

-- The new row, due at `due_date`.
abbrev pub bill_of : ℕ → BillData → ℕ → Bill
bill_of user_id b due_date = record {
  user_id = user_id;
  vendor_name = b.vendor_name;
  account_number = or_none b.account_number;
  bank_code = or_none b.bank_code;
  bank_name = none;
  amount = b.amount;
  currency = b.currency;
  due_date = due_date;
  status = BillStatus.pending;
  is_recurring = false;
  recurrence_interval = none;
  next_recurrence_date = none;
  retry_count = 0;
  max_retries = 3;
}

-- A handler that goes on with what an action returned. An exception leaves the handler.
abbrev pub with_result :
    {A : Type 0} → Result A × World → UserData → (A → Handler) → Result (Option Step) × Talk
with_result (ok a, w) user_data f = f a (record { user_data = user_data; world = w })
with_result (err e, w) user_data f = (err e, record { user_data = user_data; world = w })

-- The end of a dialogue whose data is cleared.
abbrev pub finish : Handler
finish t = (ok none, record t { user_data = cleared })

-- The row of a bill, or none, with its status changed.
unfoldable pub schedule_row : ℕ → Option Bill → Action (Option Bill)
schedule_row bill_id none = pure none
schedule_row bill_id (some bill) = do
  modify (put_bill bill_id (record bill { status = BillStatus.scheduled }))
  pure (some bill)

-- The second session of `handle_confirm`, which it does not commit.
unfoldable pub schedule_in_session : ℕ → Action (Option Bill)
unfolding schedule_row
schedule_in_session bill_id =
    with_session (do row ← gets (λ d. get bill_id d.bills); schedule_row bill_id row)

-- A row that `handle_cancel` may cancel.
abbrev is_open : Bill → Bool
is_open bill =
    bill_status_eq bill.status BillStatus.pending || bill_status_eq bill.status BillStatus.scheduled

unfoldable pub cancel_row : ℕ → Option Bill → Action (Unit {0})
cancel_row bill_id none = pure tt
cancel_row bill_id (some bill) =
    if is_open bill
    then modify (put_bill bill_id (record bill { status = BillStatus.cancelled }))
    else pure tt

-- The session of `handle_cancel`.
unfoldable pub cancel_in_session : ℕ → Action (Unit {0})
unfolding cancel_row
cancel_in_session bill_id =
    with_session (do row ← gets (λ d. get bill_id d.bills); cancel_row bill_id row)

unfoldable pub cancel_from : Option ℕ → Handler
unfolding cancel_in_session
cancel_from none t = finish t
cancel_from (some zero) t = finish t
cancel_from (some (suc k)) t =
    with_result (cancel_in_session (suc k) t.world) t.user_data λ _. finish

-- `handle_cancel`
unfoldable pub handle_cancel : Handler
unfolding cancel_from
handle_cancel t = cancel_from t.user_data.bill_id t

-- What follows the second session of `handle_confirm`: the answer reads the row, so that an
-- `AttributeError` is raised if there was none.
abbrev after_schedule : Option Bill → Handler
after_schedule none t = (err Exn.unexpected, t)
after_schedule (some bill) t = finish t

-- What `handle_confirm` does about the decision.
unfoldable pub on_decision : ℕ → Decision → Handler
unfolding schedule_in_session
on_decision bill_id Decision.pay_now t = (ok (some final_confirm), t)
on_decision bill_id Decision.schedule t =
    with_result (schedule_in_session bill_id t.world) t.user_data after_schedule
on_decision bill_id Decision.hold t = finish t

module _ (calendar : Calendar) (fee now : ℕ) where
  -- The first session of `handle_confirm`, which it does not commit.
  unfoldable pub store_bill : ℕ → BillData → Result ℕ → Action (ℕ × Bill)
  store_bill user_id b (err e) = raise e
  store_bill user_id b (ok due_date) = do
    bill_id ← insert_bill (bill_of user_id b due_date)
    audit_bill_created user_id bill_id b.amount "paystack"
    pure (bill_id, bill_of user_id b due_date)

  -- The agent's decision, and what follows.
  unfoldable pub decide_on : ℕ × Bill → Handler
  unfolding on_decision
  decide_on (bill_id, bill) t =
      let days_until_due = days_between bill.due_date now in
      let decision = run_agent t.user_data.user_balance bill.amount fee days_until_due in
      on_decision bill_id decision.decision
        (record t { user_data = record t.user_data { bill_id = some bill_id } })

  unfoldable pub confirm_from : Option ℕ → Option BillData → Handler
  unfolding store_bill decide_on
  confirm_from (some (suc user)) (some b) t =
      with_result
        (with_session
          (store_bill (suc user) b (parse_bill_due_date calendar now (written b.due_date))) t.world)
        t.user_data decide_on
  confirm_from _ _ t = (ok none, t)

  -- `handle_confirm`
  unfoldable pub handle_confirm : Handler
  unfolding confirm_from
  handle_confirm t = confirm_from t.user_data.user_id t.user_data.bill t

-- The payout is committed if it returned.
unfoldable pub commit_paid : Result PayoutResult × World → Result PayoutResult × World
commit_paid (ok result, w) = (commit >> pure result) w
commit_paid (err e, w) = raise e w

module _ (provider : PaymentProvider) (fee : ℕ) (hex : String) where
  -- The session of `handle_final_confirm`.
  unfoldable pub pay_in_session : ℕ → Action PayoutResult
  unfolding commit_paid
  pay_in_session bill_id =
      with_session (λ w. commit_paid (execute_payout provider fee bill_id hex w))

  -- Whether the payout raised or not, the dialogue ends.
  unfoldable pub final_from : Option ℕ → Handler
  unfolding pay_in_session
  final_from none t = (ok none, t)
  final_from (some zero) t = (ok none, t)
  final_from (some (suc k)) t =
      (ok none, record { user_data = cleared; world = (pay_in_session (suc k) t.world).1 })

  -- `handle_final_confirm`
  unfoldable pub handle_final_confirm : Handler
  unfolding final_from
  handle_final_confirm t = final_from t.user_data.bill_id t
