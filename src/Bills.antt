-- ===== src/Bills.antt =====
-- app/api/bills.py: the handlers of /bills, each in a session of its own. The authenticated user's
-- id is an argument; a response is the bill's key and row, the message and the decision.
pub mod Pay
pub mod Guards
pub mod Listed
pub mod Upload
pub mod Uploaded
use autopay.Base.{
  ℕ, Bool, true, false, not, ◌&&◌, ◌||◌, Option, none, some, List, [], ◌∷◌, String, ◌++◌, ltb, ◌==◌,
  str_eq, truthy, text_or, if◌then◌else◌, get, select, Table,
}
use autopay.Models.{Bill, BillStatus, bill_status_eq, bill_status_value, Db}
use autopay.Session.{
  Exn, Result, ok, err, Action, World, pure, raise, gets, ◌>>=◌, ◌>>◌, raise_if, modify, commit,
  rollback, put_bill, insert_bill, with_session,
}
use autopay.Audit.{audit_bill_created}
use autopay.Agent.{Decision}
use autopay.Provider.{PaymentProvider}
use autopay.Payout.{PayoutResult}
use autopay.Payout.Execute.{execute_payout}

-- `BillActionResponse`
pub record BillActionResponse : Type 0 where
  pub bill_id : ℕ
  pub bill : Bill
  pub message : String
  pub decision : Option Decision
  pub decision_reason : Option String

-- `BillCreateRequest`, after its validation; the amount in kobo.
pub record BillCreateRequest : Type 0 where
  pub vendor_name : String
  pub amount : ℕ
  pub due_date : ℕ
  pub account_number : Option String
  pub bank_code : Option String
  pub bank_name : Option String

abbrev not_found : Exn
not_found = Exn.http 404 "Bill not found"

-- `if bill is None or bill.user_id != user.id: raise ...`
unfoldable pub check_owner : ℕ → Option Bill → Action Bill
check_owner user_id none = raise not_found
check_owner user_id (some b) = if b.user_id == user_id then pure b else raise not_found

-- `session.refresh(row)`: the row as the database has it; a row that was rolled back is an error.
unfoldable pub refresh : Option Bill → Action Bill
refresh none = raise Exn.invalid_request
refresh (some b) = pure b

-- `create_bill`, without the session.
unfoldable pub create_bill_body : ℕ → BillCreateRequest → Action BillActionResponse
unfolding refresh
create_bill_body user_id payload = do
  bill_id ← insert_bill (record {
    user_id = user_id;
    vendor_name = payload.vendor_name;
    account_number = payload.account_number;
    bank_code = payload.bank_code;
    bank_name = payload.bank_name;
    amount = payload.amount;
    currency = "NGN";
    due_date = payload.due_date;
    status = BillStatus.pending;
    is_recurring = false;
    recurrence_interval = none;
    next_recurrence_date = none;
    retry_count = 0;
    max_retries = 3;
  })
  audit_bill_created user_id bill_id payload.amount "paystack"
  commit
  row ← gets (λ d. get bill_id d.bills)
  bill ← refresh row
  pure (record {
    bill_id = bill_id;
    bill = bill;
    message = "Bill created.";
    decision = none;
    decision_reason = none;
  })

unfoldable pub create_bill : ℕ → BillCreateRequest → Action BillActionResponse
unfolding create_bill_body
create_bill user_id payload = with_session (create_bill_body user_id payload)

-- `order_by(Bill.due_date.asc())`
unfoldable pub insert_by_due : ℕ × Bill → Table Bill → Table Bill
insert_by_due (k, b) [] = (k, b) ∷ []
insert_by_due (k, b) ((j, c) ∷ t) =
    if ltb c.due_date b.due_date then (j, c) ∷ insert_by_due (k, b) t else (k, b) ∷ (j, c) ∷ t

unfoldable pub order_by_due : Table Bill → Table Bill
unfolding insert_by_due
order_by_due [] = []
order_by_due (e ∷ t) = insert_by_due e (order_by_due t)

-- The `where` clauses of `list_bills`.
abbrev pub is_listed : ℕ → Option String → Bill → Bool
is_listed user_id status_filter b =
    b.user_id == user_id
    && (not (truthy status_filter)
        || str_eq (bill_status_value b.status) (text_or status_filter ""))

-- `list_bills`
unfoldable pub list_bills : ℕ → Option String → Action (Table Bill)
unfolding order_by_due
list_bills user_id status_filter =
    with_session (gets (λ d. order_by_due (select (is_listed user_id status_filter) d.bills)))

unfoldable pub get_bill : ℕ → ℕ → Action Bill
unfolding check_owner
get_bill user_id bill_id =
    with_session (do row ← gets (λ d. get bill_id d.bills); check_owner user_id row)

-- The `try` of `pay_bill`: the payout is committed, or rolled back and the error passed on, with a
-- 502 in place of what is no `HTTPException`.
unfoldable pub finish_payout : Result PayoutResult × World → Result PayoutResult × World
finish_payout (ok r, w) = (commit >> pure r) w
finish_payout (err (Exn.http code detail), w) = (rollback >> raise (Exn.http code detail)) w
finish_payout (err e, w) =
    (rollback >> raise (Exn.http 502 "Payment provider error. Please try again later.")) w

-- The response of `pay_bill`, from the row as it is after the commit.
unfoldable pub pay_response : ℕ → PayoutResult → Option Bill → Action BillActionResponse
unfolding refresh
pay_response bill_id result row = do
  bill ← refresh row
  pure (record {
    bill_id = bill_id;
    bill = bill;
    message = result.message;
    decision = some Decision.pay_now;
    decision_reason = none;
  })

-- What `pay_bill` does once the payout has ended.
unfoldable pub respond : ℕ → Result PayoutResult × World → Result BillActionResponse × World
unfolding pay_response
respond bill_id (ok result, w) = pay_response bill_id result (get bill_id w.work.bills) w
respond bill_id (err e, w) = raise e w

-- `pay_bill`
unfoldable pub pay_bill : PaymentProvider → ℕ → ℕ → ℕ → String → Action BillActionResponse
unfolding check_owner finish_payout respond
pay_bill provider fee user_id bill_id hex = with_session (do
  row ← gets (λ d. get bill_id d.bills)
  _ ← check_owner user_id row
  (λ w. respond bill_id (finish_payout (execute_payout provider fee bill_id hex w))))

abbrev pub cannot_cancel : BillStatus → Exn
cannot_cancel status =
    Exn.http 409 ("Cannot cancel a bill in status '" ++ bill_status_value status ++ "'.")

-- `cancel_bill`
unfoldable pub cancel_bill : ℕ → ℕ → Action BillActionResponse
unfolding check_owner refresh
cancel_bill user_id bill_id = with_session (do
  row ← gets (λ d. get bill_id d.bills)
  bill ← check_owner user_id row
  raise_if
      (bill_status_eq bill.status BillStatus.paid
        || bill_status_eq bill.status BillStatus.processing)
      (cannot_cancel bill.status)
  modify (put_bill bill_id (record bill { status = BillStatus.cancelled }))
  commit
  row' ← gets (λ d. get bill_id d.bills)
  bill' ← refresh row'
  pure (record {
    bill_id = bill_id;
    bill = bill';
    message = "Bill cancelled.";
    decision = none;
    decision_reason = none;
  }))
