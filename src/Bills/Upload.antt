-- ===== src/Bills/Upload.antt =====
-- app/api/bills.py: `upload_bill`. What the loader extracts from the upload is an argument, with the
-- amount as the decimal that `str` prints and the due date as `parse_bill_due_date` reads it.
use autopay.Base.{
  ℕ, ◌*◌, ◌-◌, ◌≤◌, Bool, false, not, ◌&&◌, ◌||◌, Option, none, some, String, ◌++◌, str_eq, truthy,
  text_or, leb, if◌then◌else◌, get,
}
use autopay.Base.Int.{days_between}
use autopay.Money.{Decimal, pow10}
use autopay.Models.{User, Bill, BillStatus}
use autopay.Session.{
  Exn, Result, ok, err, Action, World, pure, raise, gets, ◌>>=◌, ◌>>◌, modify, commit, rollback,
  put_bill, insert_bill, with_session,
}
use autopay.Audit.{audit_bill_created}
use autopay.Agent.{Decision, DecisionResult, run_agent}
use autopay.Provider.{PaymentProvider}
use autopay.Payout.{PayoutResult}
use autopay.Payout.Execute.{execute_payout}
use autopay.Bills.{BillActionResponse, refresh}

-- `BillExtractionResult`, as far as the handler reads it.
pub record BillExtractionResult : Type 0 where
  pub vendor_name : String
  pub amount : Decimal
  pub currency : String
  pub due_date : ℕ
  pub account_number : Option String
  pub bank_code : Option String
  pub bank_name : Option String

-- What `loader.extract()` returns, or the text of the exception that it raises.
pub data Extraction : Type 0 where
  extracted : BillExtractionResult → Extraction
  failed : String → Extraction

-- An amount of whole kobo. One with more places is rounded by the column and not by the payout, which
-- takes it from the row in memory; of that the definitions here say nothing.
abbrev pub IsWhole : Extraction → Type 0
IsWhole (Extraction.extracted x) = x.amount.places ≤ 2
IsWhole (Extraction.failed message) = Unit

-- `Decimal(str(extracted.amount))`, of an amount of whole kobo.
unfoldable pub kobo_of : Decimal → ℕ
kobo_of d = d.unscaled * pow10 (2 - d.places)

-- The new row of step 2.
abbrev pub bill_of : ℕ → BillExtractionResult → Bill
bill_of user_id x = record {
  user_id = user_id;
  vendor_name = x.vendor_name;
  account_number = x.account_number;
  bank_code = x.bank_code;
  bank_name = x.bank_name;
  amount = kobo_of x.amount;
  currency = text_or (some x.currency) "NGN";
  due_date = x.due_date;
  status = BillStatus.pending;
  is_recurring = false;
  recurrence_interval = none;
  next_recurrence_date = none;
  retry_count = 0;
  max_retries = 3;
}

-- Step 4, `try`: the payout is committed, or rolled back after an `HTTPException`; another exception
-- is passed on.
unfoldable pub settle_upload : Result PayoutResult × World → Result String × World
settle_upload (ok result, w) = (commit >> pure result.message) w
settle_upload (err (Exn.http code detail), w) =
    (rollback >> pure "Bill created; payout deferred (see decision reason).") w
settle_upload (err e, w) = raise e w

module _ (provider : PaymentProvider) (fee : ℕ) (hex : String) where
  -- Step 4: the message, after what the decision asks for.
  unfoldable pub act : ℕ → Bill → Decision → Action String
  unfolding settle_upload
  act bill_id bill Decision.pay_now = λ w. settle_upload (execute_payout provider fee bill_id hex w)
  act bill_id bill Decision.schedule = do
    modify (put_bill bill_id (record bill { status = BillStatus.scheduled }))
    pure "Bill scheduled for later evaluation."
  act bill_id bill Decision.hold = pure "Bill created."

  -- The end of the handler.
  unfoldable pub answer : ℕ → DecisionResult → String → Action BillActionResponse
  unfolding refresh
  answer bill_id decision message = do
    commit
    row ← gets (λ d. get bill_id d.bills)
    bill ← refresh row
    pure (record {
      bill_id = bill_id;
      bill = bill;
      message = message;
      decision = some decision.decision;
      decision_reason = some decision.reason;
    })

  module _ (now user_id : ℕ) (user : User) where
    -- Step 3.
    abbrev pub decision_of : Bill → DecisionResult
    decision_of bill = run_agent user.balance bill.amount fee (days_between bill.due_date now)

    -- Steps 2 to 4.
    unfoldable pub store_and_act : BillExtractionResult → Action BillActionResponse
    unfolding act answer
    store_and_act x = do
      bill_id ← insert_bill (bill_of user_id x)
      audit_bill_created user_id bill_id (kobo_of x.amount) "paystack"
      message ← act bill_id (bill_of user_id x) (decision_of (bill_of user_id x)).decision
      answer bill_id (decision_of (bill_of user_id x)) message

    -- Step 1, from what the loader made of the upload.
    unfoldable pub use_extraction : Extraction → Action BillActionResponse
    unfolding store_and_act
    use_extraction (Extraction.failed message) =
        raise (Exn.http 422 ("Failed to extract bill: " ++ message))
    use_extraction (Extraction.extracted x) =
        if str_eq x.vendor_name "" || leb x.amount.unscaled 0
        then raise (
            Exn.http 422 (
              "Could not determine vendor and amount. "
              ++ "Provide 'request_bill' text or upload a clearer file."))
        else store_and_act x

    -- `upload_bill`, from whether there is a file.
    unfoldable pub upload_bill : Bool → Option String → Extraction → Action BillActionResponse
    unfolding use_extraction
    upload_bill has_file request_bill extraction = with_session (
        if not has_file && not (truthy request_bill)
        then raise (Exn.http 400 "Provide either a file upload or a 'request_bill' text field.")
        else use_extraction extraction)
