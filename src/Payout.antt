-- ===== src/Payout.antt =====
-- app/services/payout.py. `execute_payout` is written as its numbered steps, each taking what the
-- steps before it have loaded; a step ends in a raise or in the next step. `Payout` holds the rows
-- that the steps share. Log lines are left out, and with them the comparison of the vendor's name
-- with the resolved one, which only logs.
pub mod Charge
pub mod Execute
pub mod Confirm
pub mod Recurrence
pub mod Outcome
pub mod Whole
pub mod Reconcile
pub mod Cycle
use autopay.Base.{ℕ, Bool, String, if◌then◌else◌, leb, ◌+◌}
use autopay.Models.{Bill, BillStatus}

-- `PayoutResult`
pub record PayoutResult : Type 0 where
  pub success : Bool
  pub message : String
  pub reference : String
  pub new_balance : ℕ

-- A failed attempt is counted; the bill waits for the next one, until the attempts are used up.
-- (The same lines stand in `_refund_on_failure` and in `confirm_payout`.)
unfoldable pub count_failure : Bill → Bill
count_failure b =
    let n = b.retry_count + 1 in
    record b {
      retry_count = n;
      status = if leb b.max_retries n then BillStatus.failed else BillStatus.scheduled;
    }
