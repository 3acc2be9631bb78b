-- ===== src/Agent.antt =====
-- app/agents: the decision rule (`nodes.py`, `state.py`). The graph of `graphs.py` has the rule as
-- its only node, and `run_agent` passes the amounts through as texts that read back as they were.
pub mod Rule
use autopay.Base.{ℕ, ◌+◌, ◌-◌, Bool, String, ◌++◌, ltb, if◌then◌else◌, decimal, show_money, suc}
use autopay.Base.Int.{ℤ, pos, negsuc, leb_ℤ}

pub data Decision : Type 0 where
  pay_now schedule hold : Decision

pub record DecisionResult : Type 0 where
  pub decision : Decision
  pub reason : String

show_days : ℤ → String
show_days (pos n) = decimal n
show_days (negsuc n) = "-" ++ decimal (suc n)

-- `decide`
unfoldable pub decide : ℕ → ℕ → ℕ → ℤ → DecisionResult
unfolding show_days
decide user_balance bill_amount fee days_until_due =
    let total = bill_amount + fee in
    if ltb user_balance total
    then record {
      decision = Decision.hold;
      reason =
          "Insufficient balance: need ₦"
          ++ show_money total
          ++ ", have ₦"
          ++ show_money user_balance
          ++ " (shortfall ₦"
          ++ show_money (total - user_balance)
          ++ "). Hold until top-up.";
    }
    else if leb_ℤ days_until_due (pos 3)
    then record {
      decision = Decision.pay_now;
      reason =
          "Due in "
          ++ show_days days_until_due
          ++ " day(s) (≤3d cutoff). Balance is sufficient (₦"
          ++ show_money user_balance
          ++ ").";
    }
    else record {
      decision = Decision.schedule;
      reason =
          "Due in "
          ++ show_days days_until_due
          ++ " day(s) (>3d cutoff). Schedule and re-evaluate closer to the due date.";
    }

-- `run_agent`: the graph's one node, on the state that `run_agent` builds.
unfoldable pub run_agent : ℕ → ℕ → ℕ → ℤ → DecisionResult
unfolding decide
run_agent user_balance bill_amount fee days_until_due =
    decide user_balance bill_amount fee days_until_due
