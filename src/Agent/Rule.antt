-- ===== src/Agent/Rule.antt =====
-- The decision rule against a description by moments: `days_until_due` is rounded down.
use autopay.Base.{ℕ, ◌+◌, ◌*◌, ◌≤◌, ◌<◌, ◌≡◌, ◌↔◌, arith}
use autopay.Base.Int.{days_between, day}
use autopay.Agent.{Decision, decide}

-- The agent pays now exactly when the balance covers amount and fee and the bill is due within
-- less than four days, or is overdue; it holds exactly when the balance does not cover them; it
-- schedules exactly when the balance covers them and the bill is due in four days or later.
pub decide_cases :
    (balance amount fee due now : ℕ)
    → let d = (decide balance amount fee (days_between due now)).decision in
      ((d ≡ Decision.pay_now) ↔ ((amount + fee ≤ balance) × (due < now + 4 * day)))
      × ((d ≡ Decision.hold) ↔ (balance < amount + fee))
      × ((d ≡ Decision.schedule) ↔ ((amount + fee ≤ balance) × (now + 4 * day ≤ due)))
unfolding decide days_between
decide_cases balance amount fee due now = (
  (λ h. ground arith, λ h. ground arith),
  (λ h. ground arith, λ h. ground arith),
  (λ h. ground arith, λ h. ground arith),
)
