-- ===== src/Scheduler.antt =====
-- app/core/scheduler.py: the bodies of the two jobs. Each opens one session to find its bills and
-- one for each bill; the moment `now` is read once, as in the code. The set-up of APScheduler is
-- left out.
pub mod Reevaluate
pub mod Recurring
use autopay.Base.{
  ℕ, Bool, true, false, not, ◌&&◌, Option, none, some, List, [], ◌∷◌, leb, if◌then◌else◌, get,
  select, Table,
}
use autopay.Base.Int.{days_between}
use autopay.Models.{
  User, Bill, BillStatus, bill_status_eq, AuditActor, AuditEventType, AuditEntityType, Json,
}
use autopay.Session.{Action, World, pure, gets, ◌>>=◌, ◌>>◌, modify, commit, put_bill, with_session}
use autopay.Audit.{write_audit}
use autopay.Agent.{Decision, run_agent}
use autopay.Payout.Recurrence.{schedule_recurrence}

-- `[b.id for b in rows]`
abbrev pub keys {ℓ} : {V : Type ℓ} → Table V → List ℕ
keys [] = []
keys ((k, _) ∷ t) = k ∷ keys t

abbrev is_pay_now : Decision → Bool
is_pay_now Decision.pay_now = true
is_pay_now _ = false

-- The scheduled bills that are due.
abbrev pub is_due : ℕ → Bill → Bool
is_due now b = bill_status_eq b.status BillStatus.scheduled && leb b.due_date now

module _ (fee now : ℕ) where
  -- The agent's answer for a bill and its user.
  abbrev pub pays_now : User → Bill → Bool
  pays_now user b =
      is_pay_now (run_agent user.balance b.amount fee (days_between b.due_date now)).decision

  -- From the bill's user on: a bill that the agent would pay is handed to the payout as pending.
  unfoldable pub act_on : ℕ → Bill → Option User → Action (Unit {0})
  act_on bill_id b none = pure tt
  act_on bill_id b (some user) =
      if pays_now user b
      then modify (put_bill bill_id (record b { status = BillStatus.pending })) >> commit
      else pure tt

  -- From the bill on: one that is gone or no longer scheduled is skipped.
  unfoldable pub reconsider : ℕ → Option Bill → Action (Unit {0})
  unfolding act_on
  reconsider bill_id none = pure tt
  reconsider bill_id (some b) =
      if bill_status_eq b.status BillStatus.scheduled
      then (do user ← gets (λ d. get b.user_id d.users); act_on bill_id b user)
      else pure tt

  -- The session of one bill.
  unfoldable pub reevaluate : ℕ → World → World
  unfolding reconsider
  reevaluate bill_id w =
      (with_session (do b ← gets (λ d. get bill_id d.bills); reconsider bill_id b) w).1

  unfoldable pub reevaluate_all : List ℕ → World → World
  reevaluate_all [] w = w
  reevaluate_all (k ∷ ks) w = reevaluate_all ks (reevaluate k w)

  -- `_process_scheduled_bills`
  unfoldable pub process_scheduled_bills : World → World
  process_scheduled_bills w = reevaluate_all (keys (select (is_due now) w.committed.bills)) w

-- `next_recurrence_date != None and next_recurrence_date <= now`
abbrev pub has_come : Option ℕ → ℕ → Bool
has_come none now = false
has_come (some date) now = leb date now

-- The recurring bills whose next date has come.
abbrev pub is_recurrence_due : ℕ → Bill → Bool
is_recurrence_due now b = b.is_recurring && has_come b.next_recurrence_date now

-- The audit row and the commit that follow a new bill.
unfoldable pub report_recurrence : ℕ → Bill → Option ℕ → Action (Unit {0})
report_recurrence bill_id b none = pure tt
report_recurrence bill_id b (some next_id) = do
  write_audit AuditActor.scheduler AuditEventType.bill_recurrence_created (some b.user_id)
      (some AuditEntityType.bill) (some next_id) none none
      (some (("parent_bill_id", Json.num bill_id) ∷ ("next_bill_id", Json.num next_id) ∷ [])) none
  commit

unfoldable pub recur : ℕ → Option Bill → Action (Unit {0})
unfolding report_recurrence
recur bill_id none = pure tt
recur bill_id (some b) = do
  next_id ← schedule_recurrence bill_id b
  report_recurrence bill_id b next_id

-- The session of one recurring bill.
unfoldable pub spawn : ℕ → World → World
unfolding recur
spawn bill_id w = (with_session (do b ← gets (λ d. get bill_id d.bills); recur bill_id b) w).1

unfoldable pub spawn_all : List ℕ → World → World
spawn_all [] w = w
spawn_all (k ∷ ks) w = spawn_all ks (spawn k w)

-- `_process_recurring_bills`
unfoldable pub process_recurring_bills : ℕ → World → World
process_recurring_bills now w =
    spawn_all (keys (select (is_recurrence_due now) w.committed.bills)) w
