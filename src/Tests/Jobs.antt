-- ===== src/Tests/Jobs.antt =====
-- Runs of the scheduler's jobs, and their theorems at concrete inputs.
use autopay.Base.{◌+◌, ◌*◌, ◌≡◌, refl, true, some, arith, get, ◌&&◌, if◌then◌else◌}
use autopay.Base.Int.{day}
use autopay.Models.{BillStatus}
use autopay.Payout.Recurrence.{next_of}
use autopay.Scheduler.{is_due, is_recurrence_due, spawn, process_scheduled_bills}
use autopay.Scheduler.Reevaluate.{SameMoney, is_covered, process_scheduled_bills_outcome}
use autopay.Scheduler.Recurring.{moved, recurrence_repeats}
use autopay.Tests.Data.{ada, rent, start, fee}

process_scheduled_bills_outcome_example :
    let w = process_scheduled_bills fee 5 start in
    (get 8 w.committed.bills
      ≡ some (
          if is_due 5 rent && is_covered fee (some ada) rent
          then record rent { status = BillStatus.pending }
          else rent))
    × SameMoney start w
process_scheduled_bills_outcome_example =
    process_scheduled_bills_outcome fee 5 start (refl, (refl, tt)) 8 rent refl

recurrence_repeats_example :
    let w₂ = spawn 8 (spawn 8 start) in
    (get 9 w₂.committed.bills ≡ some (next_of rent))
    × (get (9 + 1) w₂.committed.bills ≡ some (next_of rent))
    × (get 8 w₂.committed.bills ≡ some (moved rent))
    × (is_recurrence_due (31 * day) (moved rent) ≡ true)
recurrence_repeats_example =
    recurrence_repeats (31 * day) 8 rent start (omega arith) refl (refl, refl) (omega arith)
