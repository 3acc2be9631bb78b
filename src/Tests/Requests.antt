-- ===== src/Tests/Requests.antt =====
-- Runs of the web handlers, and their theorems at concrete inputs.
use autopay.Base.{ℕ, Table, ◌-◌, ◌+◌, ◌≤◌, ◌≡◌, ◌⊎◌, inl, refl, none, some, get, put}
use autopay.Models.{User, Bill, BillStatus}
use autopay.Session.{ok, err, Exn, World}
use autopay.Payout.{count_failure}
use autopay.Payout.Charge.{new_reference}
use autopay.Payout.Execute.{check_balance, check_status, execute_payout}
use autopay.Bills.{pay_bill, cancel_bill, list_bills, is_listed}
use autopay.Bills.Listed.{IsAscending, keep, list_bills_outcome}
use autopay.Bills.Pay.{Settled, pay_bill_settles}
use autopay.Bills.Guards.{Cancelled, pay_bill_twice, cancel_bill_outcome}
use autopay.Webhooks.{WebhookEvent, nomba_webhook}
use autopay.Webhooks.Replay.{Twice, nomba_webhook_twice}
use autopay.Webhooks.Credit.{Credited, Ignored, charge_success_outcome}
use autopay.Webhooks.Transfers.{failed_transfer_restores, successful_transfer_pays}
use autopay.Tests.Data.{willing, db, start, fee}

abbrev paid_world : World
paid_world = (pay_bill willing fee 1 7 "a1b2" start).1

pay_bill_settles_example :
    Settled willing fee 1 7 "a1b2" start (pay_bill willing fee 1 7 "a1b2" start)
pay_bill_settles_example = pay_bill_settles willing fee 1 7 "a1b2" start

pay_bill_twice_example :
    let (r, w'') = pay_bill willing fee 1 7 "c3d4" paid_world in
    (r ≡ err (Exn.http 409 "Bill is already being processed."))
    × (w''.committed ≡ paid_world.committed)
    × (w''.asked ≡ paid_world.asked)
    × (w''.sent ≡ paid_world.sent)
unfolding pay_bill execute_payout check_status check_balance
pay_bill_twice_example = pay_bill_twice willing fee 1 7 "a1b2" start willing fee "c3d4" refl

cancel_bill_outcome_example : Cancelled 1 7 start (cancel_bill 1 7 start)
cancel_bill_outcome_example = cancel_bill_outcome 1 7 start

abbrev transfer_failed : WebhookEvent
transfer_failed = record {
  event_type = "transfer.failed";
  provider_reference = new_reference 7 "a1b2";
  event_id = "ev-1";
  amount_kobo = none;
}

nomba_webhook_twice_example : Twice "nomba" transfer_failed paid_world
nomba_webhook_twice_example = nomba_webhook_twice "nomba" transfer_failed paid_world

abbrev topped_up : WebhookEvent
topped_up = record {
  event_type = "charge.success";
  provider_reference = "t-1";
  event_id = "ev-2";
  amount_kobo = some 2500;
}

charge_success_outcome_example : Credited "nomba" topped_up start ⊎ Ignored "nomba" topped_up start
charge_success_outcome_example = charge_success_outcome "nomba" topped_up start refl refl

failed_transfer_restores_example :
    let w = (nomba_webhook "nomba" (ok transfer_failed) paid_world).1 in
    (w.committed.users ≡ start.committed.users)
    × ((bill : Bill) × (get 7 start.committed.bills ≡ some bill)
        × (get 7 w.committed.bills
            ≡ some (count_failure (record bill { status = BillStatus.processing }))))
unfolding pay_bill execute_payout check_status check_balance
failed_transfer_restores_example =
    failed_transfer_restores willing fee 1 7 "a1b2" start transfer_failed tt refl refl refl
      (inl refl)

abbrev transfer_done : WebhookEvent
transfer_done = record transfer_failed { event_type = "transfer.success" }

successful_transfer_pays_example :
    let w = (nomba_webhook "nomba" (ok transfer_done) paid_world).1 in
    (bill : Bill) × (user : User) × (get 7 start.committed.bills ≡ some bill)
    × (get 1 start.committed.users ≡ some user)
    × (bill.amount + fee ≤ user.balance)
    × (get 7 w.committed.bills ≡ some (record bill { status = BillStatus.paid }))
    × (w.committed.users
        ≡ put 1
            (record user { balance = user.balance - (bill.amount + fee) })
            start.committed.users)
unfolding pay_bill execute_payout check_status check_balance
successful_transfer_pays_example =
    successful_transfer_pays willing fee 1 7 "a1b2" start transfer_done tt refl refl refl refl

list_bills_outcome_example :
    (rows : Table Bill) × (list_bills 1 (some "scheduled") start
      ≡ (ok rows, record start { work = db }))
    × IsAscending rows
    × ((i : ℕ) → get i rows ≡ keep (is_listed 1 (some "scheduled")) (get i db.bills))
list_bills_outcome_example = list_bills_outcome 1 (some "scheduled") start (refl, (refl, tt))
