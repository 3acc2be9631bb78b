-- ===== src/Tests/Histories.antt =====
-- A history of requests on the test data, and the theorems about histories on it.
use autopay.Base.{◌≡◌, refl, none, some, [], ◌∷◌, arith, get, inl}
use autopay.Models.{Bill, BillStatus}
use autopay.Session.{ok, World}
use autopay.Payout.Charge.{new_reference}
use autopay.Webhooks.{WebhookEvent, nomba_webhook}
use autopay.Bills.{pay_bill}
use autopay.Scheduler.{process_recurring_bills}
use autopay.Requests.Keys.{Consistent}
use autopay.Requests.Sent.{Traced}
use autopay.Requests.Reached.{Step, Reaches, reaches-Traced}
use autopay.Requests.Lifecycle.{Balanced, Follow}
use autopay.Requests.Refined.{Reaches-Balanced, Reaches-Follow, paid_or_cancelled_stays}
use autopay.Tests.Data.{willing, power_bill, db, start, fee}

abbrev failure : WebhookEvent
failure = record {
  event_type = "transfer.failed";
  provider_reference = new_reference 7 "a1b2";
  event_id = "ev-1";
  amount_kobo = none;
}

-- A payment, its failure, and a run of the recurrence job.
abbrev later : World
later =
    process_recurring_bills 100
      (nomba_webhook "nomba" (ok failure) (pay_bill willing fee 1 7 "a1b2" start).1).1

history : Reaches start later
history =
    Reaches.then
      (Reaches.then (Reaches.then Reaches.here (Step.pay willing fee 1 7 "a1b2"))
        (Step.webhook "nomba" (ok failure)))
      (Step.recurring 100)

start-Consistent : Consistent start
start-Consistent = record {
  bills = ((omega arith, (omega arith, tt)), (refl, (refl, tt)));
  transactions = (tt, tt);
}

start-Traced : Traced start
start-Traced = record { known = tt; distinct = tt }

reaches-Traced_example : Traced later
reaches-Traced_example = reaches-Traced history start-Consistent start-Traced

start-Balanced : Balanced start.committed.bills start.committed.transactions
start-Balanced k = omega arith

Reaches-Balanced_example : Balanced later.committed.bills later.committed.transactions
Reaches-Balanced_example = Reaches-Balanced history start-Consistent start-Balanced

Reaches-Follow_example :
    Follow later.committed.bills (pay_bill willing fee 1 7 "c3d4" later).1.committed.bills
Reaches-Follow_example =
    Reaches-Follow history (Step.pay willing fee 1 7 "c3d4") start-Consistent start-Balanced

-- The bill 7 has been paid.
abbrev settled : World
settled = record start {
  committed = record db { bills = (7, record power_bill { status = BillStatus.paid }) ∷ [] };
}

abbrev settled_later : World
settled_later = (pay_bill willing fee 1 7 "a1b2" settled).1

settled-Consistent : Consistent settled
settled-Consistent = record { bills = ((omega arith, tt), (refl, tt)); transactions = (tt, tt) }

settled-Balanced : Balanced settled.committed.bills settled.committed.transactions
settled-Balanced k = omega arith

paid_or_cancelled_stays_example :
    (b' : Bill) × (get 7 settled_later.committed.bills ≡ some b')
    × (b'.status ≡ BillStatus.paid)
    × (b'.amount ≡ 40000)
    × (b'.user_id ≡ 1)
paid_or_cancelled_stays_example =
    paid_or_cancelled_stays (Reaches.then Reaches.here (Step.pay willing fee 1 7 "a1b2"))
      settled-Consistent settled-Balanced 7 (record power_bill { status = BillStatus.paid }) refl
      (inl refl)
