-- ===== src/Tests/Payouts.antt =====
-- Runs of the payout, and its theorems at concrete inputs.
use autopay.Base.{◌-◌, ◌+◌, ◌*◌, ◌<◌, ◌⊎◌, ◌≤◌, ◌≡◌, refl, true, false, none, some, get}
use autopay.Models.{BillStatus}
use autopay.Money.{Decimal, ngn_to_kobo, pow10, ngn_to_kobo_bounds}
use autopay.Session.{World}
use autopay.Payout.Charge.{new_reference}
use autopay.Payout.Execute.{check_balance, check_status, execute_payout}
use autopay.Payout.Confirm.{confirm_payout}
use autopay.Payout.Reconcile.{confirm_payout_idempotent}
use autopay.Tests.Data.{willing, broke, ada, power_bill, start, fee}

abbrev paid_world : World
paid_world = (execute_payout willing fee 7 "a1b2" start).1

-- The wallet after a payout, and the bill after one that the gateway refuses.
run-willing : get 1 paid_world.work.users ≡ some (record ada { balance = 55000 })
unfolding execute_payout check_status check_balance
run-willing = refl

run-broke :
    get 7 (execute_payout broke fee 7 "a1b2" start).1.work.bills
    ≡ some (record power_bill { status = BillStatus.scheduled; retry_count = 1 })
unfolding execute_payout check_status check_balance
run-broke = refl

confirm_payout_idempotent_example :
    let w = (confirm_payout (new_reference 7 "a1b2") true none paid_world).1 in
    (confirm_payout (new_reference 7 "a1b2") false none w).1 ≡ w
unfolding execute_payout check_status check_balance
confirm_payout_idempotent_example =
    confirm_payout_idempotent (new_reference 7 "a1b2") true false none none paid_world (refl, tt)

-- 12.345 naira.
abbrev odd_amount : Decimal
odd_amount = record { unscaled = 12345; places = 3 }

run-ngn_to_kobo : ngn_to_kobo odd_amount ≡ 1234
unfolding ngn_to_kobo
run-ngn_to_kobo = refl

ngn_to_kobo_bounds_example :
    let k = ngn_to_kobo odd_amount in
    ((odd_amount.places ≤ 2) × (k ≡ odd_amount.unscaled * pow10 (2 - odd_amount.places)))
    ⊎ ((2 < odd_amount.places)
        × (2 * (pow10 (odd_amount.places - 2) * k)
            ≤ 2 * odd_amount.unscaled + pow10 (odd_amount.places - 2))
        × (2 * odd_amount.unscaled
            ≤ 2 * (pow10 (odd_amount.places - 2) * k) + pow10 (odd_amount.places - 2)))
ngn_to_kobo_bounds_example = ngn_to_kobo_bounds odd_amount
