-- ===== src/Nomba/Amounts.antt =====
-- The amounts on Nomba's wire: naira as a decimal, kobo as an integer inside.
use Prim.Native.Nat.{◌<◌}
use native.Mathlib.Nat.{mul-div-le, lt-mul-div-succ, mul-div_cancel}
use autopay.Base.{◌+◌, ◌*◌, ◌≤◌, ◌≡◌, ap, some, arith}
use autopay.Money.{Decimal, pow10, pow10_pos}
use autopay.Session.{ok, Transfer}
use autopay.Nomba.Values.{get_field}
use autopay.Nomba.Operations.{transfer_body}
use autopay.Nomba.Events.{Libraries, truncated_kobo, amount_of}

-- The kobo of a webhook's amount: never more than the amount, and less than one kobo below it, since
-- a part of a kobo is cut off.
pub truncated_kobo_bounds :
    (d : Decimal)
    → (pow10 d.places * truncated_kobo d ≤ d.unscaled * 100)
      × (d.unscaled * 100 < pow10 d.places * (truncated_kobo d + 1))
truncated_kobo_bounds d = (
  mul-div-le (d.unscaled * 100) (pow10 d.places),
  lt-mul-div-succ (d.unscaled * 100) (pow10_pos d.places),
)

-- The amount in the body of a transfer, read as a webhook's amount is read, is the transfer's amount
-- in kobo.
pub transfer_amount_read :
    (libraries : Libraries) (t : Transfer)
    → amount_of libraries (get_field "amount" (transfer_body t)) ≡ ok (some t.amount_kobo)
unfolding transfer_body amount_of pow10
transfer_amount_read libraries t =
    ap (λ k. ok (some k)) (mul-div_cancel t.amount_kobo (omega arith))
