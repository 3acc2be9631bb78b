-- ===== src/Tests/Uploads.antt =====
-- Runs of `upload_bill`, and its theorem at a concrete input.
use autopay.Base.{◌≡◌, refl, arith, true, none, some}
use autopay.Base.Int.{days_between}
use autopay.Agent.{run_agent}
use autopay.Session.{err, Exn}
use autopay.Payout.Execute.{check_status, check_balance, execute_payout}
use autopay.Bills.Upload.{Extraction, upload_bill}
use autopay.Bills.Uploaded.{Uploaded, upload_bill_outcome}
use autopay.Tests.Data.{willing, broke, ada, start, fee}

-- A bill that is due at once.
abbrev water : Extraction
water = Extraction.extracted (record {
  vendor_name = "Lagos Water";
  amount = record { unscaled = 2000; places = 1 };
  currency = "NGN";
  due_date = 0;
  account_number = some "0123456789";
  bank_code = some "058";
  bank_name = none;
})

upload_bill_outcome_example :
    Uploaded willing fee "a1b2" 0 1 ada start water
      (upload_bill willing fee "a1b2" 0 1 ada true none water start)
upload_bill_outcome_example =
    upload_bill_outcome willing fee "a1b2" 0 1 ada start true none water (omega arith)
      (omega arith, (omega arith, tt))

-- The payout is refused, and the answer is an error without the bill.
upload_refused :
    let (r, w) = upload_bill broke fee "a1b2" 0 1 ada true none water start in
    (r ≡ err Exn.invalid_request) × (w.committed ≡ start.committed)
unfolding upload_bill execute_payout check_status check_balance run_agent days_between
    autopay.Bills.Upload.kobo_of autopay.Money.pow10
upload_refused = (refl, refl)
