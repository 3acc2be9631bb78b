-- ===== src/Payout/Charge.antt =====
-- app/services/payout.py: the last steps of `execute_payout` (7 and 8), and `_refund_on_failure`.
use autopay.Base.{
  ℕ, ◌-◌, Bool, true, false, Option, none, some, ◌∷◌, String, ◌++◌, if◌then◌else◌, text_or, str_eq,
  decimal,
}
use autopay.Models.{User, Bill, Transaction, TransactionStatus}
use autopay.Session.{
  PaymentErrorKind, Exn, Result, ok, err, Transfer, Action, pure, raise, ◌>>◌, modify, put_user,
  put_bill, put_transaction,
}
use autopay.Audit.{audit_payout_failed}
use autopay.Money.{ngn_to_kobo, numeric}
use autopay.Provider.{ResolvedAccount, TransferResult}
use autopay.Payout.{PayoutResult, count_failure}

-- The rows that a payout works on: those loaded and locked, and the debit that it has inserted.
pub record Payout : Type 0 where
  pub bill_id : ℕ
  pub bill : Bill
  pub user : User
  pub debit_id : ℕ
  pub debit : Transaction
  pub reference : String

-- `_new_reference`; the twelve digits of the fresh UUID are an argument.
unfoldable pub new_reference : ℕ → String → String
new_reference bill_id hex = "autopay_" ++ decimal bill_id ++ "_" ++ hex

abbrev pub opt_str_eq : Option String → String → Bool
opt_str_eq none r = false
opt_str_eq (some q) r = str_eq q r

-- `Transaction.provider_reference == reference`
abbrev pub has_reference : String → Transaction → Bool
has_reference reference t = opt_str_eq t.provider_reference reference

-- `_refund_on_failure`
unfoldable pub refund_on_failure : Payout → String → Action (Unit {0})
unfolding count_failure
refund_on_failure p reason = do
  let bill = count_failure p.bill
  modify (
      put_transaction p.debit_id
        (record p.debit { status = TransactionStatus.failed; failure_reason = some reason }))
  modify (put_bill p.bill_id bill)
  audit_payout_failed p.bill.user_id p.bill_id reason bill.retry_count

-- Step 8: the wallet is charged.
unfoldable pub charge : ℕ → Payout → Action PayoutResult
charge total_charge p = do
  let balance = p.user.balance - total_charge
  modify (put_user p.bill.user_id (record p.user { balance = balance }))
  modify (put_transaction p.debit_id (record p.debit { status = TransactionStatus.processing }))
  pure (record {
    success = true;
    message = "Transfer initiated; awaiting provider confirmation.";
    reference = p.reference;
    new_balance = balance;
  })

abbrev record_asked : Transfer → Action (Unit {0})
record_asked t w = (ok tt, record w { asked = t ∷ w.asked })

abbrev record_sent : Transfer → Action (Unit {0})
record_sent t w = (ok tt, record w { sent = t ∷ w.sent })

abbrev pub is_insufficient : PaymentErrorKind → Bool
is_insufficient PaymentErrorKind.insufficient_funds = true
is_insufficient _ = false

abbrev pub is_invalid_account : PaymentErrorKind → Bool
is_invalid_account PaymentErrorKind.invalid_account = true
is_invalid_account _ = false

abbrev pub is_name_mismatch : PaymentErrorKind → Bool
is_name_mismatch PaymentErrorKind.account_name_mismatch = true
is_name_mismatch _ = false

-- Step 7: what is asked of the provider.
unfoldable pub transfer_of : Payout → ResolvedAccount → String → Transfer
transfer_of p resolved recipient_code = record {
  amount_kobo = ngn_to_kobo (numeric p.bill.amount);
  recipient_code = recipient_code;
  reference = p.reference;
  reason = "AutoPay: " ++ p.bill.vendor_name;
  account_number = text_or p.bill.account_number "";
  bank_code = text_or p.bill.bank_code "";
  account_name = resolved.account_name;
}

-- Step 7: what follows the provider's answer.
unfoldable pub after_transfer : ℕ → Payout → Transfer → Result TransferResult → Action PayoutResult
unfolding refund_on_failure charge
after_transfer total_charge p t (ok _) = record_sent t >> charge total_charge p
after_transfer total_charge p t (err (Exn.payment e)) =
    if is_insufficient e.kind
    then refund_on_failure p ("provider_insufficient_funds: " ++ e.message)
      >> raise (Exn.http 502 "Provider temporarily out of funds. Please retry later.")
    else refund_on_failure p ("transfer_failed: " ++ e.message) >> raise (Exn.payment e)
after_transfer total_charge p t (err e) = raise e

-- Step 7: the transfer is asked for, and answered.
unfoldable pub on_transfer : ℕ → Payout → Transfer → Result TransferResult → Action PayoutResult
unfolding after_transfer
on_transfer total_charge p t answer = record_asked t >> after_transfer total_charge p t answer
