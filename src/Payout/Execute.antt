-- ===== src/Payout/Execute.antt =====
-- app/services/payout.py: `execute_payout`, from its first step to the sixth.
use autopay.Base.{
  ℕ, ◌+◌, ◌-◌, not, ◌||◌, Option, none, some, String, ◌++◌, ltb, if◌then◌else◌, get, first, truthy,
  text_or, decimal, show_money,
}
use autopay.Models.{
  User, Bill, Transaction, BillStatus, TransactionStatus, TransactionType, bill_status_eq,
}
use autopay.Session.{
  Exn, Result, ok, err, Action, raise, gets, ◌>>=◌, ◌>>◌, raise_if, modify, put_bill,
  put_transaction,
}
use autopay.Audit.{audit_payout_failed, audit_wallet_debit}
use autopay.Provider.{PaymentProvider, ResolvedAccount}
use autopay.Payout.{PayoutResult}
use autopay.Payout.Charge.{
  Payout, new_reference, has_reference, refund_on_failure, is_invalid_account, is_name_mismatch,
  transfer_of, on_transfer,
}

module _ (provider : PaymentProvider) (fee : ℕ) where
  -- Step 6: what follows `create_transfer_recipient`.
  unfoldable pub on_recipient : Payout → ResolvedAccount → Result String → Action PayoutResult
  unfolding on_transfer
  on_recipient p resolved (ok recipient_code) =
      let t = transfer_of p resolved recipient_code in
      on_transfer (p.bill.amount + fee) p t (provider.initiate_transfer t)
  on_recipient p resolved (err (Exn.payment e)) =
      if is_name_mismatch e.kind
      then refund_on_failure p ("name_mismatch: " ++ e.message)
        >> raise (Exn.http 422 ("Account name mismatch: " ++ e.message))
      else refund_on_failure p ("recipient_failed: " ++ e.message) >> raise (Exn.payment e)
  on_recipient p resolved (err e) = raise e

  -- Step 6: what follows `resolve_account`; only `InvalidAccount` is handled here.
  unfoldable pub on_resolved : Payout → Result ResolvedAccount → Action PayoutResult
  unfolding on_recipient
  on_resolved p (ok resolved) = on_recipient p resolved (
      provider.create_transfer_recipient (text_or p.bill.account_number "")
        (text_or p.bill.bank_code "") resolved.account_name)
  on_resolved p (err (Exn.payment e)) =
      if is_invalid_account e.kind
      then refund_on_failure p ("invalid_account: " ++ e.message)
        >> raise (Exn.http 422 ("Account could not be resolved: " ++ e.message))
      else raise (Exn.payment e)
  on_resolved p (err e) = raise e

  -- Step 6.
  unfoldable pub resolve : Payout → Action PayoutResult
  unfolding on_resolved
  resolve p =
      if not (truthy p.bill.account_number) || not (truthy p.bill.bank_code)
      then refund_on_failure p "missing account_number or bank_code"
        >> raise (Exn.http 422 "Bill has no payout account configured.")
      else on_resolved p (
          provider.resolve_account (text_or p.bill.account_number "") (text_or p.bill.bank_code ""))

  -- The new row of step 5.
  unfoldable pub debit_of : ℕ → Bill → String → Transaction
  debit_of bill_id bill reference = record {
    user_id = bill.user_id;
    bill_id = some bill_id;
    type = TransactionType.debit;
    amount = bill.amount;
    fee = fee;
    currency = bill.currency;
    status = TransactionStatus.processing;
    provider = provider.name;
    provider_reference = some reference;
    retry_count = 0;
    failure_reason = none;
    narration = some ("Payment to " ++ bill.vendor_name);
  }

  -- `session.add(debit); session.flush()`: the column `provider_reference` is unique, so a row that
  -- has the reference makes the flush fail.
  unfoldable pub insert_debit : Transaction → Option (ℕ × Transaction) → Action ℕ
  insert_debit debit (some _) w = (err Exn.integrity_error, w)
  insert_debit debit none w = (
    ok w.next_transaction,
    record w {
      work = put_transaction w.next_transaction debit w.work;
      next_transaction = w.next_transaction + 1;
    },
  )

  -- Step 5, once the uniqueness of the reference has been looked up.
  unfoldable pub begin_with :
      ℕ → Bill → User → String → Option (ℕ × Transaction) → Action PayoutResult
  unfolding debit_of insert_debit resolve
  begin_with bill_id bill user reference found = do
    let debit = debit_of bill_id bill reference
    debit_id ← insert_debit debit found
    audit_wallet_debit bill.user_id bill.amount fee bill_id reference
        (user.balance - (bill.amount + fee))
    resolve (record {
      bill_id = bill_id;
      bill = bill;
      user = user;
      debit_id = debit_id;
      debit = debit;
      reference = reference;
    })

  -- Step 5.
  unfoldable pub begin_payout : ℕ → Bill → User → String → Action PayoutResult
  unfolding begin_with
  begin_payout bill_id bill user hex = do
    let bill' = record bill { status = BillStatus.processing }
    let reference = new_reference bill_id hex
    modify (put_bill bill_id bill')
    found ← gets (λ d. first (has_reference reference) d.transactions)
    begin_with bill_id bill' user reference found

  -- Step 4: the balance must cover amount and fee.
  unfoldable pub check_balance : ℕ → Bill → User → String → Action PayoutResult
  unfolding begin_payout
  check_balance bill_id bill user hex =
      let total_charge = bill.amount + fee in
      let shortfall = show_money (total_charge - user.balance) in
      if ltb user.balance total_charge
      then modify (put_bill bill_id (record bill { status = BillStatus.pending }))
        >> (audit_payout_failed bill.user_id bill_id
              ("insufficient_balance (shortfall=" ++ shortfall ++ ")") bill.retry_count
            >> raise (
                Exn.http 402 (
                  "Insufficient balance. Need "
                  ++ show_money total_charge
                  ++ " NGN, have "
                  ++ show_money user.balance
                  ++ " NGN (shortfall "
                  ++ shortfall
                  ++ " NGN).")))
      else begin_payout bill_id bill user hex

  -- Step 3: a bill that is paid, cancelled or in process is refused.
  unfoldable pub check_status : ℕ → Bill → User → String → Action PayoutResult
  check_status bill_id bill user hex = do
    raise_if (bill_status_eq bill.status BillStatus.paid) (Exn.http 409 "Bill is already paid.")
    raise_if (bill_status_eq bill.status BillStatus.cancelled) (Exn.http 409 "Bill is cancelled.")
    raise_if (bill_status_eq bill.status BillStatus.processing)
        (Exn.http 409 "Bill is already being processed.")
    check_balance bill_id bill user hex

  -- Step 2: the locked row of the bill's user, or none.
  unfoldable pub lock_user : ℕ → Bill → String → Option User → Action PayoutResult
  lock_user bill_id bill hex none =
      raise (Exn.http 404 ("User " ++ decimal bill.user_id ++ " not found."))
  lock_user bill_id bill hex (some user) = check_status bill_id bill user hex

  -- Step 1: the locked row of the bill, or none.
  unfoldable pub lock_bill : ℕ → String → Option Bill → Action PayoutResult
  unfolding lock_user
  lock_bill bill_id hex none = raise (Exn.http 404 ("Bill " ++ decimal bill_id ++ " not found."))
  lock_bill bill_id hex (some bill) = do
    user ← gets (λ d. get bill.user_id d.users)
    lock_user bill_id bill hex user

  -- `execute_payout`. The digits of the reference are an argument.
  unfoldable pub execute_payout : ℕ → String → Action PayoutResult
  unfolding lock_bill
  execute_payout bill_id hex = do bill ← gets (λ d. get bill_id d.bills); lock_bill bill_id hex bill
