-- ===== src/Payout/Confirm.antt =====
-- app/services/payout.py: `confirm_payout`, which the webhook handler calls.
use autopay.Base.{
  ℕ, ◌+◌, Bool, true, false, ◌||◌, Option, none, some, String, ◌++◌, if◌then◌else◌, get, first,
  text_or,
}
use autopay.Models.{User, Bill, Transaction, BillStatus, TransactionStatus, txn_status_eq}
use autopay.Session.{Action, pure, gets, ◌>>=◌, ◌>>◌, modify, put_user, put_bill, put_transaction}
use autopay.Audit.{audit_payout_succeeded, audit_payout_failed}
use autopay.Payout.{PayoutResult, count_failure}
use autopay.Payout.Charge.{has_reference}

-- The success branch.
unfoldable pub settle : String → ℕ → Transaction → ℕ → Bill → User → Action (Option PayoutResult)
settle reference txn_id txn bill_id bill user = do
  audit_payout_succeeded txn.user_id bill_id reference
  modify (put_transaction txn_id (record txn { status = TransactionStatus.success }))
  modify (put_bill bill_id (record bill { status = BillStatus.paid }))
  pure (
      some (record {
        success = true;
        message = "Payment successful.";
        reference = reference;
        new_balance = user.balance;
      }))

-- The failure branch: amount and fee go back to the wallet.
unfoldable pub refund :
    String → Option String → ℕ → Transaction → ℕ → Bill → User → Action (Option PayoutResult)
unfolding count_failure
refund reference failure_reason txn_id txn bill_id bill user = do
  let bill' = count_failure bill
  let balance = user.balance + txn.amount + txn.fee
  modify (put_user txn.user_id (record user { balance = balance }))
  audit_payout_failed txn.user_id bill_id (text_or failure_reason "transfer_failed")
      bill'.retry_count
  modify (
      put_transaction txn_id (record txn {
        status = TransactionStatus.failed;
        failure_reason = some (text_or failure_reason "provider_rejected");
      }))
  modify (put_bill bill_id bill')
  pure (
      some (record {
        success = false;
        message = "Payment failed: " ++ text_or failure_reason "unknown reason" ++ ".";
        reference = reference;
        new_balance = balance;
      }))

-- `session.get(User, txn.user_id)`, and the branch on `success`.
unfoldable pub apply_outcome :
    String
    → Bool
    → Option String
    → ℕ
    → Transaction
    → ℕ
    → Bill
    → Option User
    → Action (Option PayoutResult)
unfolding settle refund
apply_outcome reference success failure_reason txn_id txn bill_id bill none = pure none
apply_outcome reference success failure_reason txn_id txn bill_id bill (some user) =
    if success
    then settle reference txn_id txn bill_id bill user
    else refund reference failure_reason txn_id txn bill_id bill user

-- The transaction and its bill are found; a transaction in a terminal state stays as it is.
unfoldable pub reconcile :
    String → Bool → Option String → ℕ → Transaction → ℕ → Bill → Action (Option PayoutResult)
unfolding apply_outcome
reconcile reference success failure_reason txn_id txn bill_id bill =
    if txn_status_eq txn.status TransactionStatus.success
      || txn_status_eq txn.status TransactionStatus.failed
    then pure (
        some (record {
          success = txn_status_eq txn.status TransactionStatus.success;
          message = "Already reconciled.";
          reference = reference;
          new_balance = 0;
        }))
    else (do
      user ← gets (λ d. get txn.user_id d.users)
      apply_outcome reference success failure_reason txn_id txn bill_id bill user)

-- `session.get(Bill, txn.bill_id)`
unfoldable pub with_bill :
    String → Bool → Option String → ℕ → Transaction → ℕ → Option Bill → Action (Option PayoutResult)
unfolding reconcile
with_bill reference success failure_reason txn_id txn bill_id none = pure none
with_bill reference success failure_reason txn_id txn bill_id (some bill) =
    reconcile reference success failure_reason txn_id txn bill_id bill

-- The row that the reference names.
unfoldable pub with_transaction :
    String → Bool → Option String → Option (ℕ × Transaction) → Action (Option PayoutResult)
unfolding with_bill
with_transaction reference success failure_reason none = pure none
with_transaction reference success failure_reason (some (txn_id, txn)) = elim txn.bill_id [
  | none ↦ pure none
  | some bill_id ↦ (do
    bill ← gets (λ d. get bill_id d.bills)
    with_bill reference success failure_reason txn_id txn bill_id bill)
]

-- `confirm_payout`
unfoldable pub confirm_payout : String → Bool → Option String → Action (Option PayoutResult)
unfolding with_transaction
confirm_payout reference success failure_reason = do
  found ← gets (λ d. first (has_reference reference) d.transactions)
  with_transaction reference success failure_reason found
