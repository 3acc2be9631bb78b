-- ===== src/Payout/Reconcile.antt =====
-- `confirm_payout`: what each outcome does, that a second call changes nothing, and that payout and
-- confirmation fit together.
use autopay.Base.{
  ℕ, ◌+◌, ◌≡◌, refl, ◌⊎◌, inl, inr, Bool, true, false, none, some, String, Option, arith, put, get,
  first, text_or, UniqueKeys, first-put_self, first_passes, get_of_first, get-put_self,
  Option-cases, ap, ◌∙◌,
}
use autopay.Models.{User, Bill, Transaction, BillStatus, TransactionStatus}
use autopay.Session.{ok, World}
use autopay.Payout.{count_failure}
use autopay.Payout.Charge.{has_reference}
use autopay.Payout.Confirm.{confirm_payout}

-- A transaction that no confirmation has reached.
abbrev pub IsOpen : Transaction → Type 0
IsOpen t =
    (t.status ≡ TransactionStatus.pending)
    ⊎ (t.status ≡ TransactionStatus.processing)
    ⊎ (t.status ≡ TransactionStatus.reversed)

module _ (reference : String) (reason : Option String) (w : World) {txn_id bill_id : ℕ}
    {txn : Transaction} {bill : Bill} {user : User}
    (found : first (has_reference reference) w.work.transactions ≡ some (txn_id, txn))
    (owned : txn.bill_id ≡ some bill_id) (billed : get bill_id w.work.bills ≡ some bill)
    (held : get txn.user_id w.work.users ≡ some user) (live : IsOpen txn) where
  pub confirm_success :
      let w' = (confirm_payout reference true reason w).1 in
      (w'.work.users ≡ w.work.users)
      × (w'.work.bills ≡ put bill_id (record bill { status = BillStatus.paid }) w.work.bills)
      × (w'.work.transactions
          ≡ put txn_id (record txn { status = TransactionStatus.success }) w.work.transactions)
      × (w'.committed ≡ w.committed)
      × (w'.sent ≡ w.sent)
  unfolding confirm_payout
  confirm_success = ground arith

  pub confirm_failure :
      let w' = (confirm_payout reference false reason w).1 in
      (w'.work.users
        ≡ put txn.user_id
            (record user { balance = user.balance + txn.amount + txn.fee })
            w.work.users)
      × (w'.work.bills ≡ put bill_id (count_failure bill) w.work.bills)
      × (w'.work.transactions
          ≡ put txn_id
              (record txn {
                status = TransactionStatus.failed;
                failure_reason = some (text_or reason "provider_rejected");
              })
              w.work.transactions)
      × (w'.committed ≡ w.committed)
      × (w'.sent ≡ w.sent)
  unfolding confirm_payout
  confirm_failure = ground arith

-- A transaction that a confirmation, or a failed attempt, has closed.
abbrev pub IsClosed : Transaction → Type 0
IsClosed t = (t.status ≡ TransactionStatus.success) ⊎ (t.status ≡ TransactionStatus.failed)

pub IsOpen-or_IsClosed : (t : Transaction) → IsOpen t ⊎ IsClosed t
IsOpen-or_IsClosed t = ground arith

module _ (reference : String) (success : Bool) (reason : Option String) (w : World) where
  abbrev pub Again : Type 0
  Again = confirm_payout reference success reason w ≡ (ok none, w)

  pub confirm_unknown : first (has_reference reference) w.work.transactions ≡ none → Again
  unfolding confirm_payout
  confirm_unknown h = ground arith

  module _ {txn_id : ℕ} {txn : Transaction}
      (found : first (has_reference reference) w.work.transactions ≡ some (txn_id, txn)) where
    pub confirm_no_bill : txn.bill_id ≡ none → Again
    unfolding confirm_payout
    confirm_no_bill h = ground arith

    pub confirm_lost_bill :
        {bill_id : ℕ} → txn.bill_id ≡ some bill_id → get bill_id w.work.bills ≡ none → Again
    unfolding confirm_payout
    confirm_lost_bill h k = ground arith

    module _ {bill_id : ℕ} {bill : Bill} (owned : txn.bill_id ≡ some bill_id)
        (billed : get bill_id w.work.bills ≡ some bill) where
      pub confirm_no_user : IsOpen txn → get txn.user_id w.work.users ≡ none → Again
      unfolding confirm_payout
      confirm_no_user h k = ground arith

      -- A closed transaction stays as it is.
      pub confirm_closed : IsClosed txn → (confirm_payout reference success reason w).1 ≡ w
      unfolding confirm_payout
      confirm_closed h = ground arith

-- The session after a first confirmation of an open transaction has it closed.
module _ (reference : String) (s' : Bool) (r r' : Option String) (w : World) {txn_id bill_id : ℕ}
    {txn : Transaction} {bill : Bill} {user : User} (unique : UniqueKeys w.work.transactions)
    (found : first (has_reference reference) w.work.transactions ≡ some (txn_id, txn))
    (owned : txn.bill_id ≡ some bill_id) (billed : get bill_id w.work.bills ≡ some bill)
    (held : get txn.user_id w.work.users ≡ some user) (live : IsOpen txn) where
  still_found :
      (txn' : Transaction)
      → txn'.provider_reference ≡ txn.provider_reference
      → first (has_reference reference) (put txn_id txn' w.work.transactions) ≡ some (txn_id, txn')
  still_found txn' same =
      let test = has_reference reference in
      first-put_self test txn_id txn txn' w.work.transactions found
        (get_of_first test txn_id txn w.work.transactions unique found)
        (rw same (first_passes test txn_id txn w.work.transactions found))

  open_idempotent :
      (s : Bool)
      → let w' = (confirm_payout reference s r w).1 in (confirm_payout reference s' r' w').1 ≡ w'
  open_idempotent true =
      let (_, bills, txns, _, _) = confirm_success reference r w found owned billed held live in
      confirm_closed reference s' r' (confirm_payout reference true r w).1
        (ap (first (has_reference reference)) txns ∙ still_found _ refl) owned
        (ap (get bill_id) bills ∙ get-put_self bill_id _ w.work.bills) (inl refl)
  open_idempotent false =
      let (_, bills, txns, _, _) = confirm_failure reference r w found owned billed held live in
      confirm_closed reference s' r' (confirm_payout reference false r w).1
        (ap (first (has_reference reference)) txns ∙ still_found _ refl) owned
        (ap (get bill_id) bills ∙ get-put_self bill_id _ w.work.bills) (inr refl)

module _ (reference : String) (s s' : Bool) (r r' : Option String) (w : World) where
  abbrev Idempotent : Type 0
  Idempotent =
      let w' = (confirm_payout reference s r w).1 in (confirm_payout reference s' r' w').1 ≡ w'

  -- Two calls that both find nothing to do.
  twice_nothing :
      confirm_payout reference s r w ≡ (ok none, w)
      → confirm_payout reference s' r' w ≡ (ok none, w)
      → Idempotent
  twice_nothing h k = rw h (ap (λ x. x.1) k)

  module _ (unique : UniqueKeys w.work.transactions) where
    found_idempotent :
        {txn_id bill_id : ℕ} {txn : Transaction} {bill : Bill}
        → first (has_reference reference) w.work.transactions ≡ some (txn_id, txn)
        → txn.bill_id ≡ some bill_id
        → get bill_id w.work.bills ≡ some bill
        → Idempotent
    found_idempotent {txn} found owned billed = elim (IsOpen-or_IsClosed txn) [
      | inr closed ↦
          rw (confirm_closed reference s r w found owned billed closed)
            (confirm_closed reference s' r' w found owned billed closed)
      | inl live ↦ elim (Option-cases (get txn.user_id w.work.users)) [
        | inl lost ↦
            twice_nothing (confirm_no_user reference s r w found owned billed live lost)
              (confirm_no_user reference s' r' w found owned billed live lost)
        | inr (user, held) ↦
            open_idempotent reference s' r r' w unique found owned billed held live s
      ]
    ]

    -- A second confirmation under the same reference changes nothing, whatever the two outcomes
    -- and reasons are and whatever the first call found, if transaction ids are unique.
    pub confirm_payout_idempotent : Idempotent
    confirm_payout_idempotent =
        elim (Option-cases (first (has_reference reference) w.work.transactions)) [
          | inl h ↦
              twice_nothing (confirm_unknown reference s r w h)
                (confirm_unknown reference s' r' w h)
          | inr ((txn_id, txn), found) ↦ elim (Option-cases txn.bill_id) [
            | inl h ↦
                twice_nothing (confirm_no_bill reference s r w found h)
                  (confirm_no_bill reference s' r' w found h)
            | inr (bill_id, owned) ↦ elim (Option-cases (get bill_id w.work.bills)) [
              | inl h ↦
                  twice_nothing (confirm_lost_bill reference s r w found owned h)
                    (confirm_lost_bill reference s' r' w found owned h)
              | inr (bill, billed) ↦ found_idempotent found owned billed
            ]
          ]
        ]
