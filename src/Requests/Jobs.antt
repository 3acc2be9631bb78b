-- ===== src/Requests/Jobs.antt =====
-- The other requests on bills, and the jobs: the ids stay unique and below their sequences.
use autopay.Base.{
  ℕ, ◌+◌, ◌≡◌, ◌⊎◌, inl, inr, true, false, none, some, List, [], ◌∷◌, not, ◌||◌, truthy, arith, get,
  put, Option-cases, Bool-cases, get-put_self,
}
use autopay.Models.{Bill, BillStatus}
use autopay.Session.{Result, ok, err, World}
use autopay.Bills.{BillActionResponse, BillCreateRequest, create_bill, cancel_bill}
use autopay.Bills.Guards.{Cancelled, cancel_bill_outcome}
use autopay.Payout.Recurrence.{next_of, schedule_recurrence}
use autopay.Scheduler.{reevaluate, reevaluate_all, spawn, spawn_all}
use autopay.Scheduler.Recurring.{IsRecurring, moved, spawn_effect}
use autopay.Requests.{Fits-put_known, Fits-put_new}
use autopay.Requests.Keys.{Consistent, same_rows}

-- The row that `create_bill` adds.
abbrev pub created : ℕ → BillCreateRequest → Bill
created user_id payload = record {
  user_id = user_id;
  vendor_name = payload.vendor_name;
  account_number = payload.account_number;
  bank_code = payload.bank_code;
  bank_name = payload.bank_name;
  amount = payload.amount;
  currency = "NGN";
  due_date = payload.due_date;
  status = BillStatus.pending;
  is_recurring = false;
  recurrence_interval = none;
  next_recurrence_date = none;
  retry_count = 0;
  max_retries = 3;
}

module _ (w : World) (consistent : Consistent w) where
  -- One bill that was there has changed.
  one_bill :
      (k : ℕ) (b b' : Bill) (w' : World)
      → get k w.committed.bills ≡ some b
      → w'.committed.bills ≡ put k b' w.committed.bills
      → w'.committed.transactions ≡ w.committed.transactions
      → w'.next_bill ≡ w.next_bill
      → w'.next_transaction ≡ w.next_transaction
      → Consistent w'
  one_bill k b b' w' e bills txns nb nt = record {
    bills = rw (bills, nb) (Fits-put_known w.next_bill k b b' w.committed.bills consistent.bills e);
    transactions = rw (txns, nt) consistent.transactions;
  }

  pub create_rows :
      (user_id : ℕ) (payload : BillCreateRequest)
      → let w' = (create_bill user_id payload w).1 in
        (w'.committed.bills ≡ put w.next_bill (created user_id payload) w.committed.bills)
        × (w'.committed.transactions ≡ w.committed.transactions)
        × (w'.next_bill ≡ w.next_bill + 1)
        × (w'.next_transaction ≡ w.next_transaction)
  unfolding create_bill
  create_rows user_id payload =
      ground (arith, get-put_self w.next_bill (created user_id payload) w.committed.bills)

  pub create_bill-Consistent :
      (user_id : ℕ) (payload : BillCreateRequest) → Consistent (create_bill user_id payload w).1
  create_bill-Consistent user_id payload =
      let (bills, txns, nb, nt) = create_rows user_id payload in
      record {
        bills =
            rw (bills, nb)
              (Fits-put_new w.next_bill (w.next_bill + 1) _ w.committed.bills consistent.bills
                (omega arith));
        transactions = rw (txns, nt) consistent.transactions;
      }

  module _ (user_id bill_id : ℕ) where
    cancel_sequences :
        ((cancel_bill user_id bill_id w).1.next_bill ≡ w.next_bill)
        × ((cancel_bill user_id bill_id w).1.next_transaction ≡ w.next_transaction)
    unfolding cancel_bill
    cancel_sequences = ground arith

    cancelled :
        (x : Result BillActionResponse × World)
        → Cancelled user_id bill_id w x
        → x.1.next_bill ≡ w.next_bill
        → x.1.next_transaction ≡ w.next_transaction
        → Consistent x.1
    cancelled (ok r, w') (bill, e, _, _, _, bills, _, txns, _, _) nb nt =
        one_bill bill_id bill _ w' e bills txns nb nt
    cancelled (err e, w') (c, _, _) nb nt = same_rows w consistent w' c nb (omega arith)

    pub cancel_bill-Consistent : Consistent (cancel_bill user_id bill_id w).1
    cancel_bill-Consistent =
        let (nb, nt) = cancel_sequences in cancelled _ (cancel_bill_outcome user_id bill_id w) nb nt

  module _ (fee now k : ℕ) where
    reevaluate_sequences :
        ((reevaluate fee now k w).committed.transactions ≡ w.committed.transactions)
        × ((reevaluate fee now k w).next_bill ≡ w.next_bill)
        × ((reevaluate fee now k w).next_transaction ≡ w.next_transaction)
    unfolding reevaluate
    reevaluate_sequences = ground arith

    reevaluate_missing :
        get k w.committed.bills ≡ none
        → (reevaluate fee now k w).committed.bills ≡ w.committed.bills
    unfolding reevaluate
    reevaluate_missing e = ground arith

    reevaluate_found :
        (b : Bill)
        → get k w.committed.bills ≡ some b
        → let bills = (reevaluate fee now k w).committed.bills in
          (bills ≡ w.committed.bills)
          ⊎ (bills ≡ put k (record b { status = BillStatus.pending }) w.committed.bills)
    unfolding reevaluate
    reevaluate_found b e = ground arith

    reevaluate-Consistent : Consistent (reevaluate fee now k w)
    reevaluate-Consistent =
        let (txns, nb, nt) = reevaluate_sequences in
        let kept : (reevaluate fee now k w).committed.bills ≡ w.committed.bills
            → Consistent (reevaluate fee now k w) =
          λ same. record {
            bills = rw (same, nb) consistent.bills;
            transactions = rw (txns, nt) consistent.transactions;
          } in
        elim (Option-cases (get k w.committed.bills)) [
          | inl e ↦ kept (reevaluate_missing e)
          | inr (b, e) ↦ elim (reevaluate_found b e) [
            | inl same ↦ kept same
            | inr bills ↦ one_bill k b _ (reevaluate fee now k w) e bills txns nb nt
          ]
        ]

  module _ (k : ℕ) where
    spawn_sequence : (spawn k w).next_transaction ≡ w.next_transaction
    unfolding spawn schedule_recurrence
    spawn_sequence = ground arith

    pub spawn_missing :
        get k w.committed.bills ≡ none
        → ((spawn k w).committed ≡ w.committed) × ((spawn k w).next_bill ≡ w.next_bill)
    unfolding spawn schedule_recurrence
    spawn_missing e = ground arith

    module _ (b : Bill) (e : get k w.committed.bills ≡ some b) where
      pub spawn_once :
          (not b.is_recurring || not (truthy b.recurrence_interval)) ≡ true
          → ((spawn k w).committed ≡ w.committed) × ((spawn k w).next_bill ≡ w.next_bill)
      unfolding spawn schedule_recurrence
      spawn_once h = ground arith

      pub recurring :
          (not b.is_recurring || not (truthy b.recurrence_interval)) ≡ false → IsRecurring b
      recurring h = ground arith

      spawned : IsRecurring b → Consistent (spawn k w)
      spawned h =
          let (bills, nb, _, txns, _) = spawn_effect k b w consistent.bills.0 e h in
          let next = spawn_sequence in
          record {
            bills =
                rw (bills, nb)
                  (Fits-put_new w.next_bill (w.next_bill + 1) (next_of b) _
                    (Fits-put_known w.next_bill k b (moved b) w.committed.bills consistent.bills e)
                    (omega arith));
            transactions = rw (txns, next) consistent.transactions;
          }

    pub spawn-Consistent : Consistent (spawn k w)
    spawn-Consistent =
        let unchanged : (((spawn k w).committed ≡ w.committed)
              × ((spawn k w).next_bill ≡ w.next_bill))
            → Consistent (spawn k w) =
          λ (c, nb).
            same_rows w consistent (spawn k w) c nb (let next = spawn_sequence in omega arith) in
        elim (Option-cases (get k w.committed.bills)) [
          | inl e ↦ unchanged (spawn_missing e)
          | inr (b, e) ↦
              elim (Bool-cases (not b.is_recurring || not (truthy b.recurrence_interval))) [
                | inl once ↦ unchanged (spawn_once b e once)
                | inr more ↦ spawned b e (recurring b e more)
              ]
        ]

pub reevaluate_all-Consistent :
    (fee now : ℕ) (ks : List ℕ) (w : World)
    → Consistent w
    → Consistent (reevaluate_all fee now ks w)
unfolding reevaluate_all
reevaluate_all-Consistent fee now [] w c = c
reevaluate_all-Consistent fee now (k ∷ ks) w c =
    reevaluate_all-Consistent fee now ks _ (reevaluate-Consistent w c fee now k)

pub spawn_all-Consistent : (ks : List ℕ) (w : World) → Consistent w → Consistent (spawn_all ks w)
unfolding spawn_all
spawn_all-Consistent [] w c = c
spawn_all-Consistent (k ∷ ks) w c = spawn_all-Consistent ks _ (spawn-Consistent w c k)
