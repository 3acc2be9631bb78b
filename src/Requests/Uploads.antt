-- ===== src/Requests/Uploads.antt =====
-- What an upload and a final confirmation mean for the ids, the transfers and the life of the bills.
use autopay.Base.{
  ℕ, ◌+◌, ◌≡◌, inl, inr, refl, ap, Bool, Option, none, some, String, arith, Table, get, put,
  get-put, get_of_KeysBelow,
}
use autopay.Models.{User, Bill}
use autopay.Session.{World}
use autopay.Provider.{PaymentProvider}
use autopay.Bills.Upload.{Extraction, upload_bill}
use autopay.Conversation.Confirm.{pay_in_session}
use autopay.Requests.{Fits-mono, Fits-put_new}
use autopay.Requests.Payments.{
  Unchanged, added, Added, UploadRows, pay_in_session_rows, upload_bill_rows,
}
use autopay.Requests.Keys.{Consistent, Paid-Consistent}
use autopay.Requests.Sent.{Traced, quiet-Traced, Paid-Traced}
use autopay.Requests.Lifecycle.{Balanced}
use autopay.Requests.Balance.{Onwards, bills-Onwards}
use autopay.Requests.Ahead.{new-Follow, new_more, same-Ahead, Paid-Ahead}

kept_by_new :
    (n : ℕ) (b : Bill) (t : Table Bill)
    → get n t ≡ none
    → (k : ℕ) (c : Bill) → get k t ≡ some c
    → get k (put n b t) ≡ some c
kept_by_new n b t free k c e = ground (arith, get-put n k b t)

module _ (w : World) (consistent : Consistent w) where
  free_bill : get w.next_bill w.committed.bills ≡ none
  free_bill =
      get_of_KeysBelow w.next_bill w.next_bill w.committed.bills consistent.bills.0 (omega arith)

  Unchanged-Consistent : (w' : World) → Unchanged w w' → Consistent w'
  Unchanged-Consistent w' u = record {
    bills = rw u.committed (Fits-mono _ _ _ consistent.bills u.next_bill);
    transactions = rw u.committed (Fits-mono _ _ _ consistent.transactions u.next_transaction);
  }

  Added-Consistent : (b : Bill) (w' : World) → Added b w w' → Consistent w'
  Added-Consistent b w' a = record {
    bills =
        rw (a.bills, a.next_bill)
          (Fits-put_new w.next_bill (w.next_bill + 1) b w.committed.bills consistent.bills
            (omega arith));
    transactions = rw (a.transactions, a.next_transaction) consistent.transactions;
  }

  added-Added : (b : Bill) → Added b w (added b w)
  added-Added b = record {
    bills = refl;
    transactions = refl;
    sent = refl;
    next_bill = refl;
    next_transaction = refl;
  }

  added-Consistent : (b : Bill) → Consistent (added b w)
  added-Consistent b = Added-Consistent b (added b w) (added-Added b)

  module _ (traced : Traced w) where
    Unchanged-Traced : (w' : World) → Unchanged w w' → Traced w'
    Unchanged-Traced w' u =
        quiet-Traced w consistent traced w' (u.sent, inl (ap (λ d. d.transactions) u.committed))

    Added-Traced : (b : Bill) (w' : World) → Added b w w' → Traced w'
    Added-Traced b w' a = quiet-Traced w consistent traced w' (a.sent, inl a.transactions)

  module _ (balanced : Balanced w.committed.bills w.committed.transactions) where
    Added-Ahead : (b : Bill) (w' : World) → Added b w w' → Onwards w.committed w'.committed
    Added-Ahead b w' a =
        bills-Onwards w.committed w'.committed consistent.transactions.1 balanced
          (rw a.bills (new-Follow w.next_bill b w.committed.bills free_bill))
          (rw a.bills (new_more w.next_bill b w.committed.bills free_bill)) a.transactions

    Unchanged-Ahead : (w' : World) → Unchanged w w' → Onwards w.committed w'.committed
    Unchanged-Ahead w' u = same-Ahead w consistent balanced w' u.committed

module _ (provider : PaymentProvider) (fee : ℕ) (hex : String) where
  module _ (bill_id : ℕ) (w : World) (consistent : Consistent w) where
    pub confirm-Consistent : Consistent (pay_in_session provider fee hex bill_id w).1
    confirm-Consistent = elim (pay_in_session_rows provider fee hex bill_id w) [
      | inl u ↦ Unchanged-Consistent w consistent _ u
      | inr p ↦ Paid-Consistent w consistent provider fee hex _ p
    ]

    pub confirm-Traced : Traced w → Traced (pay_in_session provider fee hex bill_id w).1
    confirm-Traced t = elim (pay_in_session_rows provider fee hex bill_id w) [
      | inl u ↦ Unchanged-Traced w consistent t _ u
      | inr p ↦ Paid-Traced w consistent t provider fee hex _ p
    ]

    pub confirm-Ahead :
        Balanced w.committed.bills w.committed.transactions
        → Onwards w.committed (pay_in_session provider fee hex bill_id w).1.committed
    confirm-Ahead bal = elim (pay_in_session_rows provider fee hex bill_id w) [
      | inl u ↦ Unchanged-Ahead w consistent bal _ u
      | inr p ↦ Paid-Ahead w consistent bal provider fee hex _ p
    ]

  module _ (now user_id : ℕ) (user : User) (w : World) (consistent : Consistent w) where
    abbrev Rows : World → Type 0
    Rows = UploadRows provider fee hex now user_id user w

    Rows-Consistent : (w' : World) → Rows w' → Consistent w'
    Rows-Consistent w' (inl u) = Unchanged-Consistent w consistent w' u
    Rows-Consistent w' (inr (inl (b, a))) = Added-Consistent w consistent b w' a
    Rows-Consistent w' (inr (inr (b, p))) =
        Paid-Consistent (added b w) (added-Consistent w consistent b) provider fee hex w' p

    Rows-Traced : (w' : World) → Traced w → Rows w' → Traced w'
    Rows-Traced w' t (inl u) = Unchanged-Traced w consistent t w' u
    Rows-Traced w' t (inr (inl (b, a))) = Added-Traced w consistent t b w' a
    Rows-Traced w' t (inr (inr (b, p))) =
        Paid-Traced (added b w) (added-Consistent w consistent b)
          (Added-Traced w consistent t b (added b w) (added-Added w consistent b)) provider fee hex
          w' p

    Rows-Ahead :
        (w' : World)
        → Balanced w.committed.bills w.committed.transactions
        → Rows w'
        → Onwards w.committed w'.committed
    Rows-Ahead w' bal (inl u) = Unchanged-Ahead w consistent bal w' u
    Rows-Ahead w' bal (inr (inl (b, a))) = Added-Ahead w consistent bal b w' a
    Rows-Ahead w' bal (inr (inr (b, p))) =
        let first_bal =
          (Added-Ahead w consistent bal b (added b w) (added-Added w consistent b)).1 in
        let (follow, after) =
          Paid-Ahead (added b w) (added-Consistent w consistent b) first_bal provider fee hex w'
            p in
        (
          λ k c e.
              follow k c
                (kept_by_new w.next_bill b w.committed.bills (free_bill w consistent) k c e),
          after,
        )

    module _ (has_file : Bool) (request_bill : Option String) (extraction : Extraction) where
      abbrev uploaded : World
      uploaded =
          (upload_bill provider fee hex now user_id user has_file request_bill extraction w).1

      uploaded-Rows : Rows uploaded
      uploaded-Rows =
          upload_bill_rows provider fee hex now user_id user w has_file request_bill extraction
            consistent.bills.0

      pub upload-Consistent : Consistent uploaded
      upload-Consistent = Rows-Consistent uploaded uploaded-Rows

      pub upload-Traced : Traced w → Traced uploaded
      upload-Traced t = Rows-Traced uploaded t uploaded-Rows

      pub upload-Ahead :
          Balanced w.committed.bills w.committed.transactions
          → Onwards w.committed uploaded.committed
      upload-Ahead bal = Rows-Ahead uploaded bal uploaded-Rows
