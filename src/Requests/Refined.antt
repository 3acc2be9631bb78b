-- ===== src/Requests/Refined.antt =====
-- The requests and the jobs implement the life of a bill.
use autopay.Base.{ℕ, ◌≡◌, ◌⊎◌, inl, inr, refl, ◌∙◌, some, arith, get}
use autopay.Models.{Bill, BillStatus}
use autopay.Session.{World}
use autopay.Bills.Pay.{pay_bill_settles}
use autopay.Bills.Guards.{cancel_bill_outcome}
use autopay.Requests.Sequences.{pay_bill-Advances}
use autopay.Requests.Keys.{Consistent}
use autopay.Requests.Lifecycle.{Move, Follow, Balanced}
use autopay.Requests.Balance.{Onwards}
use autopay.Requests.Reached.{Step, Reaches, reaches-Consistent}
use autopay.Requests.Ahead.{
  create-Ahead, Settled-Ahead, Cancelled-Ahead, webhook-Ahead, scheduled-Ahead,
}
use autopay.Requests.Uploads.{confirm-Ahead, upload-Ahead}
use autopay.Requests.Kept.{recurring-Ahead}

step-Onwards :
    {w w' : World}
    → Step w w'
    → Consistent w
    → Balanced w.committed.bills w.committed.transactions
    → Onwards w.committed w'.committed
step-Onwards {w} (Step.create user_id payload) c bal = create-Ahead w c bal user_id payload
step-Onwards {w} (Step.pay provider fee user_id bill_id hex) c bal =
    Settled-Ahead w c bal provider fee hex user_id bill_id _
      (pay_bill_settles provider fee user_id bill_id hex w)
      (pay_bill-Advances provider fee bill_id hex user_id w)
step-Onwards {w} (Step.confirm provider fee hex bill_id) c bal =
    confirm-Ahead provider fee hex bill_id w c bal
step-Onwards {w}
      (Step.upload provider fee hex now user_id user has_file request_bill extraction whole) c bal =
    upload-Ahead provider fee hex now user_id user w c has_file request_bill extraction bal
step-Onwards {w} (Step.cancel user_id bill_id) c bal =
    Cancelled-Ahead w c bal user_id bill_id _ (cancel_bill_outcome user_id bill_id w)
step-Onwards {w} (Step.webhook provider parsed) c bal = webhook-Ahead w c bal provider parsed
step-Onwards {w} (Step.scheduled fee now) c bal = scheduled-Ahead w c bal fee now
step-Onwards {w} (Step.recurring now) c bal = recurring-Ahead w now c bal

-- If ids are unique and below their sequences, and a bill has an open transaction only while it is in
-- process, and then one at most, then this is so after any number of requests and job runs, in any
-- order and with any arguments: no bill ever has two open payments. (The amount that an
-- upload extracts is of whole kobo.)
pub Reaches-Balanced :
    {w w' : World}
    → Reaches w w'
    → Consistent w
    → Balanced w.committed.bills w.committed.transactions
    → Balanced w'.committed.bills w'.committed.transactions
Reaches-Balanced Reaches.here c bal = bal
Reaches-Balanced (Reaches.then r s) c bal =
    (step-Onwards s (reaches-Consistent r c) (Reaches-Balanced r c bal)).1

-- The requests and jobs refine the life of a bill: in a world that they reach from one with
-- unique ids below their sequences and open transactions only of bills in process, one each at
-- most, one more request or job run keeps every bill with its amount and owner, and its status
-- stays or makes a move of the machine. (The amount that an upload extracts is of whole kobo.)
pub Reaches-Follow :
    {w u v : World}
    → Reaches w u
    → Step u v
    → Consistent w
    → Balanced w.committed.bills w.committed.transactions
    → Follow u.committed.bills v.committed.bills
Reaches-Follow r s c bal = (step-Onwards s (reaches-Consistent r c) (Reaches-Balanced r c bal)).0

-- A bill that is paid or cancelled makes no move.
over_stays :
    {s s' : BillStatus} → (s ≡ BillStatus.paid) ⊎ (s ≡ BillStatus.cancelled) → Move s s' → s' ≡ s
over_stays h (Move.pay e) = ground arith
over_stays h (Move.cancel e) = ground arith
over_stays h Move.cover = ground arith
over_stays h Move.settle = ground arith
over_stays h Move.retry = ground arith
over_stays h Move.give_up = ground arith

followed_status :
    (b b' : Bill)
    → (b.status ≡ BillStatus.paid) ⊎ (b.status ≡ BillStatus.cancelled)
    → (b'.status ≡ b.status) ⊎ Move b.status b'.status
    → b'.status ≡ b.status
followed_status b b' h (inl e) = e
followed_status b b' h (inr move) = over_stays h move

-- A bill that is paid or cancelled stays so for ever, with its amount and owner, whatever requests
-- and job runs follow. (Ids are unique and below their sequences, and a bill has an open
-- transaction only while it is in process, and then one at most; the amount that an upload extracts is
-- of whole kobo.)
pub paid_or_cancelled_stays :
    {w w' : World}
    → Reaches w w'
    → Consistent w
    → Balanced w.committed.bills w.committed.transactions
    → (bill_id : ℕ) (b : Bill) → get bill_id w.committed.bills ≡ some b
    → (b.status ≡ BillStatus.paid) ⊎ (b.status ≡ BillStatus.cancelled)
    → (b' : Bill) × (get bill_id w'.committed.bills ≡ some b')
      × (b'.status ≡ b.status)
      × (b'.amount ≡ b.amount)
      × (b'.user_id ≡ b.user_id)
paid_or_cancelled_stays Reaches.here c bal bill_id b e h = (b, e, refl, refl, refl)
paid_or_cancelled_stays (Reaches.then r s) c bal bill_id b e h =
    let (b₁, e₁, s₁, a₁, u₁) = paid_or_cancelled_stays r c bal bill_id b e h in
    let (b₂, e₂, f) = Reaches-Follow r s c bal bill_id b₁ e₁ in
    let same = followed_status b₁ b₂ (rw s₁ h) f.status in
    (b₂, e₂, same ∙ s₁, f.amount ∙ a₁, f.user_id ∙ u₁)
