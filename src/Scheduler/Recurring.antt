-- ===== src/Scheduler/Recurring.antt =====
-- `_process_recurring_bills`: what one session creates, and that it creates it again and again.
use autopay.Base.{
  ℕ, ◌+◌, ◌≤◌, ◌≡◌, refl, ◌∙◌, ap, sym, true, Option, some, arith, ◌==◌, if◌then◌else◌, get, put,
  truthy, KeysBelow, get-put, get-put_self, get-put_ne, key_below, KeysBelow-put, KeysBelow-mono,
}
use autopay.Models.{Bill}
use autopay.Session.{World}
use autopay.Payout.Recurrence.{period, next_of, schedule_recurrence}
use autopay.Scheduler.{is_recurrence_due, spawn}

-- A bill that `schedule_recurrence` acts on.
abbrev pub IsRecurring : Bill → Type 0
IsRecurring b = (b.is_recurring ≡ true) × (truthy b.recurrence_interval ≡ true)

-- The original after its date is moved.
abbrev pub moved : Bill → Bill
moved b = record b { next_recurrence_date = some (b.due_date + period b.recurrence_interval) }

module _ (k : ℕ) (b : Bill) (w : World) (keys : KeysBelow w.next_bill w.committed.bills)
    (found : get k w.committed.bills ≡ some b) (recurring : IsRecurring b) where
  pub spawn_effect :
      ((spawn k w).committed.bills
        ≡ put w.next_bill (next_of b) (put k (moved b) w.committed.bills))
      × ((spawn k w).next_bill ≡ w.next_bill + 1)
      × ((spawn k w).committed.users ≡ w.committed.users)
      × ((spawn k w).committed.transactions ≡ w.committed.transactions)
      × ((spawn k w).sent ≡ w.sent)
  unfolding spawn schedule_recurrence
  spawn_effect = ground arith

  kept_keys : KeysBelow (spawn k w).next_bill (spawn k w).committed.bills
  kept_keys =
      let (bills, next, _, _, _) = spawn_effect in
      let old =
        KeysBelow-put w.next_bill k (moved b) w.committed.bills keys
          (key_below w.next_bill k b w.committed.bills keys found) in
      let more = KeysBelow-mono w.next_bill (w.next_bill + 1) _ old (omega arith) in
      let new = KeysBelow-put (w.next_bill + 1) w.next_bill (next_of b) _ more (omega arith) in
      rw (bills, next) new

  -- The original, and the new bill under the next key.
  kept_original : get k (spawn k w).committed.bills ≡ some (moved b)
  kept_original =
      ap (get k) spawn_effect.0
      ∙ get-put_ne w.next_bill k (next_of b) _
          (let lt = key_below w.next_bill k b w.committed.bills keys found in omega arith)
      ∙ get-put_self k (moved b) w.committed.bills

  new_bill : get w.next_bill (spawn k w).committed.bills ≡ some (next_of b)
  new_bill = ap (get w.next_bill) spawn_effect.0 ∙ get-put_self w.next_bill (next_of b) _

  -- The session of a recurring bill adds one scheduled bill under a new key, with the original's
  -- user, vendor, account and amount, due one period after the original's due date and with no
  -- attempt counted; it moves the original's next date there, keeps every other bill and all
  -- wallets and transactions, and sends nothing. (Bill ids are below the sequence.)
  pub spawn_outcome :
      (i : ℕ)
      → (get i (spawn k w).committed.bills ≡ (
          if w.next_bill == i
          then some (next_of b)
          else if k == i
          then some (moved b)
          else get i w.committed.bills))
        × ((spawn k w).next_bill ≡ w.next_bill + 1)
        × ((spawn k w).committed.users ≡ w.committed.users)
        × ((spawn k w).committed.transactions ≡ w.committed.transactions)
        × ((spawn k w).sent ≡ w.sent)
  spawn_outcome i =
      let (bills, next, users, txns, sent) = spawn_effect in
      (
        ap (get i) bills
            ∙ get-put w.next_bill i (next_of b) (put k (moved b) w.committed.bills)
            ∙ ap (λ (o : Option Bill). if w.next_bill == i then some (next_of b) else o)
                (get-put k i (moved b) w.committed.bills),
        next,
        users,
        txns,
        sent,
      )

next_of-moved : (b : Bill) → next_of (moved b) ≡ next_of b
unfolding next_of
next_of-moved b = refl

module _ (now k : ℕ) (b : Bill) (w : World) where
  -- A recurring bill whose due date lies a period or more back is selected again after its session,
  -- since its next date is computed from the due date, which does not move; a second session
  -- creates a second bill, equal in every field to the first, and leaves the original selected for
  -- the next run too. (Bill ids are below the sequence.)
  pub recurrence_repeats :
      KeysBelow w.next_bill w.committed.bills
      → get k w.committed.bills ≡ some b
      → IsRecurring b
      → b.due_date + period b.recurrence_interval ≤ now
      → let w₂ = spawn k (spawn k w) in
        (get w.next_bill w₂.committed.bills ≡ some (next_of b))
        × (get (w.next_bill + 1) w₂.committed.bills ≡ some (next_of b))
        × (get k w₂.committed.bills ≡ some (moved b))
        × (is_recurrence_due now (moved b) ≡ true)
  recurrence_repeats keys found recurring past =
      let w₁ = spawn k w in
      let keys₁ = kept_keys k b w keys found recurring in
      let found₁ = kept_original k b w keys found recurring in
      let (_, next, _, _, _) = spawn_effect k b w keys found recurring in
      let (bills₂, _, _, _, _) = spawn_effect k (moved b) w₁ keys₁ found₁ recurring in
      let first_new = new_bill k b w keys found recurring in
      let second_new = new_bill k (moved b) w₁ keys₁ found₁ recurring in
      let lt = key_below w.next_bill k b w.committed.bills keys found in
      (
        ap (get w.next_bill) bills₂
            ∙ get-put_ne w₁.next_bill w.next_bill (next_of (moved b)) _ (omega arith)
            ∙ get-put_ne k w.next_bill (moved (moved b)) w₁.committed.bills (omega arith)
            ∙ first_new,
        ap (λ (n : ℕ). get n (spawn k w₁).committed.bills) (sym next)
            ∙ second_new
            ∙ ap (λ (x : Bill). some x) (next_of-moved b),
        kept_original k (moved b) w₁ keys₁ found₁ recurring,
        (let r = recurring.0 in ground arith),
      )
