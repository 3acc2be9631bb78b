-- ===== src/Requests/Ahead.antt =====
-- What one request, or one run of the minute job, means for the life of the bills.
use autopay.Base.{
  ℕ, ◌≤◌, ◌≡◌, ◌⊎◌, inl, inr, refl, sym, subst, ap, Bool, true, ◌&&◌, none, some, String, arith,
  Table, get, put, UniqueKeys, get-put, ◌≢◌, get_of_KeysBelow, Option-cases, Bool-cases,
}
use autopay.Models.{Bill, BillStatus}
use autopay.Session.{Result, ok, err, World}
use autopay.Provider.{PaymentProvider}
use autopay.Payout.Whole.{IsPayable}
use autopay.Payout.Execute.{debit_of}
use autopay.Bills.{BillActionResponse, BillCreateRequest, create_bill}
use autopay.Bills.Pay.{Settled}
use autopay.Bills.Guards.{Cancelled}
use autopay.Webhooks.{WebhookEvent, nomba_webhook, dispatch, is_recorded}
use autopay.Webhooks.Replay.{noted, handled_new, recorded-Same, dispatch-Ends}
use autopay.Scheduler.{is_due, process_scheduled_bills}
use autopay.Scheduler.Reevaluate.{settled_bill, is_covered, process_scheduled_bills_outcome}
use autopay.Requests.Paid.{Paid, Settled-Paid}
use autopay.Requests.Sequences.{Advances}
use autopay.Requests.Keys.{Consistent, unparsed}
use autopay.Requests.Rewrites.{dispatch-Effect}
use autopay.Requests.Jobs.{created, create_rows}
use autopay.Requests.Sent.{reevaluate_all-Silent}
use autopay.Requests.Lifecycle.{
  Move, Follows, stays, Follow, in_process, waits, Balanced, put-Follow,
}
use autopay.Requests.Balance.{
  Onwards, unchanged-Onwards, Effect-Onwards, bills-Onwards, begun-Onwards,
}

pub new-Follow : (n : ℕ) (b : Bill) (t : Table Bill) → get n t ≡ none → Follow t (put n b t)
new-Follow n b t free k c e = ground (arith, get-put n k b t)

pub new_more :
    (n : ℕ) (b : Bill) (t : Table Bill)
    → get n t ≡ none
    → (k : ℕ) → in_process (get k t) ≤ in_process (get k (put n b t))
new_more n b t free k = ground (arith, get-put n k b t)

waits_of : (b : Bill) → IsPayable b → waits b.status ≡ true
waits_of b h = ground arith

cancel-Follows :
    (b : Bill)
    → b.status ≢ BillStatus.paid
    → b.status ≢ BillStatus.processing
    → Follows b (record b { status = BillStatus.cancelled })
cancel-Follows b np nr = record {
  status = elim (Bool-cases (waits b.status)) [
    | inl e ↦ inr (Move.cancel e)
    | inr e ↦ inl (ground arith)
  ];
  amount = refl;
  user_id = refl;
}

cancel_more :
    (k : ℕ) (b b' : Bill) (t : Table Bill)
    → get k t ≡ some b
    → b.status ≢ BillStatus.processing
    → (i : ℕ) → in_process (get i t) ≤ in_process (get i (put k b' t))
cancel_more k b b' t e np i = ground (arith, get-put k i b' t)

due_status :
    (now : ℕ) (b : Bill) (covered : Bool)
    → (is_due now b && covered) ≡ true
    → b.status ≡ BillStatus.scheduled
due_status now b covered h = ground arith

module _ (w : World) (consistent : Consistent w)
    (balanced : Balanced w.committed.bills w.committed.transactions) where
  abbrev Ahead : World → Type 0
  Ahead w' = Onwards w.committed w'.committed

  abbrev unique : UniqueKeys w.committed.transactions
  unique = consistent.transactions.1

  pub same-Ahead : (w' : World) → w'.committed ≡ w.committed → Ahead w'
  same-Ahead w' e =
      unchanged-Onwards w.committed w'.committed unique balanced (ap (λ d. d.bills) e)
        (ap (λ d. d.transactions) e)

  pub create-Ahead :
      (user_id : ℕ) (payload : BillCreateRequest) → Ahead (create_bill user_id payload w).1
  create-Ahead user_id payload =
      let (bills, txns, _, _) = create_rows w consistent user_id payload in
      let table = w.committed.bills in
      let new = created user_id payload in
      let free = get_of_KeysBelow w.next_bill w.next_bill table consistent.bills.0 (omega arith) in
      bills-Onwards w.committed (create_bill user_id payload w).1.committed unique balanced
        (rw bills (new-Follow w.next_bill new table free))
        (rw bills (new_more w.next_bill new table free)) txns

  module _ (provider : PaymentProvider) (fee : ℕ) (hex : String) where
    pub Paid-Ahead : (w' : World) → Paid provider fee hex w w' → Ahead w'
    unfolding debit_of
    Paid-Ahead w' p =
        let free =
          get_of_KeysBelow w.next_transaction w.next_transaction w.committed.transactions
            consistent.transactions.0 (omega arith) in
        begun-Onwards w.committed w'.committed unique balanced w.next_transaction p.bill_id p.bill _
          p.found (waits_of p.bill p.payable) free refl p.bills p.transactions

    pub Settled-Ahead :
        (user_id bill_id : ℕ) (x : Result BillActionResponse × World)
        → Settled provider fee user_id bill_id hex w x
        → Advances w x
        → Ahead x.1
    Settled-Ahead user_id bill_id (err e, w') (c, _, _) a = same-Ahead w' c
    Settled-Ahead user_id bill_id (ok r, w') s (b, t) =
        Paid-Ahead w' (Settled-Paid provider fee hex user_id bill_id r w w' s b t)

  pub Cancelled-Ahead :
      (user_id bill_id : ℕ) (x : Result BillActionResponse × World)
      → Cancelled user_id bill_id w x
      → Ahead x.1
  Cancelled-Ahead user_id bill_id (err e, w') (c, _, _) = same-Ahead w' c
  Cancelled-Ahead user_id bill_id (ok r, w') (bill, eb, _, np, nr, bills, _, txns, _, _) =
      bills-Onwards w.committed w'.committed unique balanced
        (rw bills (put-Follow bill_id bill _ w.committed.bills eb (cancel-Follows bill np nr)))
        (rw bills (cancel_more bill_id bill _ w.committed.bills eb nr)) txns

  module _ (provider : String) (event : WebhookEvent) where
    dispatched-Ahead :
        (x : World)
        → (x.committed ≡ x.work) ⊎ (x.committed ≡ w.committed)
        → Onwards w.committed x.work
        → Ahead x
    dispatched-Ahead x (inl all) onwards = rw all onwards
    dispatched-Ahead x (inr nothing) onwards = same-Ahead x nothing

    noted-Onwards :
        let w₀ = noted provider event w in Onwards w.committed (dispatch provider event w₀).1.work
    noted-Onwards =
        let w₀ = noted provider event w in
        Effect-Onwards w₀.work (dispatch provider event w₀).1.work unique balanced
          (dispatch-Effect event w₀ provider)

    delivered-Ahead : Ahead (nomba_webhook provider (ok event) w).1
    delivered-Ahead =
        elim (Bool-cases (is_recorded provider event.event_id w.committed.webhook_events)) [
          | inl old ↦
              let same = recorded-Same provider event w old in
              unchanged-Onwards w.committed (nomba_webhook provider (ok event) w).1.committed unique
                balanced same.bills same.transactions
          | inr new ↦
              let w₀ = noted provider event w in
              let (frame, ends) = dispatch-Ends event w₀ provider in
              subst Ahead (sym (handled_new provider event w new))
                (dispatched-Ahead (dispatch provider event w₀).1 ends noted-Onwards)
        ]

  pub webhook-Ahead :
      (provider : String) (parsed : Result WebhookEvent) → Ahead (nomba_webhook provider parsed w).1
  webhook-Ahead provider (ok event) = delivered-Ahead provider event
  webhook-Ahead provider (err e) =
      subst Ahead (sym (unparsed provider w e)) (same-Ahead (record w { work = w.committed }) refl)

  module _ (fee now : ℕ) (b : Bill) where
    abbrev is_handed_over : Bool
    is_handed_over = is_due now b && is_covered fee (get b.user_id w.committed.users) b

    handed_over-Follows : Follows b (settled_bill fee now w b)
    handed_over-Follows = elim (Bool-cases is_handed_over) [
      | inl e ↦
          let due : b.status ≡ BillStatus.scheduled = due_status now b _ e in
          let move : Move b.status BillStatus.pending = rw due Move.cover in
          rw e (record { status = inr move; amount = refl; user_id = refl })
      | inr e ↦ rw e (stays b)
    ]

    handed_over_more : in_process (some b) ≤ in_process (some (settled_bill fee now w b))
    handed_over_more = elim (Bool-cases is_handed_over) [
      | inl e ↦
          let due : b.status ≡ BillStatus.scheduled = due_status now b _ e in
          rw (e, due) (omega arith)
      | inr e ↦ rw e (omega arith)
    ]

  pub scheduled-Ahead : (fee now : ℕ) → Ahead (process_scheduled_bills fee now w)
  unfolding process_scheduled_bills
  scheduled-Ahead fee now =
      let after = process_scheduled_bills fee now w in
      let one = process_scheduled_bills_outcome fee now w consistent.bills.1 in
      let txns : after.committed.transactions ≡ w.committed.transactions =
        (reevaluate_all-Silent fee now _ w).1 in
      bills-Onwards w.committed after.committed unique balanced
        (λ k b e. (settled_bill fee now w b, (one k b e).0, handed_over-Follows fee now b))
        (λ k. elim (Option-cases (get k w.committed.bills)) [
          | inl e ↦ rw e (omega arith)
          | inr (b, e) ↦ rw (e, (one k b e).0) (handed_over_more fee now b)
        ])
        txns
