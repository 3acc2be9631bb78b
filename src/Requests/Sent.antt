-- ===== src/Requests/Sent.antt =====
-- No request and no job sends a second transfer under a reference.
use autopay.Base.{
  ℕ, ◌≡◌, ◌⊎◌, ◌∙◌, inl, inr, refl, ap, sym, subst, List, [], ◌∷◌, String, arith, Table, Bool-cases,
  UniqueKeys, get_of_KeysBelow, get_of_first,
}
use text.Mathlib.TextPositions.{eq_refl}
use autopay.Models.{Transaction}
use autopay.Session.{Result, ok, err, Transfer, World}
use autopay.Provider.{PaymentProvider}
use autopay.Payout.Charge.{has_reference, new_reference}
use autopay.Payout.Execute.{debit_of}
use autopay.Payout.Recurrence.{schedule_recurrence}
use autopay.Bills.{BillActionResponse, BillCreateRequest, create_bill, pay_bill, cancel_bill}
use autopay.Bills.Pay.{Settled, pay_bill_settles}
use autopay.Webhooks.{WebhookEvent, is_recorded, dispatch, nomba_webhook}
use autopay.Webhooks.Replay.{noted, dispatch-Ends, handled_new, recorded-Same}
use autopay.Scheduler.{reevaluate, reevaluate_all, spawn, spawn_all}
use autopay.Requests.Paid.{Paid, Settled-Paid}
use autopay.Requests.Sequences.{Advances, pay_bill-Advances}
use autopay.Requests.Keys.{Consistent, unparsed}
use autopay.Requests.Effects.{TransactionRewrite}
use autopay.Requests.Rewrites.{dispatch-Rewrites}
use autopay.Requests.References.{
  AllKnown, AllDistinct, unknown, new_known, unsent, AllKnown-put, AllKnown-put_new,
}

-- Every transfer whose call returned has a committed transaction with its reference, and no two have the
-- same.
pub record Traced (w : World) : Type 0 where
  pub known : AllKnown w.sent w.committed.transactions
  pub distinct : AllDistinct w.sent

-- No call for a transfer returns and no transaction is added, and none loses its reference.
abbrev pub Quiet : World → World → Type 0
Quiet w w' =
    (w'.sent ≡ w.sent) × TransactionRewrite w.committed.transactions w'.committed.transactions

rewritten_known :
    (ts : List Transfer) (t t' : Table Transaction)
    → UniqueKeys t
    → AllKnown ts t
    → TransactionRewrite t t'
    → AllKnown ts t'
rewritten_known ts t t' unique known (inl e) = rw e known
rewritten_known ts t t' unique known (inr (k, x, x', r, found, same, e)) =
    rw e (AllKnown-put k x x' ts t (get_of_first (has_reference r) k x t unique found) same known)

module _ (w : World) (consistent : Consistent w) (traced : Traced w) where
  pub quiet-Traced : (w' : World) → Quiet w w' → Traced w'
  quiet-Traced w' (sent, rows) = record {
    known = rw sent (rewritten_known w.sent _ _ consistent.transactions.1 traced.known rows);
    distinct = rw sent traced.distinct;
  }

  module _ (provider : PaymentProvider) (fee : ℕ) (hex : String) where
    pub Paid-Traced : (w' : World) → Paid provider fee hex w w' → Traced w'
    Paid-Traced w' p =
        let reference = new_reference p.bill_id hex in
        let new = debit_of provider fee p.bill_id p.bill reference in
        let table = w.committed.transactions in
        let free =
          get_of_KeysBelow w.next_transaction w.next_transaction table consistent.transactions.0
            (omega arith) in
        record {
          known =
              rw (p.sent, p.transactions)
                (
                  rw p.reference (
                      new_known reference w.next_transaction new table
                        (unfold debit_of in eq_refl reference)),
                  AllKnown-put_new w.next_transaction new w.sent table free traced.known,
                );
          distinct = rw p.sent (
            rw p.reference
                (unsent reference w.sent table traced.known (unknown reference table p.fresh)),
            traced.distinct,
          );
        }

    settled :
        (user_id bill_id : ℕ) (x : Result BillActionResponse × World)
        → Settled provider fee user_id bill_id hex w x
        → Advances w x
        → Traced x.1
    settled user_id bill_id (err e, w') (c, sent, _) a =
        quiet-Traced w' (sent, inl (ap (λ d. d.transactions) c))
    settled user_id bill_id (ok r, w') s (b, t) =
        Paid-Traced w' (Settled-Paid provider fee hex user_id bill_id r w w' s b t)

    pub pay_bill-Traced :
        (user_id bill_id : ℕ) → Traced (pay_bill provider fee user_id bill_id hex w).1
    pay_bill-Traced user_id bill_id =
        settled user_id bill_id _ (pay_bill_settles provider fee user_id bill_id hex w)
          (pay_bill-Advances provider fee bill_id hex user_id w)

module _ (w : World) where
  pub create-Quiet :
      (user_id : ℕ) (payload : BillCreateRequest) → Quiet w (create_bill user_id payload w).1
  unfolding create_bill
  create-Quiet user_id payload = (ground arith, inl (ground arith))

  pub cancel-Quiet : (user_id bill_id : ℕ) → Quiet w (cancel_bill user_id bill_id w).1
  unfolding cancel_bill
  cancel-Quiet user_id bill_id = (ground arith, inl (ground arith))

  abbrev pub Silent : World → Type 0
  Silent w' = (w'.sent ≡ w.sent) × (w'.committed.transactions ≡ w.committed.transactions)

  reevaluate-Silent : (fee now k : ℕ) → Silent (reevaluate fee now k w)
  unfolding reevaluate
  reevaluate-Silent fee now k = ground arith

  spawn-Silent : (k : ℕ) → Silent (spawn k w)
  unfolding spawn schedule_recurrence
  spawn-Silent k = ground arith

  module _ (provider : String) (event : WebhookEvent) where
    dispatched-Quiet :
        (x : World)
        → x.sent ≡ w.sent
        → (x.committed ≡ x.work) ⊎ (x.committed ≡ w.committed)
        → TransactionRewrite w.committed.transactions x.work.transactions
        → Quiet w (record x { work = x.committed })
    dispatched-Quiet x sent (inl all) rows = (sent, rw all rows)
    dispatched-Quiet x sent (inr nothing) rows = (sent, inl (ap (λ d. d.transactions) nothing))

    delivered-Quiet : Quiet w (nomba_webhook provider (ok event) w).1
    delivered-Quiet =
        elim (Bool-cases (is_recorded provider event.event_id w.committed.webhook_events)) [
          | inl old ↦
              let same = recorded-Same provider event w old in (same.sent, inl same.transactions)
          | inr new ↦
              let w₀ = noted provider event w in
              let (frame, ends) = dispatch-Ends event w₀ provider in
              subst (Quiet w) (sym (handled_new provider event w new)) (
                dispatched-Quiet (dispatch provider event w₀).1 frame.sent ends
                  (dispatch-Rewrites event w₀ provider).1)
        ]

  pub webhook-Quiet :
      (provider : String) (parsed : Result WebhookEvent)
      → Quiet w (nomba_webhook provider parsed w).1
  webhook-Quiet provider (ok event) = delivered-Quiet provider event
  webhook-Quiet provider (err e) = subst (Quiet w) (sym (unparsed provider w e)) (refl, inl refl)

pub reevaluate_all-Silent :
    (fee now : ℕ) (ks : List ℕ) (w : World) → Silent w (reevaluate_all fee now ks w)
unfolding reevaluate_all
reevaluate_all-Silent fee now [] w = (refl, refl)
reevaluate_all-Silent fee now (k ∷ ks) w =
    let (s, t) = reevaluate_all-Silent fee now ks (reevaluate fee now k w) in
    let (s', t') = reevaluate-Silent w fee now k in (s ∙ s', t ∙ t')

pub spawn_all-Silent : (ks : List ℕ) (w : World) → Silent w (spawn_all ks w)
unfolding spawn_all
spawn_all-Silent [] w = (refl, refl)
spawn_all-Silent (k ∷ ks) w =
    let (s, t) = spawn_all-Silent ks (spawn k w) in
    let (s', t') = spawn-Silent w k in (s ∙ s', t ∙ t')
