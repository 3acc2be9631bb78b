-- ===== src/Requests/Keys.antt =====
-- Whatever requests and jobs follow one another, the ids of bills and transactions stay unique and
-- below their sequences.
use autopay.Base.{
  ℕ, ◌≤◌, ◌≡◌, Table, ◌⊎◌, inl, inr, refl, sym, subst, true, String, arith, Bool-cases,
}
use autopay.Models.{Bill, Transaction}
use autopay.Payout.Charge.{has_reference}
use autopay.Session.{Result, Exn, ok, err, World}
use autopay.Provider.{PaymentProvider}
use autopay.Bills.{BillActionResponse, pay_bill}
use autopay.Bills.Pay.{Settled, pay_bill_settles}
use autopay.Webhooks.{WebhookEvent, is_recorded, dispatch, nomba_webhook}
use autopay.Webhooks.Replay.{Frame, dispatch-Ends, noted, handled_new, recorded-Same}
use autopay.Requests.{Fits, Fits-put_known, Fits-put-first, Fits-mono, Fits-put_new}
use autopay.Requests.Paid.{Paid, Settled-Paid}
use autopay.Requests.Sequences.{Advances, pay_bill-Advances}
use autopay.Requests.Effects.{BillRewrite, TransactionRewrite, Rewrites}
use autopay.Requests.Rewrites.{dispatch-Rewrites}

-- The committed bills and transactions have unique ids below their sequences.
pub record Consistent (w : World) : Type 0 where
  pub bills : Fits w.next_bill w.committed.bills
  pub transactions : Fits w.next_transaction w.committed.transactions

-- A request that was no verified event changes nothing that is committed.
pub unparsed :
    (provider : String) (w : World) (e : Exn)
    → (nomba_webhook provider (err e) w).1 ≡ record w { work = w.committed }
unfolding nomba_webhook
unparsed provider w (Exn.payment e) = ground arith
unparsed provider w _ = refl

rewritten_bills : (n : ℕ) (t t' : Table Bill) → Fits n t → BillRewrite t t' → Fits n t'
rewritten_bills n t t' fits (inl e) = rw e fits
rewritten_bills n t t' fits (inr (k, b, b', found, e)) = rw e (Fits-put_known n k b b' t fits found)

rewritten_transactions :
    (m : ℕ) (t t' : Table Transaction) → Fits m t → TransactionRewrite t t' → Fits m t'
rewritten_transactions m t t' fits (inl e) = rw e fits
rewritten_transactions m t t' fits (inr (k, x, x', r, found, _, e)) =
    rw e (Fits-put-first m k (has_reference r) x x' t fits found)

module _ (w : World) (consistent : Consistent w) where
  pub same_rows :
      (w' : World)
      → w'.committed ≡ w.committed
      → w'.next_bill ≡ w.next_bill
      → w.next_transaction ≤ w'.next_transaction
      → Consistent w'
  same_rows w' c b t = record {
    bills = rw (c, b) consistent.bills;
    transactions = rw c (Fits-mono _ _ _ consistent.transactions t);
  }

  module _ (provider : PaymentProvider) (fee : ℕ) (hex : String) where
    pub Paid-Consistent : (w' : World) → Paid provider fee hex w w' → Consistent w'
    Paid-Consistent w' p = record {
      bills =
          rw (p.bills, p.next_bill)
            (Fits-put_known w.next_bill p.bill_id p.bill _ w.committed.bills consistent.bills
              p.found);
      transactions = rw p.transactions (
          Fits-put_new w.next_transaction w'.next_transaction _ w.committed.transactions
            consistent.transactions p.next_transaction);
    }

    settled :
        (user_id bill_id : ℕ) (x : Result BillActionResponse × World)
        → Settled provider fee user_id bill_id hex w x
        → Advances w x
        → Consistent x.1
    settled user_id bill_id (ok r, w') s (b, t) =
        Paid-Consistent w' (Settled-Paid provider fee hex user_id bill_id r w w' s b t)
    settled user_id bill_id (err e, w') (c, _, _) (b, t) = same_rows w' c b t

    pub pay_bill-Consistent :
        (user_id bill_id : ℕ) → Consistent (pay_bill provider fee user_id bill_id hex w).1
    pay_bill-Consistent user_id bill_id =
        settled user_id bill_id _ (pay_bill_settles provider fee user_id bill_id hex w)
          (pay_bill-Advances provider fee bill_id hex user_id w)

  module _ (provider : String) where
    module _ (event : WebhookEvent) where
      recorded_sequences :
          is_recorded provider event.event_id w.committed.webhook_events ≡ true
          → ((nomba_webhook provider (ok event) w).1.next_bill ≡ w.next_bill)
            × ((nomba_webhook provider (ok event) w).1.next_transaction ≡ w.next_transaction)
      unfolding nomba_webhook
      recorded_sequences h = ground arith

      replayed :
          is_recorded provider event.event_id w.committed.webhook_events ≡ true
          → Consistent (nomba_webhook provider (ok event) w).1
      replayed h =
          let same = recorded-Same provider event w h in
          let (b, t) = recorded_sequences h in
          record {
            bills = rw (same.bills, b) consistent.bills;
            transactions = rw (same.transactions, t) consistent.transactions;
          }

      dispatched-Consistent :
          (x : World)
          → Frame (noted provider event w) x
          → (x.committed ≡ x.work) ⊎ (x.committed ≡ w.committed)
          → Rewrites w.committed x.work
          → Consistent (record x { work = x.committed })
      dispatched-Consistent x frame (inl all) rewritten = record {
        bills = rw (all, frame.bill) (rewritten_bills _ _ _ consistent.bills rewritten.0);
        transactions =
            rw (all, frame.transaction)
              (rewritten_transactions _ _ _ consistent.transactions rewritten.1);
      }
      dispatched-Consistent x frame (inr nothing) rewritten = record {
        bills = rw (nothing, frame.bill) consistent.bills;
        transactions = rw (nothing, frame.transaction) consistent.transactions;
      }

      delivered : Consistent (nomba_webhook provider (ok event) w).1
      delivered =
          elim (Bool-cases (is_recorded provider event.event_id w.committed.webhook_events)) [
            | inl old ↦ replayed old
            | inr new ↦
                let w₀ = noted provider event w in
                let (frame, ends) = dispatch-Ends event w₀ provider in
                subst Consistent (sym (handled_new provider event w new)) (
                  dispatched-Consistent (dispatch provider event w₀).1 frame ends
                    (dispatch-Rewrites event w₀ provider))
          ]

    pub nomba_webhook-Consistent :
        (parsed : Result WebhookEvent) → Consistent (nomba_webhook provider parsed w).1
    nomba_webhook-Consistent (ok event) = delivered event
    nomba_webhook-Consistent (err e) =
        subst Consistent (sym (unparsed provider w e)) (same_rows _ refl refl (omega arith))
