-- ===== src/Requests/Paid.antt =====
-- What a payment that returned has done to the tables, whichever request it was made by.
use autopay.Base.{ℕ, ◌<◌, ◌≡◌, String, none, some, ◌∷◌, get, put, first, ap, ◌∙◌, sym}
use autopay.Models.{Bill, BillStatus}
use autopay.Session.{ok, Transfer, World}
use autopay.Provider.{PaymentProvider}
use autopay.Payout.{PayoutResult}
use autopay.Payout.Charge.{has_reference, new_reference}
use autopay.Payout.Execute.{debit_of}
use autopay.Payout.Whole.{IsPayable, Executed}
use autopay.Bills.{BillActionResponse}
use autopay.Bills.Pay.{Settled}

module _ (provider : PaymentProvider) (fee : ℕ) (hex : String) where
  -- One payable bill is in process, with one new debit row and one transfer under a new reference.
  pub record Paid (w w' : World) : Type 0 where
    pub bill_id : ℕ
    pub bill : Bill
    pub transfer : Transfer
    pub found : get bill_id w.committed.bills ≡ some bill
    pub payable : IsPayable bill
    pub sent : w'.sent ≡ transfer ∷ w.sent
    pub reference : transfer.reference ≡ new_reference bill_id hex
    pub bills :
        w'.committed.bills
        ≡ put bill_id (record bill { status = BillStatus.processing }) w.committed.bills
    pub transactions :
        w'.committed.transactions
        ≡ put w.next_transaction
            (debit_of provider fee bill_id bill (new_reference bill_id hex))
            w.committed.transactions
    pub fresh : first (has_reference (new_reference bill_id hex)) w.committed.transactions ≡ none
    pub next_bill : w'.next_bill ≡ w.next_bill
    pub next_transaction : w.next_transaction < w'.next_transaction

  pub Settled-Paid :
      (user_id bill_id : ℕ) (r : BillActionResponse) (w w' : World)
      → Settled provider fee user_id bill_id hex w (ok r, w')
      → w'.next_bill ≡ w.next_bill
      → w.next_transaction < w'.next_transaction
      → Paid w w'
  Settled-Paid user_id bill_id r w w'
        (bill, _, t, found, _, _, payable, _, sent, _, named, _, _, bills, txns, fresh, _) b n =
      record {
        bill_id = bill_id;
        bill = bill;
        transfer = t;
        found = found;
        payable = payable;
        sent = sent;
        reference = named;
        bills = bills;
        transactions = txns;
        fresh = fresh;
        next_bill = b;
        next_transaction = n;
      }

  -- The session `s` of a payout that returned, once it is committed: it was opened on the rows of `w`.
  module _ (bill_id : ℕ) (r : PayoutResult) (w s w₁ : World)
      (bills : s.work.bills ≡ w.committed.bills)
      (transactions : s.work.transactions ≡ w.committed.transactions) (sent : s.sent ≡ w.sent)
      (next : s.next_transaction ≡ w.next_transaction) where
    pub Executed-Paid :
        Executed provider fee bill_id hex s (ok r, w₁)
        → w₁.next_bill ≡ w.next_bill
        → w.next_transaction < w₁.next_transaction
        → Paid w (record w₁ { committed = w₁.work })
    Executed-Paid (bill, user, found, _, payable, c) b n = record {
      bill_id = bill_id;
      bill = bill;
      transfer = c.transfer;
      found = ap (get bill_id) (sym bills) ∙ found;
      payable = payable;
      sent = c.sent ∙ ap (λ ts. c.transfer ∷ ts) sent;
      reference = c.reference;
      bills = c.bills ∙ ap (put _ _) bills;
      transactions = rw (sym next, sym transactions) c.transactions;
      fresh = ap (first _) (sym transactions) ∙ c.fresh;
      next_bill = b;
      next_transaction = n;
    }
