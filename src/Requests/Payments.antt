-- ===== src/Requests/Payments.antt =====
-- The other requests that pay: a final confirmation in the bot's dialogue, and an upload.
use autopay.Base.{
  ℕ, ◌+◌, ◌≤◌, ◌≡◌, ◌⊎◌, inl, inr, refl, ap, sym, subst, ◌∙◌, Bool, not, ◌&&◌, ◌||◌, Option, some,
  String, arith, get, put, leb, str_eq, truthy, Bool-cases, KeysBelow, get-put_self, put-put,
}
use autopay.Models.{User, Bill, BillStatus}
use autopay.Session.{Exn, Result, ok, err, World, put_bill, with_session, ◌>>=◌}
use autopay.Agent.{Decision, DecisionResult}
use autopay.Provider.{PaymentProvider}
use autopay.Payout.{PayoutResult}
use autopay.Payout.Whole.{Executed, execute_payout_outcome}
use autopay.Bills.{BillActionResponse}
use autopay.Bills.Upload.{
  BillExtractionResult, Extraction, bill_of, settle_upload, act, answer, decision_of, store_and_act,
  use_extraction, upload_bill,
}
use autopay.Bills.Uploaded.{stored, free, answer_lost, answer_found}
use autopay.Conversation.Confirm.{commit_paid, pay_in_session}
use autopay.Requests.Paid.{Paid, Executed-Paid}
use autopay.Requests.Sequences.{Advances, execute_payout-Advances}

-- Nothing is committed and no transfer confirmed; the sequences may have moved on.
pub record Unchanged (w w' : World) : Type 0 where
  pub committed : w'.committed ≡ w.committed
  pub sent : w'.sent ≡ w.sent
  pub next_bill : w.next_bill ≤ w'.next_bill
  pub next_transaction : w.next_transaction ≤ w'.next_transaction

-- The world with one more bill.
abbrev pub added : Bill → World → World
added b w = record w { committed = put_bill w.next_bill b w.committed; next_bill = w.next_bill + 1 }

-- One bill is added, and nothing else.
pub record Added (b : Bill) (w w' : World) : Type 0 where
  pub bills : w'.committed.bills ≡ put w.next_bill b w.committed.bills
  pub transactions : w'.committed.transactions ≡ w.committed.transactions
  pub sent : w'.sent ≡ w.sent
  pub next_bill : w'.next_bill ≡ w.next_bill + 1
  pub next_transaction : w'.next_transaction ≡ w.next_transaction

module _ (provider : PaymentProvider) (fee : ℕ) (hex : String) where
  module _ (bill_id : ℕ) (w : World) where
    confirmed :
        (x : Result PayoutResult × World)
        → Executed provider fee bill_id hex (record w { work = w.committed }) x
        → Advances w x
        → Unchanged w (with_session (λ w'. commit_paid x) w).1
          ⊎ Paid provider fee hex w (with_session (λ w'. commit_paid x) w).1
    unfolding commit_paid
    confirmed (ok r, w₁) s (b, n) = inr (
        Executed-Paid provider fee hex bill_id r w (record w { work = w.committed }) w₁ refl refl
          refl refl s b n)
    confirmed (err e, w₁) (_, sent, committed, _) (b, n) = inl (record {
      committed = committed;
      sent = sent;
      next_bill = omega arith;
      next_transaction = n;
    })

    -- What the session of a final confirmation has committed.
    pub pay_in_session_rows :
        Unchanged w (pay_in_session provider fee hex bill_id w).1
        ⊎ Paid provider fee hex w (pay_in_session provider fee hex bill_id w).1
    unfolding pay_in_session
    pay_in_session_rows =
        confirmed _ (execute_payout_outcome provider fee bill_id hex _)
          (execute_payout-Advances provider fee bill_id hex (record w { work = w.committed }))

  module _ (now user_id : ℕ) (user : User) (w : World) where
    abbrev pub UploadRows : World → Type 0
    UploadRows w' =
        Unchanged w w'
        ⊎ ((b : Bill) × Added b w w')
        ⊎ ((b : Bill) × Paid provider fee hex (added b w) w')

    abbrev close : Result BillActionResponse × World → Result BillActionResponse × World
    close x = (x.0, record x.1 { work = x.1.committed })

    refused : UploadRows (record w { work = w.committed })
    refused = inl (record {
      committed = refl;
      sent = refl;
      next_bill = omega arith;
      next_transaction = omega arith;
    })

    module _ (x : BillExtractionResult) (keys : KeysBelow w.next_bill w.committed.bills) where
      abbrev opened : World
      opened = stored provider fee hex now user_id user w x keys

      abbrev new : Bill
      new = bill_of user_id x

      answered_rows :
          (d : DecisionResult) (message : String) (b : Bill) (w' : World)
          → get w.next_bill w'.work.bills ≡ some b
          → UploadRows (record w' { work = w'.work; committed = w'.work })
          → UploadRows (close (answer provider fee hex w.next_bill d message w')).1
      answered_rows d message b w' e rows =
          subst (λ y. UploadRows y.1)
            (sym (answer_found provider fee hex now user_id user w x keys d message w' b e)) rows

      settled_rows :
          (d : DecisionResult) (y : Result PayoutResult × World)
          → Executed provider fee w.next_bill hex opened y
          → Advances opened y
          → UploadRows
              (close
                (◌>>=◌ (λ _. settle_upload y) (answer provider fee hex w.next_bill d) opened)).1
      unfolding settle_upload
      settled_rows d (ok r, w₁) (b, owner, eb, eu, payable, c) (nb, n) =
          answered_rows d r.message _ (record w₁ { committed = w₁.work })
            (ap (get w.next_bill) c.bills ∙ get-put_self w.next_bill _ _)
            (inr (
              inr (
                new,
                Executed-Paid provider fee hex w.next_bill r (added new w) opened w₁ refl refl refl
                    refl (b, owner, eb, eu, payable, c) nb n,
              )))
      settled_rows d (err (Exn.http code detail), w₁) (users, sent, committed, _) (nb, n) =
          subst (λ y. UploadRows y.1)
            (sym (
              answer_lost provider fee hex now user_id user w x keys d
                "Bill created; payout deferred (see decision reason)."
                (record w₁ { work = w₁.committed })
                (ap (λ db. get w.next_bill db.bills) committed
                  ∙ free provider fee hex now user_id user w x keys)))
            (inl (record {
              committed = committed;
              sent = sent;
              next_bill = omega arith;
              next_transaction = n;
            }))
      settled_rows d (err _, w₁) (users, sent, committed, _) (nb, n) = inl (record {
        committed = committed;
        sent = sent;
        next_bill = omega arith;
        next_transaction = n;
      })

      kept_rows :
          (d : DecisionResult) (message : String) (b : Bill) (w' : World)
          → w'.work.bills ≡ put w.next_bill b w.committed.bills
          → w'.work.transactions ≡ w.committed.transactions
          → w'.sent ≡ w.sent
          → w'.next_bill ≡ w.next_bill + 1
          → w'.next_transaction ≡ w.next_transaction
          → UploadRows (close (answer provider fee hex w.next_bill d message w')).1
      kept_rows d message b w' bills txns sent nb n =
          answered_rows d message b w'
            (ap (get w.next_bill) bills ∙ get-put_self w.next_bill b w.committed.bills)
            (inr (
              inl (
                b,
                record {
                  bills = bills;
                  transactions = txns;
                  sent = sent;
                  next_bill = nb;
                  next_transaction = n;
                },
              )))

      acted_rows :
          (d : DecisionResult) (decision : Decision)
          → UploadRows
              (close (
                ◌>>=◌
                  (act provider fee hex w.next_bill new decision)
                  (answer provider fee hex w.next_bill d)
                  opened)).1
      unfolding act
      acted_rows d Decision.pay_now =
          settled_rows d _ (execute_payout_outcome provider fee w.next_bill hex opened)
            (execute_payout-Advances provider fee w.next_bill hex opened)
      acted_rows d Decision.schedule =
          let b : Bill = record new { status = BillStatus.scheduled } in
          kept_rows d "Bill scheduled for later evaluation." b
            (record opened { work = put_bill w.next_bill b opened.work })
            (put-put w.next_bill b new w.committed.bills) refl refl refl refl
      acted_rows d Decision.hold = kept_rows d "Bill created." new opened refl refl refl refl refl

      extracted_rows :
          UploadRows
            (close (
              use_extraction provider fee hex now user_id user
                (Extraction.extracted x)
                (record w { work = w.committed }))).1
      unfolding use_extraction store_and_act
      extracted_rows = elim (Bool-cases (str_eq x.vendor_name "" || leb x.amount.unscaled 0)) [
        | inl e ↦ rw e refused
        | inr e ↦ rw e (acted_rows (decision_of provider fee hex now user_id user new) _)
      ]

    extraction_rows :
        (e : Extraction)
        → KeysBelow w.next_bill w.committed.bills
        → UploadRows
            (close (
              use_extraction provider fee hex now user_id user e
                (record w { work = w.committed }))).1
    unfolding use_extraction
    extraction_rows (Extraction.failed message) keys = refused
    extraction_rows (Extraction.extracted x) keys = extracted_rows x keys

    -- What an upload has committed.
    pub upload_bill_rows :
        (has_file : Bool) (request_bill : Option String) (extraction : Extraction)
        → KeysBelow w.next_bill w.committed.bills
        → UploadRows
            (upload_bill provider fee hex now user_id user has_file request_bill extraction w).1
    unfolding upload_bill
    upload_bill_rows has_file request_bill extraction keys =
        elim (Bool-cases (not has_file && not (truthy request_bill))) [
          | inl e ↦ rw e refused
          | inr e ↦ rw e (extraction_rows extraction keys)
        ]
