-- ===== src/Bills/Uploaded.antt =====
-- `upload_bill`: the bill, the payout and the answer agree.
use autopay.Base.{
  ℕ, ◌+◌, ◌-◌, ◌≡◌, ◌⊎◌, ◌∙◌, inl, inr, refl, ap, sym, Bool, not, ◌&&◌, ◌||◌, Option, none, some,
  String, ◌∷◌, arith, str_eq, truthy, leb, get, put, Bool-cases, KeysBelow, get_of_KeysBelow,
  get-put_self,
}
use autopay.Models.{User, Bill, BillStatus}
use autopay.Session.{Exn, Result, ok, err, Transfer, World, put_bill, ◌>>=◌}
use autopay.Audit.{audit_bill_created}
use autopay.Agent.{Decision, DecisionResult}
use autopay.Provider.{PaymentProvider}
use autopay.Payout.{PayoutResult}
use autopay.Payout.Charge.{new_reference}
use autopay.Payout.Whole.{Executed, raised-Asked, execute_payout_outcome}
use autopay.Bills.{BillActionResponse}
use autopay.Bills.Upload.{
  BillExtractionResult, Extraction, IsWhole, kobo_of, bill_of, settle_upload, act, answer,
  decision_of, store_and_act, use_extraction, upload_bill,
}

module _ (provider : PaymentProvider) (fee : ℕ) (hex : String) (now user_id : ℕ) (user : User)
    (w : World) where
  -- The agent's decision on a bill of the user.
  abbrev decided : Bill → Decision
  decided b = (decision_of provider fee hex now user_id user b).decision

  -- Only the bill is stored.
  abbrev StoredOnly : Bill → World → Type 0
  StoredOnly b w' =
      (((decided b ≡ Decision.hold) × (b.status ≡ BillStatus.pending))
        ⊎ ((decided b ≡ Decision.schedule) × (b.status ≡ BillStatus.scheduled)))
      × (w'.committed.users ≡ w.committed.users)
      × (w'.committed.transactions ≡ w.committed.transactions)
      × (w'.sent ≡ w.sent)
      × (w'.asked ≡ w.asked)

  -- The bill is stored and its payment is on the way.
  abbrev StoredAndPaid : Bill → World → Type 0
  StoredAndPaid b w' =
      (owner : User) × (t : Transfer) × (get user_id w.committed.users ≡ some owner)
      × (decided b ≡ Decision.pay_now)
      × (b.status ≡ BillStatus.processing)
      × (w'.sent ≡ t ∷ w.sent)
      × (w'.asked ≡ t ∷ w.asked)
      × (t.reference ≡ new_reference w.next_bill hex)
      × (t.amount_kobo ≡ b.amount)
      × (w'.committed.users
          ≡ put user_id (record owner { balance = owner.balance - (b.amount + fee) })
              w.committed.users)

  -- The gateway was asked for no transfer, or for one, after the decision to pay.
  abbrev AskedForUpload : Extraction → World → Type 0
  AskedForUpload (Extraction.failed message) w' = w'.asked ≡ w.asked
  AskedForUpload (Extraction.extracted x) w' =
      (w'.asked ≡ w.asked)
      ⊎ ((t : Transfer) × (decided (bill_of user_id x) ≡ Decision.pay_now)
          × (w'.asked ≡ t ∷ w.asked)
          × (t.reference ≡ new_reference w.next_bill hex)
          × (t.amount_kobo ≡ kobo_of x.amount))

  -- What an upload has done, by how it ended.
  abbrev pub Uploaded : Extraction → Result BillActionResponse × World → Type 0
  Uploaded extraction (ok response, w') =
      (x : BillExtractionResult) × (b : Bill) × (extraction ≡ Extraction.extracted x)
      × (get w.next_bill w'.committed.bills ≡ some b)
      × (response.bill_id ≡ w.next_bill)
      × (response.bill ≡ b)
      × (response.decision ≡ some (decided b))
      × (b ≡ record (bill_of user_id x) { status = b.status })
      × (StoredOnly b w' ⊎ StoredAndPaid b w')
  Uploaded extraction (err e, w') =
      (w'.committed ≡ w.committed) × (w'.sent ≡ w.sent) × AskedForUpload extraction w'

  abbrev pub Closed : Result BillActionResponse × World → Result BillActionResponse × World
  Closed (r, w') = (r, record w' { work = w'.committed })

  module _ (x : BillExtractionResult) (keys : KeysBelow w.next_bill w.committed.bills) where
    abbrev pub bill : Bill
    bill = bill_of user_id x

    -- The session after step 2.
    abbrev pub stored : World
    stored =
        (audit_bill_created user_id w.next_bill (kobo_of x.amount) "paystack" (record w {
          work = put_bill w.next_bill bill w.committed;
          next_bill = w.next_bill + 1;
        })).1

    pub free : get w.next_bill w.committed.bills ≡ none
    free = get_of_KeysBelow w.next_bill w.next_bill w.committed.bills keys (omega arith)

    module _ (d : DecisionResult) (message : String) (w' : World) where
      abbrev pub answered : Result BillActionResponse × World
      answered = Closed (answer provider fee hex w.next_bill d message w')

      pub answer_lost :
          get w.next_bill w'.work.bills ≡ none
          → answered ≡ (err Exn.invalid_request, record w' { committed = w'.work })
      unfolding answer
      answer_lost e = ground arith

      pub answer_found :
          (b : Bill)
          → get w.next_bill w'.work.bills ≡ some b
          → answered ≡ (
            ok (record {
              bill_id = w.next_bill;
              bill = b;
              message = message;
              decision = some d.decision;
              decision_reason = some d.reason;
            }),
            record w' { committed = w'.work },
          )
      unfolding answer
      answer_found b e = ground arith

      -- The new bill is committed with a status, and nothing else.
      kept :
          (b : Bill)
          → d.decision ≡ decided b
          → b ≡ record bill { status = b.status }
          → get w.next_bill w'.work.bills ≡ some b
          → StoredOnly b (record w' { committed = w'.work })
          → Uploaded (Extraction.extracted x) answered
      kept b same own e stored_only =
          rw (answer_found b e) (x, b, refl, e, refl, refl, ap some same, own, inl stored_only)

    asked_for :
        (b : Bill) (w' : World)
        → b ≡ bill
        → decided bill ≡ Decision.pay_now
        → (w'.asked ≡ stored.asked)
          ⊎ ((c : Bill) × (t : Transfer) × (get w.next_bill stored.work.bills ≡ some c)
              × (w'.asked ≡ t ∷ stored.asked)
              × (t.reference ≡ new_reference w.next_bill hex)
              × (t.amount_kobo ≡ c.amount))
        → AskedForUpload (Extraction.extracted x) w'
    asked_for b w' own pays (inl same) = inl same
    asked_for b w' own pays (inr (c, t, found, one, named, amount)) =
        let new = get-put_self w.next_bill bill w.committed.bills in
        let same : c ≡ bill = cc in
        inr (t, pays, one, named, amount ∙ ap (λ (c : Bill). c.amount) same)

    abbrev d : DecisionResult
    d = decision_of provider fee hex now user_id user bill

    settled :
        (y : Result PayoutResult × World)
        → d.decision ≡ Decision.pay_now
        → Executed provider fee w.next_bill hex stored y
        → Uploaded
            (Extraction.extracted x)
            (Closed (◌>>=◌ (λ _. settle_upload y) (answer provider fee hex w.next_bill d) stored))
    unfolding settle_upload
    settled (ok r, w') pays (b, owner, eb, eu, payable, c) =
        let new = get-put_self w.next_bill bill w.committed.bills in
        let same : b ≡ bill = cc in
        let b' : Bill = record b { status = BillStatus.processing } in
        let found = ap (get w.next_bill) c.bills ∙ get-put_self w.next_bill b' _ in
        let own : b.user_id ≡ user_id = ap (λ (c : Bill). c.user_id) same in
        rw (answer_found d r.message (record w' { committed = w'.work }) b' found) (
          x,
          b',
          refl,
          found,
          refl,
          refl,
          ap (λ (c : Bill). some (decided c)) (sym same),
          ap (λ (c : Bill). record c { status = BillStatus.processing }) same,
          inr (
            owner,
            c.transfer,
            ap (λ (k : ℕ). get k w.committed.users) (sym own) ∙ eu,
            ap decided same ∙ pays,
            refl,
            c.sent,
            c.asked,
            c.reference,
            c.amount,
            c.users
                ∙ ap
                    (λ (k : ℕ).
                      put k (record owner { balance = owner.balance - (b.amount + fee) })
                        w.committed.users)
                    own,
          ),
        )
    settled (err (Exn.http code detail), w') pays (users, sent, committed, more) =
        rw
          (answer_lost d "Bill created; payout deferred (see decision reason)."
            (record w' { work = w'.committed })
            (ap (λ db. get w.next_bill db.bills) committed ∙ free))
          (
            committed,
            sent,
            asked_for bill w' refl pays (
                raised-Asked provider fee w.next_bill hex stored (Exn.http code detail) w'
                  (users, sent, committed, more)),
          )
    settled (err e, w') pays (users, sent, committed, more) = (
      committed,
      sent,
      asked_for bill w' refl pays
          (raised-Asked provider fee w.next_bill hex stored e w' (users, sent, committed, more)),
    )

    acted :
        (decision : Decision)
        → d.decision ≡ decision
        → Uploaded (Extraction.extracted x) (
            Closed (
              ◌>>=◌
                (act provider fee hex w.next_bill bill decision)
                (answer provider fee hex w.next_bill d)
                stored))
    unfolding act
    acted Decision.pay_now e =
        settled _ e (execute_payout_outcome provider fee w.next_bill hex stored)
    acted Decision.schedule e =
        let b : Bill = record bill { status = BillStatus.scheduled } in
        kept d "Bill scheduled for later evaluation."
          (record stored { work = put_bill w.next_bill b stored.work }) b refl refl
          (get-put_self w.next_bill b stored.work.bills) (inr (e, refl), refl, refl, refl, refl)
    acted Decision.hold e =
        kept d "Bill created." stored bill refl refl
          (get-put_self w.next_bill bill w.committed.bills) (inl (e, refl), refl, refl, refl, refl)

    stored_or_refused : Uploaded (Extraction.extracted x) (
        Closed (
          use_extraction provider fee hex now user_id user
            (Extraction.extracted x)
            (record w { work = w.committed })))
    unfolding use_extraction store_and_act
    stored_or_refused = elim (Bool-cases (str_eq x.vendor_name "" || leb x.amount.unscaled 0)) [
      | inl e ↦ rw e (refl, refl, inl refl)
      | inr e ↦ rw e (acted _ refl)
    ]

  used :
      (e : Extraction)
      → KeysBelow w.next_bill w.committed.bills
      → Uploaded e (
          Closed
            (use_extraction provider fee hex now user_id user e (record w { work = w.committed })))
  unfolding use_extraction
  used (Extraction.failed message) keys = (refl, refl, refl)
  used (Extraction.extracted x) keys = stored_or_refused x keys

  no_upload :
      (extraction : Extraction) → AskedForUpload extraction (record w { work = w.committed })
  no_upload (Extraction.failed message) = refl
  no_upload (Extraction.extracted x) = inl refl

  -- An upload whose extracted amount is of whole kobo, and that answers normally, has committed the
  -- extracted bill for the user under a new id, as it is answered with the agent's decision. The bill is
  -- pending if the decision was to hold and scheduled if it was to schedule, and then no wallet and no
  -- transaction has changed and no transfer was asked for; or the decision was to pay, the bill is in
  -- process, one transfer of its amount under the new reference was asked for and its call returned,
  -- and the wallet is charged with amount and fee. An upload that ends in an error, a refused immediate
  -- payment included, leaves the committed database as it was; no call for a transfer returned, and only
  -- after the decision to pay one of that amount and reference may have been asked for. (Bill ids are
  -- below the sequence.)
  pub upload_bill_outcome :
      (has_file : Bool) (request_bill : Option String) (extraction : Extraction)
      → IsWhole extraction
      → KeysBelow w.next_bill w.committed.bills
      → Uploaded extraction
          (upload_bill provider fee hex now user_id user has_file request_bill extraction w)
  unfolding upload_bill
  upload_bill_outcome has_file request_bill extraction whole keys =
      elim (Bool-cases (not has_file && not (truthy request_bill))) [
        | inl e ↦ rw e (refl, refl, no_upload extraction)
        | inr e ↦ rw e (used extraction keys)
      ]
