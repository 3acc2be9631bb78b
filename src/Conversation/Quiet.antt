-- ===== src/Conversation/Quiet.antt =====
-- The handlers of app/handlers/bill_conversation.py, on a chat whose bill is in no committed row.
use autopay.Base.{
  ℕ, zero, suc, ◌+◌, ◌≡◌, refl, ap, ◌∙◌, ◌++◌, decimal, Option, none, some, String, arith, get,
  KeysBelow, KeysBelow-mono, get_of_KeysBelow,
}
use autopay.Models.{User, Bill, Db}
use autopay.Session.{Exn, Result, ok, err, World, with_session}
use autopay.Agent.{Decision}
use autopay.Provider.{PaymentProvider}
use autopay.Payout.Execute.{execute_payout}
use autopay.DateParser.{Calendar}
use autopay.Conversation.{
  BillData, UserData, Talk, Handler, Message, Loader, Extracted, Reader, build_loader,
  get_linked_user, on_extracted, on_loader, on_linked, receive_bill,
}
use autopay.Conversation.Confirm.{
  with_result, finish, cancel_row, cancel_in_session, cancel_from, schedule_row,
  schedule_in_session, on_decision, store_bill, decide_on, confirm_from, pay_in_session,
  commit_paid, final_from,
}
use autopay.Conversation.Machine.{store_value, new_value_for, handle_new_value, on_edit_message}

module _ (w₀ : World) where
  -- No committed bill has the id that the dialogue holds.
  abbrev Absent : Option ℕ → Type 0
  Absent none = Unit
  Absent (some k) = get k w₀.committed.bills ≡ none

  -- The database is as it was, nothing has been sent, and the sequence is past all bills.
  abbrev QuietWorld : World → Type 0
  QuietWorld w =
      (w.committed ≡ w₀.committed)
      × (w.sent ≡ w₀.sent)
      × (w.asked ≡ w₀.asked)
      × KeysBelow w.next_bill w₀.committed.bills

  abbrev pub Quiet : Talk → Type 0
  Quiet t = QuietWorld t.world × Absent t.user_data.bill_id

  abbrev Stored : Result (ℕ × Bill) × World → Type 0
  Stored (ok (bill_id, bill), w) = QuietWorld w × (get bill_id w₀.committed.bills ≡ none)
  Stored (err e, w) = QuietWorld w

  module _ (calendar : Calendar) (fee now : ℕ) where
    stored :
        (w : World) (user_id : ℕ) (b : BillData) (due_date : Result ℕ)
        → QuietWorld w
        → Stored (with_session (store_bill calendar fee now user_id b due_date) w)
    unfolding store_bill
    stored w user_id b (err e) q = q
    stored w user_id b (ok due_date) (c, s, a, k) = (
      (c, s, a, KeysBelow-mono w.next_bill (w.next_bill + 1) w₀.committed.bills k (omega arith)),
      get_of_KeysBelow w.next_bill w.next_bill w₀.committed.bills k (omega arith),
    )

  abbrev pub Keeps : Handler → Type 0
  Keeps f = (t : Talk) → Quiet t → Quiet (f t).1

  pub finish-Keeps : Keeps finish
  finish-Keeps t (q, a) = (q, tt)

  with_result-Quiet :
      {A : Type 0} (x : Result A × World) (u : UserData) (f : A → Handler)
      → QuietWorld x.1
      → Absent u.bill_id
      → ((a : A) → Keeps (f a))
      → Quiet (with_result x u f).1
  with_result-Quiet (ok a, w) u f q a' keeps = keeps a (record { user_data = u; world = w }) (q, a')
  with_result-Quiet (err e, w) u f q a' keeps = (q, a')

  cancel_row_same :
      (bill_id : ℕ) (row : Option Bill) (w : World)
      → ((cancel_row bill_id row w).1.committed ≡ w.committed)
        × ((cancel_row bill_id row w).1.sent ≡ w.sent)
        × ((cancel_row bill_id row w).1.asked ≡ w.asked)
        × ((cancel_row bill_id row w).1.next_bill ≡ w.next_bill)
  unfolding cancel_row
  cancel_row_same bill_id row w = ground arith

  cancel-QuietWorld :
      (bill_id : ℕ) (w : World) → QuietWorld w → QuietWorld (cancel_in_session bill_id w).1
  unfolding cancel_in_session
  cancel-QuietWorld bill_id w q = ground (
    arith,
    cancel_row_same bill_id (get bill_id w.committed.bills) (record w { work = w.committed }),
  )

  pub cancel_from-Keeps : (bill_id : Option ℕ) → Keeps (cancel_from bill_id)
  unfolding cancel_from
  cancel_from-Keeps none t q = finish-Keeps t q
  cancel_from-Keeps (some zero) t q = finish-Keeps t q
  cancel_from-Keeps (some (suc k)) t q =
      with_result-Quiet (cancel_in_session (suc k) t.world) t.user_data _
        (cancel-QuietWorld (suc k) t.world q.0) q.1 λ _. finish-Keeps

  schedule-QuietWorld :
      (bill_id : ℕ) (w : World)
      → QuietWorld w
      → get bill_id w₀.committed.bills ≡ none
      → schedule_in_session bill_id w ≡ (ok none, record w { work = w.committed })
  unfolding schedule_in_session schedule_row
  schedule-QuietWorld bill_id w (c, s, a, k) absent = rw c (rw absent refl)

  on_decision-Keeps :
      (bill_id : ℕ) (decision : Decision) (t : Talk)
      → Quiet t
      → get bill_id w₀.committed.bills ≡ none
      → Quiet (on_decision bill_id decision t).1
  unfolding on_decision
  on_decision-Keeps bill_id Decision.pay_now t q absent = q
  on_decision-Keeps bill_id Decision.schedule t q absent =
      rw (schedule-QuietWorld bill_id t.world q.0 absent) q
  on_decision-Keeps bill_id Decision.hold t q absent = finish-Keeps t q

  module _ (calendar : Calendar) (fee now : ℕ) where
    decided :
        (x : Result (ℕ × Bill) × World) (u : UserData)
        → Stored x
        → Absent u.bill_id
        → Quiet (with_result x u (decide_on calendar fee now)).1
    unfolding decide_on
    decided (ok (bill_id, bill), w) u (q, absent) a =
        on_decision-Keeps bill_id _ _ (q, absent) absent
    decided (err e, w) u q a = (q, a)

    pub confirm_from-Keeps :
        (user_id : Option ℕ) (bill : Option BillData)
        → Keeps (confirm_from calendar fee now user_id bill)
    unfolding confirm_from
    confirm_from-Keeps none bill t q = q
    confirm_from-Keeps (some zero) bill t q = q
    confirm_from-Keeps (some (suc k)) none t q = q
    confirm_from-Keeps (some (suc k)) (some b) t q =
        decided _ t.user_data (stored calendar fee now t.world (suc k) b _ q.0) q.1

  module _ (provider : PaymentProvider) (fee : ℕ) (hex : String) where
    missing_bill :
        (bill_id : ℕ) (w : World)
        → get bill_id w.work.bills ≡ none
        → execute_payout provider fee bill_id hex w
          ≡ (err (Exn.http 404 ("Bill " ++ decimal bill_id ++ " not found.")), w)
    unfolding execute_payout
    missing_bill bill_id w absent = rw absent refl

    -- A payout of a bill that is not there changes nothing.
    pay_absent :
        (bill_id : ℕ) (w : World)
        → QuietWorld w
        → get bill_id w₀.committed.bills ≡ none
        → QuietWorld (pay_in_session provider fee hex bill_id w).1
    unfolding pay_in_session commit_paid
    pay_absent bill_id w (c, s, a, k) absent =
        let e =
          missing_bill bill_id (record w { work = w.committed })
            (ap (λ (d : Db). get bill_id d.bills) c ∙ absent) in
        ground (arith, e)

    pub final_from-Keeps :
        (bill_id : Option ℕ) (t : Talk)
        → Quiet t
        → Absent bill_id
        → Quiet (final_from provider fee hex bill_id t).1
    unfolding final_from
    final_from-Keeps none t q a = q
    final_from-Keeps (some zero) t q a = q
    final_from-Keeps (some (suc k)) t q a = (pay_absent (suc k) t.world q.0 a, tt)

  module _ (reader : Reader) where
    extracted-Keeps :
        (user_id : ℕ) (user : User) (x : Option Extracted)
        → Keeps (on_extracted reader user_id user x)
    unfolding on_extracted
    extracted-Keeps user_id user none t q = q
    extracted-Keeps user_id user (some x) t q = ground arith

    loader-Keeps :
        (user_id : ℕ) (user : User) (loader : Result (Option Loader))
        → Keeps (on_loader reader user_id user loader)
    unfolding on_loader
    loader-Keeps user_id user (err e) t q = q
    loader-Keeps user_id user (ok none) t q = q
    loader-Keeps user_id user (ok (some loader)) t q =
        extracted-Keeps user_id user (reader.extract loader) t q

    linked-Keeps : (m : Message) (user : Option (ℕ × User)) → Keeps (on_linked reader m user)
    unfolding on_linked
    linked-Keeps m none t q = q
    linked-Keeps m (some (user_id, user)) t q = loader-Keeps user_id user (build_loader m) t q

    pub receive-Keeps : (chat_id : String) (m : Message) → Keeps (receive_bill reader chat_id m)
    unfolding receive_bill
    receive-Keeps chat_id m t q = linked-Keeps m (get_linked_user chat_id t.world) t q

    store_value-Keeps :
        (change : BillData → BillData) (bill : Option BillData) → Keeps (store_value change bill)
    unfolding store_value
    store_value-Keeps change none t q = q
    store_value-Keeps change (some b) t q = q

    new_value-Keeps : (key value : String) → Keeps (new_value_for reader key value)
    unfolding new_value_for
    new_value-Keeps key value t q = grind (arith, store_value-Keeps)

    pub edit-Keeps : (m : Message) → Keeps (on_edit_message reader m)
    unfolding on_edit_message handle_new_value
    edit-Keeps m t q = grind (arith, new_value-Keeps)
