-- ===== src/Conversation/Guarded.antt =====
-- Only a final confirmation can make the bot pay.
use autopay.Base.{ℕ, zero, suc, ◌≡◌, ◌⊎◌, inl, inr, refl, Option, none, some, String, arith}
use autopay.Session.{Result, ok, err, World}
use autopay.Agent.{Decision}
use autopay.Provider.{PaymentProvider}
use autopay.DateParser.{Calendar}
use autopay.Conversation.{
  Step, confirm, choose_field, edit_value, final_confirm, BillData, Talk, Handler, Message, Reader,
  on_extracted, on_loader, on_linked, receive_bill,
}
use autopay.Conversation.Confirm.{
  cancel_row, cancel_in_session, cancel_from, handle_cancel, schedule_row, schedule_in_session,
  on_decision, store_bill, decide_on, confirm_from, handle_confirm,
}
use autopay.Conversation.Machine.{
  Update, message, confirm_button, edit_button, cancel_button, back_button, final_confirm_button,
  final_cancel_button, field_button, cancel_command, cancel_message, choose_back, choose_key,
  store_value, new_value_for, handle_new_value, on_edit_message, Chat, settle, dispatch, step,
}

-- The committed database and the transfers asked for are the same.
abbrev pub Same : World → World → Type 0
Same w w' = (w'.committed ≡ w.committed) × (w'.sent ≡ w.sent) × (w'.asked ≡ w.asked)

abbrev Keeps : Handler → Type 0
Keeps f = (t : Talk) → Same t.world (f t).1.world

cancel_from-Keeps : (bill_id : Option ℕ) → Keeps (cancel_from bill_id)
unfolding cancel_from cancel_in_session cancel_row
cancel_from-Keeps none t = (refl, refl, refl)
cancel_from-Keeps (some zero) t = (refl, refl, refl)
cancel_from-Keeps (some (suc k)) t = ground arith

on_decision-Keeps : (bill_id : ℕ) (decision : Decision) → Keeps (on_decision bill_id decision)
unfolding on_decision schedule_in_session schedule_row
on_decision-Keeps bill_id Decision.pay_now t = (refl, refl, refl)
on_decision-Keeps bill_id Decision.schedule t = ground arith
on_decision-Keeps bill_id Decision.hold t = (refl, refl, refl)

confirm_from-Keeps :
    (calendar : Calendar) (fee now : ℕ) (user_id : Option ℕ) (bill : Option BillData)
    → Keeps (confirm_from calendar fee now user_id bill)
unfolding confirm_from store_bill decide_on
confirm_from-Keeps calendar fee now none bill t = (refl, refl, refl)
confirm_from-Keeps calendar fee now (some zero) bill t = (refl, refl, refl)
confirm_from-Keeps calendar fee now (some (suc k)) none t = (refl, refl, refl)
confirm_from-Keeps calendar fee now (some (suc k)) (some b) t = grind (arith, on_decision-Keeps)

receive-Keeps :
    (reader : Reader) (chat_id : String) (m : Message) → Keeps (receive_bill reader chat_id m)
unfolding receive_bill on_linked on_loader on_extracted
receive-Keeps reader chat_id m t = ground arith

edit-Keeps : (reader : Reader) (m : Message) → Keeps (on_edit_message reader m)
unfolding on_edit_message handle_new_value new_value_for store_value
edit-Keeps reader m t = ground arith

-- The update is a final confirmation in the state for it.
abbrev pub IsFinal : Option Step → Update → Type 0
IsFinal state update = (state ≡ some final_confirm) × (update ≡ final_confirm_button)

module _ (reader : Reader) (calendar : Calendar) (provider : PaymentProvider) (fee : ℕ)
    (chat_id : String) where
  dispatch-Same :
      (now : ℕ) (hex : String) (state : Option Step) (update : Update) (t : Talk)
      → Same t.world (dispatch reader calendar provider fee chat_id now hex state update t).1.world
        ⊎ IsFinal state update
  unfolding dispatch choose_back choose_key handle_confirm handle_cancel
  dispatch-Same now hex none (message m) t = inl (receive-Keeps reader chat_id m t)
  dispatch-Same now hex none cancel_command t = inl (receive-Keeps reader chat_id cancel_message t)
  dispatch-Same now hex (some state) cancel_command t = inl (refl, refl, refl)
  dispatch-Same now hex (some confirm) confirm_button t =
      inl (confirm_from-Keeps calendar fee now t.user_data.user_id t.user_data.bill t)
  dispatch-Same now hex (some confirm) cancel_button t =
      inl (cancel_from-Keeps t.user_data.bill_id t)
  dispatch-Same now hex (some choose_field) back_button t = ground arith
  dispatch-Same now hex (some choose_field) (field_button key) t = ground arith
  dispatch-Same now hex (some edit_value) (message m) t = inl (edit-Keeps reader m t)
  dispatch-Same now hex (some final_confirm) final_confirm_button t = inr (refl, refl)
  dispatch-Same now hex (some final_confirm) final_cancel_button t =
      inl (cancel_from-Keeps t.user_data.bill_id t)
  dispatch-Same now hex (some confirm) edit_button t = inl (refl, refl, refl)
  dispatch-Same now hex (some choose_field) edit_button t = inl (refl, refl, refl)
  dispatch-Same now hex (some edit_value) edit_button t = inl (refl, refl, refl)
  dispatch-Same now hex (some final_confirm) edit_button t = inl (refl, refl, refl)
  dispatch-Same now hex state update t = inl (refl, refl, refl)

  settled :
      (state : Option Step) (update : Update) (w : World) (x : Result (Option Step) × Talk)
      → Same w x.1.world ⊎ IsFinal state update
      → Same w (settle state x).talk.world ⊎ IsFinal state update
  settled state update w (ok next, t) h = h
  settled state update w (err e, t) h = h

  -- In any state of a chat and for any update, the committed database stays the same and the gateway is
  -- asked for no transfer, unless the update is the button of the final confirmation in the state that asks for
  -- it.
  pub only_confirmation_pays :
      (now : ℕ) (hex : String) (update : Update) (chat : Chat)
      → Same chat.talk.world
          (step reader calendar provider fee chat_id (now, hex, update) chat).talk.world
        ⊎ IsFinal chat.state update
  unfolding step
  only_confirmation_pays now hex update chat =
      settled chat.state update chat.talk.world _
        (dispatch-Same now hex chat.state update chat.talk)
