-- ===== src/Conversation/Unpaid.antt =====
-- What a whole dialogue with the bot has done to the database and to the gateway.
use autopay.Base.{ℕ, ◌≡◌, refl, Option, none, some, List, [], ◌∷◌, String, arith, KeysBelow}
use autopay.Session.{Result, ok, err, World}
use autopay.Provider.{PaymentProvider}
use autopay.DateParser.{Calendar}
use autopay.Conversation.{
  Step, confirm, choose_field, edit_value, final_confirm, BillData, cleared, Talk, Reader,
}
use autopay.Conversation.Confirm.{handle_cancel, handle_confirm, handle_final_confirm}
use autopay.Conversation.Machine.{
  Update, message, cancel_message, confirm_button, edit_button, cancel_button, back_button,
  final_confirm_button, final_cancel_button, field_button, cancel_command, choose_back, choose_key,
  Chat, settle, dispatch, step, run,
}
use autopay.Conversation.Quiet.{
  Quiet, Keeps, finish-Keeps, confirm_from-Keeps, cancel_from-Keeps, final_from-Keeps,
  receive-Keeps, edit-Keeps,
}

module _ (w₀ : World) where
  choose_back-Keeps : (bill : Option BillData) → Keeps w₀ (choose_back bill)
  unfolding choose_back
  choose_back-Keeps none t q = q
  choose_back-Keeps (some b) t q = q

  choose_key-Keeps : (bill : Option BillData) (key : String) → Keeps w₀ (choose_key bill key)
  unfolding choose_key
  choose_key-Keeps bill key t q = ground arith

  module _ (reader : Reader) (calendar : Calendar) (provider : PaymentProvider) (fee : ℕ)
      (chat_id : String) where
    dispatch-Keeps :
        (now : ℕ) (hex : String) (state : Option Step) (update : Update)
        → Keeps w₀ (dispatch reader calendar provider fee chat_id now hex state update)
    unfolding dispatch handle_confirm handle_cancel handle_final_confirm
    dispatch-Keeps now hex none (message m) t q = receive-Keeps w₀ reader chat_id m t q
    dispatch-Keeps now hex none cancel_command t q =
        receive-Keeps w₀ reader chat_id cancel_message t q
    dispatch-Keeps now hex (some state) cancel_command t q = finish-Keeps w₀ t q
    dispatch-Keeps now hex (some confirm) confirm_button t q =
        confirm_from-Keeps w₀ calendar fee now t.user_data.user_id t.user_data.bill t q
    dispatch-Keeps now hex (some confirm) cancel_button t q =
        cancel_from-Keeps w₀ t.user_data.bill_id t q
    dispatch-Keeps now hex (some choose_field) back_button t q =
        choose_back-Keeps t.user_data.bill t q
    dispatch-Keeps now hex (some choose_field) (field_button key) t q =
        choose_key-Keeps t.user_data.bill key t q
    dispatch-Keeps now hex (some edit_value) (message m) t q = edit-Keeps w₀ reader m t q
    dispatch-Keeps now hex (some final_confirm) final_confirm_button t q =
        final_from-Keeps w₀ provider fee hex t.user_data.bill_id t q q.1
    dispatch-Keeps now hex (some final_confirm) final_cancel_button t q =
        cancel_from-Keeps w₀ t.user_data.bill_id t q
    dispatch-Keeps now hex (some confirm) edit_button t q = q
    dispatch-Keeps now hex (some choose_field) edit_button t q = q
    dispatch-Keeps now hex (some edit_value) edit_button t q = q
    dispatch-Keeps now hex (some final_confirm) edit_button t q = q
    dispatch-Keeps now hex state update t q = q

    settle-Quiet :
        (state : Option Step) (x : Result (Option Step) × Talk)
        → Quiet w₀ x.1
        → Quiet w₀ (settle state x).talk
    settle-Quiet state (ok next, t) q = q
    settle-Quiet state (err e, t) q = q

    step-Quiet :
        (update : ℕ × String × Update) (chat : Chat)
        → Quiet w₀ chat.talk
        → Quiet w₀ (step reader calendar provider fee chat_id update chat).talk
    unfolding step
    step-Quiet (now, hex, update) chat q =
        settle-Quiet chat.state
          (dispatch reader calendar provider fee chat_id now hex chat.state update chat.talk)
          (dispatch-Keeps now hex chat.state update chat.talk q)

    run-Quiet :
        (updates : List (ℕ × String × Update)) (chat : Chat)
        → Quiet w₀ chat.talk
        → Quiet w₀ (run reader calendar provider fee chat_id updates chat).talk
    unfolding run
    run-Quiet [] chat q = q
    run-Quiet (update ∷ updates) chat q = run-Quiet updates _ (step-Quiet update chat q)

-- A chat of which the bot knows nothing.
abbrev pub fresh_chat : World → Chat
fresh_chat w = record { state = none; talk = record { user_data = cleared; world = w } }

-- The bot never pays: whatever a user sends, in a dialogue that starts with no data, the committed
-- database stays as it was and the gateway is asked for no transfer. (The id that the sequence gives next is past all
-- committed bills.)
pub dialogue_pays_nothing :
    (reader : Reader) (calendar : Calendar) (provider : PaymentProvider) (fee : ℕ)
    (chat_id : String) (w : World) (updates : List (ℕ × String × Update))
    → KeysBelow w.next_bill w.committed.bills
    → let w' = (run reader calendar provider fee chat_id updates (fresh_chat w)).talk.world in
      (w'.committed ≡ w.committed) × (w'.sent ≡ w.sent) × (w'.asked ≡ w.asked)
dialogue_pays_nothing reader calendar provider fee chat_id w updates keys =
    let q =
      run-Quiet w reader calendar provider fee chat_id updates (fresh_chat w)
        ((refl, refl, refl, keys), tt) in
    (q.0.0, q.0.1, q.0.2)
