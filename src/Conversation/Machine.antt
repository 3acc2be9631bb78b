-- ===== src/Conversation/Machine.antt =====
-- The other handlers of app/handlers/bill_conversation.py, and the `ConversationHandler` that
-- `build_bill_conversation` makes of all of them, as a step on the chat.
use autopay.Base.{
  ℕ, Bool, false, ◌||◌, Option, none, some, List, [], ◌∷◌, String, str_eq, strip, text_or,
  if◌then◌else◌,
}
use autopay.Session.{Exn, Result, ok, err}
use autopay.Provider.{PaymentProvider}
use autopay.DateParser.{Calendar}
use autopay.Nomba.Errors.{codes, starts_with}
use autopay.Conversation.{
  Step, confirm, choose_field, edit_value, final_confirm, BillData, Talk, Handler, Message, Reader,
  receive_bill,
}
use autopay.Conversation.Confirm.{handle_confirm, handle_cancel, handle_final_confirm, finish}

-- What a chat sends: a message, a button of a keyboard that is no field's, the button of a field, or
-- the command /cancel.
pub data Update : Type 0 where
  message : Message → Update
  confirm_button edit_button cancel_button back_button : Update
  final_confirm_button final_cancel_button : Update
  field_button : String → Update
  cancel_command : Update

-- `EDITABLE_FIELDS`
abbrev pub is_editable : String → Bool
is_editable key =
    str_eq key "vendor_name"
    || str_eq key "amount"
    || str_eq key "due_date"
    || str_eq key "account_number"
    || str_eq key "bank_code"

-- `handle_edit`
abbrev pub handle_edit : Handler
handle_edit t = (ok (some choose_field), t)

-- `handle_field_choice` of the button "back": a `KeyError` without a bill.
unfoldable pub choose_back : Option BillData → Handler
choose_back none t = (err Exn.unexpected, t)
choose_back (some b) t = (ok (some confirm), t)

-- `handle_field_choice` of a field: the field is noted before the bill and the label are looked up.
unfoldable pub choose_key : Option BillData → String → Handler
choose_key bill key t =
    let t' = record t { user_data = record t.user_data { editing_field = some key } } in
    elim bill [
      | none ↦ (err Exn.unexpected, t')
      | some b ↦ if is_editable key then (ok (some edit_value), t') else (err Exn.unexpected, t')
    ]

-- `bill[field_key] = new_value`, of a text.
unfoldable pub set_text : String → String → BillData → BillData
set_text key value b =
    if str_eq key "vendor_name"
    then record b { vendor_name = value }
    else if str_eq key "due_date"
    then record b { due_date = value }
    else if str_eq key "account_number"
    then record b { account_number = value }
    else if str_eq key "bank_code"
    then record b { bank_code = value }
    else b

-- The end of `handle_new_value`: a `KeyError` without a bill.
unfoldable pub store_value : (BillData → BillData) → Option BillData → Handler
store_value change none t = (err Exn.unexpected, t)
store_value change (some b) t =
    (ok (some confirm), record t { user_data = record t.user_data { bill = some (change b) } })

-- A value that is read, or another try.
abbrev pub read_or_again : {A : Type 0} → Option A → (A → Handler) → Handler
read_or_again none f t = (ok (some edit_value), t)
read_or_again (some a) f t = f a t

abbrev is_command : Message → Bool
is_command m = starts_with (codes "/") (codes (text_or m.text ""))

abbrev pub stay : Option Step → Handler
stay state t = (ok state, t)

module _ (reader : Reader) where
  -- `handle_new_value`, from the field that is edited.
  unfoldable pub new_value_for : String → String → Handler
  unfolding set_text store_value
  new_value_for key value t =
      if str_eq key "amount"
      then read_or_again (reader.float_of value)
          (λ amount. store_value (λ b. record b { amount = amount }) t.user_data.bill) t
      else if str_eq key "due_date"
      then read_or_again (reader.parse_user_date value)
          (λ date. store_value (set_text key date) t.user_data.bill) t
      else store_value (set_text key value) t.user_data.bill t

  -- `handle_new_value`, of the text as it is sent.
  unfoldable pub handle_new_value : String → Handler
  unfolding new_value_for
  handle_new_value value t = new_value_for (text_or t.user_data.editing_field "") (strip value) t

  -- A text that is no command, in the state EDIT_VALUE.
  unfoldable pub on_edit_message : Message → Handler
  unfolding handle_new_value
  on_edit_message m t = elim m.text [
    | none ↦ stay (some edit_value) t
    | some s ↦ if is_command m then stay (some edit_value) t else handle_new_value s t
  ]

-- The message that the command is.
abbrev pub cancel_message : Message
cancel_message = record { text = some "/cancel"; has_photo = false; document = none }

-- The new state of a chat, which a raise leaves as it was.
pub record Chat : Type 0 where
  pub state : Option Step
  pub talk : Talk

abbrev pub settle : Option Step → Result (Option Step) × Talk → Chat
settle state (ok next, t) = record { state = next; talk = t }
settle state (err e, t) = record { state = state; talk = t }

module _ (reader : Reader) (calendar : Calendar) (provider : PaymentProvider) (fee : ℕ)
    (chat_id : String) where
  -- The handler that the state and the update select; an update that none takes changes nothing.
  unfoldable pub dispatch : ℕ → String → Option Step → Update → Handler
  unfolding on_edit_message
  dispatch now hex none (message m) = receive_bill reader chat_id m
  dispatch now hex none cancel_command = receive_bill reader chat_id cancel_message
  dispatch now hex (some step) cancel_command = finish
  dispatch now hex (some confirm) confirm_button = handle_confirm calendar fee now
  dispatch now hex (some confirm) edit_button = handle_edit
  dispatch now hex (some confirm) cancel_button = handle_cancel
  dispatch now hex (some choose_field) back_button = λ t. choose_back t.user_data.bill t
  dispatch now hex (some choose_field) (field_button key) = λ t. choose_key t.user_data.bill key t
  dispatch now hex (some edit_value) (message m) = on_edit_message reader m
  dispatch now hex (some final_confirm) final_confirm_button = handle_final_confirm provider fee hex
  dispatch now hex (some final_confirm) final_cancel_button = handle_cancel
  dispatch now hex state update = stay state

  -- One update, at the time `now` and with the fresh digits `hex` for a payment's reference.
  unfoldable pub step : ℕ × String × Update → Chat → Chat
  unfolding dispatch
  step (now, hex, update) chat = settle chat.state (dispatch now hex chat.state update chat.talk)

  -- A dialogue, from its first update on.
  unfoldable pub run : List (ℕ × String × Update) → Chat → Chat
  unfolding step
  run [] chat = chat
  run (update ∷ updates) chat = run updates (step update chat)
