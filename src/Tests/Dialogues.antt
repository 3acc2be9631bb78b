-- ===== src/Tests/Dialogues.antt =====
-- A dialogue with the bot and a due date, and their theorems at concrete inputs.
use autopay.Base.{ℕ, ◌≡◌, ◌⊎◌, refl, arith, strip, true, false, none, some, [], ◌∷◌, List, String}
use autopay.Session.{ok, err, Exn, World}
use autopay.Base.Int.{days_between}
use autopay.Agent.{run_agent}
use autopay.DateParser.{Calendar, written, parse_bill_due_date}
use autopay.DateParser.Relative.{try_relative}
use autopay.DateParser.Present.{Parsed, parse_bill_due_date-Parsed}
use autopay.Payout.Execute.{execute_payout}
use autopay.Conversation.{confirm, final_confirm, cleared, Talk, Reader, build_loader, receive_bill}
use autopay.Conversation.Confirm.{handle_confirm, handle_final_confirm}
use autopay.Conversation.Machine.{
  Update, message, confirm_button, final_confirm_button, Chat, step, run,
}
use autopay.Conversation.Unpaid.{fresh_chat, dialogue_pays_nothing}
use autopay.Conversation.Final.{PaidOrNot, handle_final_confirm_outcome}
use autopay.Conversation.Guarded.{Same, IsFinal, only_confirmation_pays}
use autopay.Tests.Data.{willing, ada, db, start, fee}

-- A calendar that reads no format.
abbrev calendar : Calendar
calendar = record {
  strptime = λ s fmt. none;
  fromisoformat = λ s. none;
  in_year_of = λ now dt. some dt;
}

tomorrow_test : parse_bill_due_date calendar 5 (written "Tomorrow.") ≡ ok 86400000005
unfolding parse_bill_due_date strip try_relative
tomorrow_test = refl

-- The docstring says that the parser never raises.
overflow_test : parse_bill_due_date calendar 5 (written "in 4000000 days") ≡ err Exn.unexpected
unfolding parse_bill_due_date strip try_relative
overflow_test = refl

parse_bill_due_date-Parsed_example :
    Parsed 5 (written "in 2 weeks") (parse_bill_due_date calendar 5 (written "in 2 weeks"))
parse_bill_due_date-Parsed_example = parse_bill_due_date-Parsed calendar 5 (written "in 2 weeks")

abbrev reader : Reader
reader = record {
  extract = λ loader. some (record {
    vendor_name = "Ikeja Electric";
    amount = 40000;
    currency = "NGN";
    due_date = some "tomorrow";
    account_number = some "0123456789";
    bank_code = some "058";
  });
  float_of = λ s. none;
  parse_user_date = λ s. none;
}

-- Ada's chat is linked.
abbrev linked : World
linked = record start {
  committed = record db {
    users = (1, record ada { telegram_chat_id = some "77"; is_telegram_linked = true }) ∷ [];
  };
}

abbrev sends_bill : Update
sends_bill = message (record {
  text = some "Pay Ikeja Electric 400 by tomorrow";
  has_photo = false;
  document = none;
})

abbrev updates : List (ℕ × String × Update)
updates = (5, "a1", sends_bill) ∷ (6, "a2", confirm_button) ∷ (7, "a3", final_confirm_button) ∷ []

-- A bill that is due is put up for the final confirmation.
asked_test :
    (run reader calendar willing fee "77"
      ((5, "a1", sends_bill) ∷ (6, "a2", confirm_button) ∷ [])
      (fresh_chat linked)).state
    ≡ some final_confirm
unfolding run receive_bill handle_confirm parse_bill_due_date strip try_relative build_loader
    run_agent days_between
asked_test = refl

dialogue_pays_nothing_example :
    let w' = (run reader calendar willing fee "77" updates (fresh_chat linked)).talk.world in
    (w'.committed ≡ linked.committed) × (w'.sent ≡ []) × (w'.asked ≡ [])
dialogue_pays_nothing_example =
    dialogue_pays_nothing reader calendar willing fee "77" linked updates (omega arith)

-- A dialogue that holds a bill of the database.
abbrev holding : Talk
holding = record { user_data = record cleared { bill_id = some 7 }; world = start }

handle_final_confirm_outcome_example :
    let x = handle_final_confirm willing fee "a1b2" holding in
    (x.0 ≡ ok none)
    × (x.1.user_data ≡ cleared)
    × PaidOrNot willing fee "a1b2" 7 (execute_payout willing fee 7 "a1b2" start) start x.1.world
handle_final_confirm_outcome_example =
    handle_final_confirm_outcome willing fee "a1b2" 6 holding refl

abbrev asked : Chat
asked = record { state = some confirm; talk = holding }

only_confirmation_pays_example :
    Same start (step reader calendar willing fee "77" (5, "a1", confirm_button) asked).talk.world
    ⊎ IsFinal (some confirm) confirm_button
only_confirmation_pays_example =
    only_confirmation_pays reader calendar willing fee "77" 5 "a1" confirm_button asked
