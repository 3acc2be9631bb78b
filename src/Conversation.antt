-- ===== src/Conversation.antt =====
-- app/handlers/bill_conversation.py and app/handlers/helpers.py: the dialogue over a bill with the
-- Telegram bot. What the bot answers as text is left out. `context.user_data` and the dialogue's
-- state are those of one chat; python-telegram-bot leaves the state as it is when a handler raises.
pub mod Confirm
pub mod Machine
pub mod Quiet
pub mod Unpaid
pub mod Final
pub mod Guarded
use autopay.Base.{
  ℕ, zero, suc, Bool, true, false, not, ◌&&◌, ◌||◌, Option, none, some, List, [], ◌∷◌, String,
  str_eq, truthy, text_or, strip, leb, get, first, if◌then◌else◌,
}
use autopay.Base.Int.{days_between}
use autopay.Models.{User, Bill, BillStatus, bill_status_eq, Db}
use autopay.Session.{
  Exn, Result, ok, err, Action, World, pure, raise, gets, ◌>>=◌, ◌>>◌, modify, commit, put_bill,
  insert_bill, with_session,
}
use autopay.Audit.{audit_bill_created}
use autopay.Agent.{Decision, DecisionResult, run_agent}
use autopay.Provider.{PaymentProvider}
use autopay.Payout.{PayoutResult}
use autopay.Payout.Charge.{opt_str_eq}
use autopay.Payout.Execute.{execute_payout}
use autopay.DateParser.{Calendar, Raw, parse_bill_due_date}
use autopay.Nomba.Errors.{codes, lower, starts_with, contains}

-- `CONFIRM, CHOOSE_FIELD, EDIT_VALUE, FINAL_CONFIRM`; no state is `ConversationHandler.END`.
pub data Step : Type 0 where
  confirm choose_field edit_value final_confirm : Step

-- `context.user_data["bill"]`, with the amount in kobo.
pub record BillData : Type 0 where
  pub vendor_name : String
  pub amount : ℕ
  pub currency : String
  pub due_date : String
  pub account_number : String
  pub bank_code : String

-- `context.user_data`
pub record UserData : Type 0 where
  pub bill : Option BillData
  pub user_id : Option ℕ
  pub user_balance : ℕ
  pub bill_id : Option ℕ
  pub editing_field : Option String

-- `context.user_data.clear()`; without a balance the code takes it for 0.
abbrev pub cleared : UserData
cleared = record {
  bill = none;
  user_id = none;
  user_balance = 0;
  bill_id = none;
  editing_field = none;
}

-- What a handler works on, and what it comes to: the next state, or an exception.
pub record Talk : Type 0 where
  pub user_data : UserData
  pub world : World

abbrev pub Handler : Type 0
Handler = Talk → Result (Option Step) × Talk

-- What a user sends: a text, a photo, a document with its type, by what the message has of them.
pub record Message : Type 0 where
  pub text : Option String
  pub has_photo : Bool
  pub document : Option (Option String)

-- The loaders of app/services/loaders.py.
pub data Loader : Type 0 where
  text_loader : String → Loader
  image_loader pdf_loader : Loader

-- `BillExtractionResult` of a loader, as far as the dialogue reads it.
pub record Extracted : Type 0 where
  pub vendor_name : String
  pub amount : ℕ
  pub currency : String
  pub due_date : Option String
  pub account_number : Option String
  pub bank_code : Option String

abbrev is_some : Option (Option String) → Bool
is_some none = false
is_some (some d) = true

abbrev type_of : Option String → String
type_of mime = text_or mime ""

-- `_build_loader`: an error for a document that is no PDF, nothing for what is no bill.
unfoldable pub build_loader : Message → Result (Option Loader)
build_loader m =
    if truthy m.text && not (is_some m.document) && not m.has_photo
    then (if starts_with (codes "/") (codes (text_or m.text ""))
        then ok none
        else ok (some (text_loader (text_or m.text ""))))
    else if m.has_photo
    then ok (some image_loader)
    else elim m.document [
      | none ↦ ok none
      | some mime ↦
          if contains "pdf" (lower (type_of mime)) then ok (some pdf_loader) else err Exn.unexpected
    ]

-- `User.telegram_chat_id == chat_id and User.is_telegram_linked`
abbrev pub is_linked_to : String → User → Bool
is_linked_to chat_id user = opt_str_eq user.telegram_chat_id chat_id && user.is_telegram_linked

-- `get_linked_user`, in a session of its own: the row is read.
abbrev pub get_linked_user : String → World → Option (ℕ × User)
get_linked_user chat_id w = first (is_linked_to chat_id) w.committed.users

-- What is stashed of an extraction.
abbrev pub bill_data_of : Extracted → BillData
bill_data_of x = record {
  vendor_name = x.vendor_name;
  amount = x.amount;
  currency = text_or (some x.currency) "NGN";
  due_date = text_or x.due_date "";
  account_number = text_or x.account_number "";
  bank_code = text_or x.bank_code "";
}

-- What comes from libraries and from other users' services: what a loader makes of a message (nothing
-- where it raises), `float` of a text in kobo and dateutil's reading of a text as an ISO date (nothing
-- on a `ValueError`).
pub record Reader : Type 0 where
  pub extract : Loader → Option Extracted
  pub float_of : String → Option ℕ
  pub parse_user_date : String → Option String

module _ (reader : Reader) where
  -- `receive_bill`, from what was extracted.
  unfoldable pub on_extracted : ℕ → User → Option Extracted → Handler
  on_extracted user_id user none t = (ok none, t)
  on_extracted user_id user (some x) t =
      if str_eq x.vendor_name "" || leb x.amount 0 then (ok none, t) else (
        ok (some confirm),
        record t {
          user_data = record t.user_data {
            bill = some (bill_data_of x);
            user_id = some user_id;
            user_balance = user.balance;
          };
        },
      )

  -- `receive_bill`, from the loader.
  unfoldable pub on_loader : ℕ → User → Result (Option Loader) → Handler
  unfolding on_extracted
  on_loader user_id user (err e) t = (ok none, t)
  on_loader user_id user (ok none) t = (ok none, t)
  on_loader user_id user (ok (some loader)) t = on_extracted user_id user (reader.extract loader) t

  unfoldable pub on_linked : Message → Option (ℕ × User) → Handler
  unfolding on_loader
  on_linked m none t = (ok none, t)
  on_linked m (some (user_id, user)) t = on_loader user_id user (build_loader m) t

  -- `receive_bill`
  unfoldable pub receive_bill : String → Message → Handler
  unfolding on_linked
  receive_bill chat_id m t = on_linked m (get_linked_user chat_id t.world) t
