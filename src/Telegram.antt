-- ===== src/Telegram.antt =====
-- app/handlers/auth.py, the commands of the Telegram bot, and the endpoints of app/api/auth.py for
-- link codes. A reply is told by what it says; `now` is read once for a request.
pub mod Linked
use Prim.Native.String.{slice}
use autopay.Base.{
  ℕ, zero, suc, ◌+◌, ◌*◌, Bool, true, false, not, ◌&&◌, Option, none, some, List, [], ◌∷◌, String,
  ◌++◌, str_eq, strip, ltb, ◌==◌, if◌then◌else◌, Table, get, put, select, first,
}
use autopay.Base.Letters.{upper}
use autopay.Models.{
  User, Bill, VirtualAccount, TelegramLinkCode, AuditActor, AuditEventType, AuditEntityType, Json,
  Db,
}
use autopay.Session.{
  Exn, Result, ok, err, Action, World, pure, raise, gets, or_raise, ◌>>=◌, ◌>>◌, modify, commit,
  put_user, with_session,
}
use autopay.Audit.{write_audit}
use autopay.Payout.Charge.{opt_str_eq}
use autopay.Bills.{order_by_due}
use autopay.Wallet.{owned_by}
use autopay.Conversation.{get_linked_user, is_linked_to}

abbrev pub put_link_code : ℕ → TelegramLinkCode → Db → Db
put_link_code k row d = record d { telegram_link_codes = put k row d.telegram_link_codes }

abbrev pub has_code : String → TelegramLinkCode → Bool
has_code code row = str_eq row.code code

-- `TelegramLinkCode.code == code, TelegramLinkCode.is_used == False`
abbrev pub is_unused : String → TelegramLinkCode → Bool
is_unused code row = has_code code row && not row.is_used

-- `User.telegram_chat_id == chat_id`
abbrev pub has_chat : String → User → Bool
has_chat chat_id user = opt_str_eq user.telegram_chat_id chat_id

-- What `link_command` replies.
pub data LinkReply : Type 0 where
  no_code already_linked invalid_code expired_code other_account no_user linked : LinkReply

abbrev linked_user : String → User → User
linked_user chat_id user = record user {
  telegram_chat_id = some chat_id;
  is_telegram_linked = true;
}

-- The end of `link_command`, from the user behind the code.
unfoldable pub link_user : String → String → ℕ → TelegramLinkCode → Option User → Action LinkReply
link_user chat_id code k row none = pure LinkReply.no_user
link_user chat_id code k row (some user) = do
  modify (put_user row.user_id (linked_user chat_id user))
  modify (put_link_code k (record row { is_used = true }))
  write_audit AuditActor.user AuditEventType.user_telegram_linked (some row.user_id)
      (some AuditEntityType.user) (some row.user_id) none none
      (some (("chat_id", Json.text chat_id) ∷ ("code", Json.text (slice code 0 2 ++ "***")) ∷ []))
      none
  commit
  pure LinkReply.linked

-- A chat of another user is refused.
abbrev is_other : ℕ → Option (ℕ × User) → Bool
is_other user_id none = false
is_other user_id (some (j, user)) = not (j == user_id)

unfoldable pub link_checked :
    String → String → ℕ → TelegramLinkCode → Option (ℕ × User) → Action LinkReply
unfolding link_user
link_checked chat_id code k row existing =
    if is_other row.user_id existing
    then pure LinkReply.other_account
    else (do user ← gets (λ d. get row.user_id d.users); link_user chat_id code k row user)

-- From the row of the code.
unfoldable pub link_code_row :
    ℕ → String → String → Option (ℕ × TelegramLinkCode) → Action LinkReply
unfolding link_checked
link_code_row now chat_id code none = pure LinkReply.invalid_code
link_code_row now chat_id code (some (k, row)) =
    if ltb row.expires_at now then pure LinkReply.expired_code else (do
      existing ← gets (λ d. first (has_chat chat_id) d.users)
      link_checked chat_id code k row existing)

-- The session of `link_command`.
unfoldable pub link_in_session : ℕ → String → String → Action LinkReply
unfolding link_code_row
link_in_session now chat_id code = with_session (do
  row ← gets (λ d. first (is_unused code) d.telegram_link_codes)
  link_code_row now chat_id code row)

unfoldable pub link_from : ℕ → String → String → Option (ℕ × User) → Action LinkReply
unfolding link_in_session
link_from now chat_id code (some user) = pure LinkReply.already_linked
link_from now chat_id code none = link_in_session now chat_id code

-- `link_command`
unfoldable pub link_command : ℕ → String → List String → Action LinkReply
unfolding link_from
link_command now chat_id [] w = (ok LinkReply.no_code, w)
link_command now chat_id (arg ∷ args) w =
    link_from now chat_id (upper (strip arg)) (get_linked_user chat_id w) w

abbrev unlinked : User → User
unlinked user = record user { telegram_chat_id = none; is_telegram_linked = false }

unfoldable pub unlink_row : Option (ℕ × User) → Action Bool
unlink_row none = pure false
unlink_row (some (k, user)) = do modify (put_user k (unlinked user)); commit; pure true

-- `unlink_command`, and whether there was something to unlink.
unfoldable pub unlink_command : String → Action Bool
unfolding unlink_row
unlink_command chat_id =
    with_session (do row ← gets (λ d. first (is_linked_to chat_id) d.users); unlink_row row)

-- What `wallet_command` shows.
pub data WalletReply : Type 0 where
  link_first no_account : WalletReply
  shows : ℕ → VirtualAccount → WalletReply

unfoldable pub wallet_of : Option (ℕ × User) → World → WalletReply
wallet_of none w = WalletReply.link_first
wallet_of (some (user_id, user)) w = elim (first (owned_by user_id) w.committed.virtual_accounts) [
  | none ↦ WalletReply.no_account
  | some (k, va) ↦ WalletReply.shows user.balance va
]

-- `wallet_command`, with `get_user_va` of app/handlers/helpers.py.
unfoldable pub wallet_command : String → World → WalletReply
unfolding wallet_of
wallet_command chat_id w = wallet_of (get_linked_user chat_id w) w

abbrev take : {A : Type 0} → ℕ → List A → List A
take zero xs = []
take (suc n) [] = []
take (suc n) (x ∷ xs) = x ∷ take n xs

abbrev is_bill_of : ℕ → Bill → Bool
is_bill_of user_id bill = bill.user_id == user_id

unfoldable pub bills_of : Option (ℕ × User) → World → Option (Table Bill)
bills_of none w = none
bills_of (some (user_id, user)) w =
    some (take 20 (order_by_due (select (is_bill_of user_id) w.committed.bills)))

-- `bills_command`: the rows that it lists, or nothing for a chat that is not linked.
unfoldable pub bills_command : String → World → Option (Table Bill)
unfolding bills_of
bills_command chat_id w = bills_of (get_linked_user chat_id w) w

-- `TelegramLinkCodeResponse`
pub record TelegramLinkCodeResponse : Type 0 where
  pub code : String
  pub expires_at : ℕ
  pub bot_link : Option String

abbrev bot_link_of : String → String → Option String
bot_link_of bot_username code =
    if str_eq bot_username ""
    then none
    else some ("https://t.me/" ++ bot_username ++ "?start=" ++ code)

-- Fifteen minutes.
abbrev link_code_ttl : ℕ
link_code_ttl = 900000000

-- The commit of a new row: the code is unique.
unfoldable pub insert_link_code :
    TelegramLinkCode → Option (ℕ × TelegramLinkCode) → Action (Unit {0})
insert_link_code row (some _) w = (err Exn.integrity_error, w)
insert_link_code row none w = (
  ok tt,
  record w {
    work = put_link_code w.next_link_code row w.work;
    next_link_code = w.next_link_code + 1;
  },
)

-- `create_telegram_link_code`, where `code` is what `generate_code` gives.
unfoldable pub create_telegram_link_code : ℕ → String → String → ℕ → Action TelegramLinkCodeResponse
unfolding insert_link_code
create_telegram_link_code now bot_username code user_id = with_session (do
  let expires_at = now + link_code_ttl
  clash ← gets (λ d. first (has_code code) d.telegram_link_codes)
  insert_link_code
      (record { user_id = user_id; code = code; expires_at = expires_at; is_used = false }) clash
  commit
  pure (record { code = code; expires_at = expires_at; bot_link = bot_link_of bot_username code }))

-- The loop of `invalidate_telegram_link_codes`, over the rows that its query selects.
abbrev use_codes : ℕ → Table TelegramLinkCode → Table TelegramLinkCode
use_codes user_id [] = []
use_codes user_id ((k, row) ∷ t) =
    (k, if row.user_id == user_id && not row.is_used then record row { is_used = true } else row)
    ∷ use_codes user_id t

-- `invalidate_telegram_link_codes`
unfoldable pub invalidate_telegram_link_codes : ℕ → Action (Unit {0})
invalidate_telegram_link_codes user_id = with_session (do
  modify (λ d. record d { telegram_link_codes = use_codes user_id d.telegram_link_codes })
  commit)

-- `unlink_telegram`, of the user's row.
unfoldable pub unlink_telegram : ℕ → User → Action (Unit {0})
unlink_telegram user_id user = with_session (do modify (put_user user_id (unlinked user)); commit)
