-- ===== src/Signup.antt =====
-- Signup, login and the current user: app/services/auth.py and app/api/auth.py, with the passwords of
-- app/core/security.py. bcrypt is a parameter, with the salt inside.
pub mod Stored
pub mod Nubans
use autopay.Base.{
  ℕ, ◌+◌, Bool, true, false, not, ◌&&◌, ◌||◌, Option, none, some, List, [], ◌∷◌, String, ◌++◌,
  str_eq, strip, if◌then◌else◌, get, put, first,
}
use autopay.Base.Letters.{lower}
use autopay.Models.{User, VirtualAccount, AuditActor, AuditEventType, AuditEntityType, Json, Db}
use autopay.Session.{
  PaymentError, Exn, Result, ok, err, Action, World, pure, raise, gets, or_raise, ◌>>=◌, ◌>>◌,
  modify, commit, rollback, put_user, with_session,
}
use autopay.Audit.{write_audit, audit_user_signup, audit_va_created}
use autopay.Provider.{PaymentProvider, VirtualAccountData}
use autopay.Wallet.{owned_by, clashes, account_of, insert_account}
use autopay.Security.{Settings, Jose, Decoded, decode_token}
use autopay.Auth.{TokenResponse, issue_tokens}

pub record Bcrypt : Type 0 where
  pub hashpw : String → String
  pub checkpw : String → String → Bool

-- `SignupRequest`
pub record SignupRequest : Type 0 where
  pub first_name : String
  pub last_name : String
  pub email : String
  pub phone_number : String
  pub password : String

-- `email.lower().strip()`
abbrev pub email_of : String → String
email_of email = strip (lower email)

-- The new row.
unfoldable pub user_of : SignupRequest → String → User
user_of payload hashed = record {
  first_name = strip payload.first_name;
  last_name = strip payload.last_name;
  email = email_of payload.email;
  phone_number = strip payload.phone_number;
  hashed_password = hashed;
  telegram_chat_id = none;
  is_telegram_linked = false;
  balance = 0;
  currency = "NGN";
  address = none;
}

abbrev pub has_email : String → User → Bool
has_email email user = str_eq user.email email

-- The UNIQUE constraints of the table that a new row can break: email and phone.
abbrev pub shares : User → User → Bool
shares user row = has_email user.email row || str_eq row.phone_number user.phone_number

abbrev pub conflict : Exn
conflict = Exn.http 409 "An account with that email or phone already exists."

-- The sequence gives an id, also to a row that is refused.
abbrev take_id : Action (Unit {0})
take_id w = (ok tt, record w { next_user = w.next_user + 1 })

abbrev insert_user : User → Action ℕ
insert_user user w = (
  ok w.next_user,
  record w { work = put_user w.next_user user w.work; next_user = w.next_user + 1 },
)

-- The flush of the new row, from a row that shares its email or phone.
unfoldable pub store_user : User → Option String → Option (ℕ × User) → Action ℕ
store_user user ip (some _) = take_id >> (rollback >> raise conflict)
store_user user ip none = do user_id ← insert_user user; audit_user_signup user_id ip; pure user_id

unfoldable pub store_new_user : User → Option String → Option (ℕ × User) → Action (ℕ × User)
unfolding store_user
store_new_user user ip clash = do user_id ← store_user user ip clash; pure (user_id, user)

-- The text of an exception, as far as this model has one.
abbrev error_text : Exn → String
error_text (Exn.payment e) = e.message
error_text (Exn.http code detail) = detail
error_text e = ""

module _ (provider : PaymentProvider) (user_id : ℕ) (user : User) where
  -- `_try_provision_dva`, from the provider's answer: any exception is audited.
  unfoldable pub on_signup_account : Result VirtualAccountData → Action (Unit {0})
  unfolding insert_account
  on_signup_account (ok va_data) = do
    clash ← gets (λ d. first (clashes (account_of provider user_id va_data)) d.virtual_accounts)
    va_id ← insert_account (account_of provider user_id va_data) clash
    audit_va_created user_id va_id provider.name va_data.account_number
  on_signup_account (err e) =
      write_audit AuditActor.system AuditEventType.va_created (some user_id)
        (some AuditEntityType.user) (some user_id) none none
        (some (
          ("provider", Json.text provider.name)
          ∷ ("error", Json.text (error_text e))
          ∷ ("status", Json.text "failed")
          ∷ ("trigger", Json.text "signup")
          ∷ []))
        none

  -- The two calls; the second is not given an account name.
  unfoldable pub request_signup_account : Result String → Result VirtualAccountData
  request_signup_account (ok customer_code) = provider.create_virtual_account customer_code ""
  request_signup_account (err e) = err e

  unfoldable pub provision_from : Option (ℕ × VirtualAccount) → Action (Unit {0})
  unfolding on_signup_account request_signup_account
  provision_from (some existing) = pure tt
  provision_from none = on_signup_account (
      request_signup_account
        (provider.create_customer user.email user.first_name user.last_name user.phone_number))

  -- `_try_provision_dva`
  unfoldable pub try_provision_dva : Action (Unit {0})
  unfolding provision_from
  try_provision_dva = do
    existing ← gets (λ d. first (owned_by user_id) d.virtual_accounts)
    provision_from existing

module _ (bcrypt : Bcrypt) where
  -- `hash_password`
  abbrev pub hash_password : String → Result String
  hash_password plain = if str_eq plain "" then err Exn.unexpected else ok (bcrypt.hashpw plain)

  -- `verify_password`
  abbrev pub verify_password : String → String → Bool
  verify_password plain hashed =
      not (str_eq plain "") && not (str_eq hashed "") && bcrypt.checkpw plain hashed

  -- `authenticate_user`, from the row with the email.
  unfoldable pub check_password : String → Option (ℕ × User) → Action (ℕ × User)
  check_password password none = raise (Exn.http 401 "Invalid email or password.")
  check_password password (some (user_id, user)) =
      if verify_password password user.hashed_password
      then pure (user_id, user)
      else raise (Exn.http 401 "Invalid email or password.")

  -- `authenticate_user`
  unfoldable pub authenticate_user : String → String → Action (ℕ × User)
  unfolding check_password
  authenticate_user email password = do
    row ← gets (λ d. first (has_email (email_of email)) d.users)
    check_password password row

  -- `signup_user`, from the hash of the password.
  unfoldable pub signup_hashed : SignupRequest → Option String → Result String → Action (ℕ × User)
  unfolding store_new_user
  signup_hashed payload ip (err e) = raise e
  signup_hashed payload ip (ok hashed) = do
    clash ← gets (λ d. first (shares (user_of payload hashed)) d.users)
    store_new_user (user_of payload hashed) ip clash

  -- `signup_user`
  unfoldable pub signup_user : SignupRequest → Option String → Action (ℕ × User)
  unfolding signup_hashed
  signup_user payload ip = signup_hashed payload ip (hash_password payload.password)

  module _ (settings : Settings) (jose : Jose) (sha256 : String → String) (now : ℕ) (jti : String)
      (ip : Option String) where
    -- The handler `login`.
    unfoldable pub login : String → String → Action TokenResponse
    unfolding authenticate_user
    login email password = with_session (do
      (user_id, user) ← authenticate_user email password
      issue_tokens settings jose sha256 now jti ip user_id)

    -- What `signup` does once the user is committed.
    unfoldable pub finish_signup : PaymentProvider → Bool → ℕ × User → Action TokenResponse
    unfolding try_provision_dva
    finish_signup provider auto_provision (user_id, user) = do
      if auto_provision then try_provision_dva provider user_id user else pure tt
      commit
      issue_tokens settings jose sha256 now jti ip user_id

    -- The handler `signup`, with `settings.auto_provision_dva_on_signup`.
    unfoldable pub signup : PaymentProvider → Bool → SignupRequest → Action TokenResponse
    unfolding signup_user finish_signup
    signup provider auto_provision payload =
        with_session (do
          created ← signup_user payload ip
          commit
          finish_signup provider auto_provision created)

module _ (settings : Settings) (jose : Jose) (now : ℕ) where
  abbrev unauthorized : String → Exn
  unauthorized detail = Exn.http 401 detail

  -- `get_current_user`, from the decoded access token.
  unfoldable pub current_user : Decoded → Action (ℕ × User)
  current_user (Decoded.jwt_error message) = raise (unauthorized message)
  current_user (Decoded.valid claims) = do
    user_id ← or_raise claims.sub Exn.unexpected
    row ← gets (λ d. get user_id d.users)
    user ← or_raise row (unauthorized "User no longer exists.")
    pure (user_id, user)

  -- `get_current_user`, of the header's scheme and token, or none.
  unfoldable pub get_current_user : Option (String × String) → Action (ℕ × User)
  unfolding current_user
  get_current_user none = raise (unauthorized "Missing or malformed Authorization header.")
  get_current_user (some (scheme, token)) =
      if str_eq (lower scheme) "bearer"
      then current_user (decode_token settings jose now "access" token)
      else raise (unauthorized "Missing or malformed Authorization header.")

  -- An `HTTPException` is caught.
  abbrev or_none : Result (ℕ × User) × World → Result (Option (ℕ × User)) × World
  or_none (ok user, w) = (ok (some user), w)
  or_none (err (Exn.http code detail), w) = (ok none, w)
  or_none (err e, w) = (err e, w)

  -- `get_optional_current_user`
  unfoldable pub get_optional_current_user : Option (String × String) → Action (Option (ℕ × User))
  unfolding get_current_user
  get_optional_current_user none w = (ok none, w)
  get_optional_current_user (some (scheme, token)) w =
      if str_eq (lower scheme) "bearer"
      then or_none (get_current_user (some (scheme, token)) w)
      else (ok none, w)
