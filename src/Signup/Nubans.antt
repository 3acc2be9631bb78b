-- ===== src/Signup/Nubans.antt =====
-- The provisioning of a virtual account at signup, over Nomba.
use autopay.Base.{ℕ, ◌≡◌, refl, Bool, Option, none, some, String, arith, Table}
use autopay.Models.{User, VirtualAccount}
use autopay.Session.{Exn, Result, ok, err, World, sequence_holds, commit, ◌>>◌}
use autopay.Provider.{PaymentProvider}
use autopay.Security.{Settings, Jose, create_access_token, create_refresh_token}
use autopay.Auth.{issue_tokens}
use autopay.Nomba.Tokens.{Outside, Credentials}
use autopay.Nomba.Operations.{Before, create_virtual_account, nomba_provider}
use autopay.Signup.{
  Bcrypt, SignupRequest, store_user, store_new_user, signup_hashed, signup_user, on_signup_account,
  request_signup_account, provision_from, try_provision_dva, finish_signup, signup,
}

abbrev HasAccounts : Table VirtualAccount → World → Type 0
HasAccounts accounts w =
    (w.work.virtual_accounts ≡ accounts) × (w.committed.virtual_accounts ≡ accounts)

module _ (outside : Outside) (credentials : Credentials) (uuid4_hex : String)
    (before : Before) where
  abbrev nomba : PaymentProvider
  nomba = nomba_provider outside credentials uuid4_hex before

  -- Nomba wants an account name, which the signup does not give.
  no_name :
      (user_id : ℕ) (user : User) (customer : Result String)
      → (e : Exn) × (request_signup_account nomba user_id user customer ≡ err e)
  unfolding request_signup_account create_virtual_account
  no_name user_id user (ok code) = (_, refl)
  no_name user_id user (err e) = (e, refl)

  module _ (accounts : Table VirtualAccount) where
    failed-HasAccounts :
        (user_id : ℕ) (user : User) (e : Exn) (w : World)
        → HasAccounts accounts w
        → HasAccounts accounts (on_signup_account nomba user_id user (err e) w).1
    unfolding on_signup_account
    failed-HasAccounts user_id user e w h = h

    provision_from-HasAccounts :
        (user_id : ℕ) (user : User) (existing : Option (ℕ × VirtualAccount)) (w : World)
        → HasAccounts accounts w
        → HasAccounts accounts (provision_from nomba user_id user existing w).1
    unfolding provision_from
    provision_from-HasAccounts user_id user (some row) w h = h
    provision_from-HasAccounts user_id user none w h =
        let (e, refused) =
          no_name user_id user
            (nomba.create_customer user.email user.first_name user.last_name user.phone_number) in
        rw refused (failed-HasAccounts user_id user e w h)

    module _ (bcrypt : Bcrypt) (settings : Settings) (jose : Jose) (sha256 : String → String)
        (now : ℕ) (jti : String) (ip : Option String) where
      issue-HasAccounts :
          (user_id : ℕ) (w : World)
          → HasAccounts accounts w
          → HasAccounts accounts (issue_tokens settings jose sha256 now jti ip user_id w).1
      unfolding issue_tokens create_access_token create_refresh_token
      issue-HasAccounts user_id w h = ground arith

      finish-HasAccounts :
          (auto_provision : Bool) (created : ℕ × User) (w : World)
          → HasAccounts accounts w
          → HasAccounts accounts
              (finish_signup bcrypt settings jose sha256 now jti ip nomba auto_provision created
                w).1
      unfolding finish_signup try_provision_dva
      finish-HasAccounts auto_provision (user_id, user) w h =
          grind (arith, issue-HasAccounts, provision_from-HasAccounts)

      signup_user-HasAccounts :
          (payload : SignupRequest) (w : World)
          → HasAccounts accounts w
          → HasAccounts accounts (signup_user bcrypt payload ip w).1
      unfolding signup_user signup_hashed store_new_user store_user
      signup_user-HasAccounts payload w h = ground arith

  -- Over Nomba a signup never gets a virtual account, also if accounts are to be provisioned at
  -- signup: the table of accounts stays as it was, since the account name that Nomba requires is not
  -- passed on.
  pub signup_opens_no_account :
      (bcrypt : Bcrypt) (settings : Settings) (jose : Jose) (sha256 : String → String) (now : ℕ)
      (jti : String) (ip : Option String) (auto_provision : Bool) (payload : SignupRequest)
      (w : World)
      → let w' = (signup bcrypt settings jose sha256 now jti ip nomba auto_provision payload w).1 in
        w'.committed.virtual_accounts ≡ w.committed.virtual_accounts
  unfolding signup
  signup_opens_no_account bcrypt settings jose sha256 now jti ip auto_provision payload w =
      let accounts = w.committed.virtual_accounts in
      let open_session = record w { work = w.committed } in
      let stored =
        signup_user-HasAccounts accounts bcrypt settings jose sha256 now jti ip payload open_session
          (refl, refl) in
      (sequence_holds (HasAccounts accounts)
        (λ created.
          commit
          >> finish_signup bcrypt settings jose sha256 now jti ip nomba auto_provision created)
        (signup_user bcrypt payload ip) open_session stored
        λ created w' h.
          finish-HasAccounts accounts bcrypt settings jose sha256 now jti ip auto_provision created
            (record w' { committed = w'.work }) (h.0, h.0)).1
