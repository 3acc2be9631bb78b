-- ===== src/Signup/Stored.antt =====
-- What a signup has stored, and that the new user can log in.
use autopay.Base.{
  ℕ, ◌+◌, ◌≡◌, ◌⊎◌, inl, inr, refl, ap, ◌∙◌, Bool, true, false, Option, none, some, [], ◌∷◌, String,
  str_eq, arith, Table, put, first, KeysBelow, get_of_KeysBelow, first-put_new,
}
use text.Mathlib.TextPositions.{eq_refl}
use autopay.Models.{User}
use autopay.Session.{Result, ok, err, World}
use autopay.Provider.{PaymentProvider}
use autopay.Security.{Settings, Jose, create_access_token, create_refresh_token}
use autopay.Auth.{TokenResponse, issue_tokens}
use autopay.Signup.{
  Bcrypt, SignupRequest, email_of, user_of, has_email, shares, conflict, store_user, store_new_user,
  try_provision_dva, check_password, authenticate_user, signup_hashed, signup_user, finish_signup,
  signup,
}

-- The users of the open transaction and of the database.
abbrev HasUsers : Table User → World → Type 0
HasUsers users w = (w.work.users ≡ users) × (w.committed.users ≡ users)

module _ (users : Table User) where
  try_provision-HasUsers :
      (provider : PaymentProvider) (user_id : ℕ) (user : User) (w : World)
      → HasUsers users w
      → HasUsers users (try_provision_dva provider user_id user w).1
  unfolding try_provision_dva
  try_provision-HasUsers provider user_id user w h = ground arith

  module _ (settings : Settings) (jose : Jose) (sha256 : String → String) (now : ℕ) (jti : String)
      (ip : Option String) where
    issue-HasUsers :
        (user_id : ℕ) (w : World)
        → HasUsers users w
        → HasUsers users (issue_tokens settings jose sha256 now jti ip user_id w).1
    unfolding issue_tokens create_access_token create_refresh_token
    issue-HasUsers user_id w h = ground arith

    finish-HasUsers :
        (bcrypt : Bcrypt) (provider : PaymentProvider) (auto_provision : Bool) (user_id : ℕ)
        (user : User) (w : World)
        → HasUsers users w
        → HasUsers users
            (finish_signup bcrypt settings jose sha256 now jti ip provider auto_provision
              (user_id, user)
              w).1
    unfolding finish_signup
    finish-HasUsers bcrypt provider auto_provision user_id user w h =
        grind (arith, issue-HasUsers, try_provision-HasUsers)

no_email :
    (user : User) (users : Table User)
    → first (shares user) users ≡ none
    → first (has_email user.email) users ≡ none
no_email user [] h = refl
no_email user ((k, row) ∷ t) h = ground (arith, no_email user t)

store_new :
    (user : User) (ip : Option String) (w : World)
    → store_new_user user ip none w ≡ (ok (w.next_user, user), (store_user user ip none w).1)
unfolding store_new_user store_user
store_new user ip w = refl

store_taken :
    (user : User) (ip : Option String) (row : ℕ × User) (w : World)
    → store_new_user user ip (some row) w
      ≡ (err conflict, record w { next_user = w.next_user + 1; work = w.committed })
unfolding store_new_user store_user
store_taken user ip row w = refl

module _ (bcrypt : Bcrypt) (settings : Settings) (jose : Jose) (sha256 : String → String) (now : ℕ)
    (jti : String) (ip : Option String) (provider : PaymentProvider) (auto_provision : Bool)
    (payload : SignupRequest) (w : World) where
  abbrev pub new_user : User
  new_user = user_of payload (bcrypt.hashpw payload.password)

  abbrev pub signed_up : Result TokenResponse × World
  signed_up = signup bcrypt settings jose sha256 now jti ip provider auto_provision payload w

  -- Either the user is stored, or the email or the phone was taken and nothing has changed.
  abbrev pub StoredOrTaken : Result TokenResponse × World → Type 0
  StoredOrTaken x =
      ((first (shares new_user) w.committed.users ≡ none)
        × (x.1.committed.users ≡ put w.next_user new_user w.committed.users))
      ⊎ ((row : ℕ × User) × (first (shares new_user) w.committed.users ≡ some row)
          × (x.0 ≡ err conflict)
          × (x.1.committed ≡ w.committed))

  abbrev stored_world : World
  stored_world = (store_user new_user ip none (record w { work = w.committed })).1

  abbrev opened : World
  opened = record w { work = w.committed }

  hashed :
      str_eq payload.password "" ≡ false
      → signup_user bcrypt payload ip opened
        ≡ signup_hashed bcrypt payload ip (ok (bcrypt.hashpw payload.password)) opened
  unfolding signup_user
  hashed given = rw given refl

  hashed_fresh :
      first (shares new_user) w.committed.users ≡ none
      → signup_hashed bcrypt payload ip (ok (bcrypt.hashpw payload.password)) opened
        ≡ (ok (w.next_user, new_user), stored_world)
  unfolding signup_hashed
  hashed_fresh free =
      ap (λ clash. store_new_user new_user ip clash opened) free ∙ store_new new_user ip opened

  hashed_taken :
      (row : ℕ × User)
      → first (shares new_user) w.committed.users ≡ some row
      → signup_hashed bcrypt payload ip (ok (bcrypt.hashpw payload.password)) opened
        ≡ (err conflict, record opened { next_user = w.next_user + 1 })
  unfolding signup_hashed
  hashed_taken row e =
      ap (λ clash. store_new_user new_user ip clash opened) e ∙ store_taken new_user ip row opened

  fresh :
      str_eq payload.password "" ≡ false
      → first (shares new_user) w.committed.users ≡ none
      → signed_up.1.committed.users ≡ put w.next_user new_user w.committed.users
  unfolding signup store_user
  fresh given free =
      let kept =
        finish-HasUsers (put w.next_user new_user w.committed.users) settings jose sha256 now jti ip
          bcrypt provider auto_provision w.next_user new_user
          (record stored_world { committed = stored_world.work }) (refl, refl) in
      let stored = hashed given ∙ hashed_fresh free in ground (arith, stored, kept.1)

  taken :
      (row : ℕ × User)
      → str_eq payload.password "" ≡ false
      → first (shares new_user) w.committed.users ≡ some row
      → (signed_up.0 ≡ err conflict) × (signed_up.1.committed ≡ w.committed)
  unfolding signup
  taken row given e = let refused = hashed given ∙ hashed_taken row e in ground (arith, refused)

  outcome_from :
      (clash : Option (ℕ × User))
      → str_eq payload.password "" ≡ false
      → first (shares new_user) w.committed.users ≡ clash
      → StoredOrTaken signed_up
  outcome_from none given e = inl (e, fresh given e)
  outcome_from (some row) given e =
      let (refused, same) = taken row given e in inr (row, e, refused, same)

  -- A signup with a password stores the user, with the hash of the password, whatever becomes of the
  -- provisioning and of the tokens; only if the email or the phone is taken it is refused with 409
  -- and changes nothing.
  pub signup_outcome : str_eq payload.password "" ≡ false → StoredOrTaken signed_up
  signup_outcome given = outcome_from _ given refl

  found :
      str_eq payload.password "" ≡ false
      → KeysBelow w.next_user w.committed.users
      → first (shares new_user) w.committed.users ≡ none
      → first (has_email (email_of payload.email)) signed_up.1.committed.users
        ≡ some (w.next_user, new_user)
  unfolding user_of
  found given keys free =
      ap (first (has_email (email_of payload.email))) (fresh given free)
      ∙ first-put_new (has_email (email_of payload.email)) w.next_user new_user w.committed.users
          (no_email new_user w.committed.users free)
          (get_of_KeysBelow w.next_user w.next_user w.committed.users keys (omega arith))
          (eq_refl (email_of payload.email))

  accepted :
      (w' : World)
      → str_eq payload.password "" ≡ false
      → bcrypt.checkpw payload.password (bcrypt.hashpw payload.password) ≡ true
      → str_eq (bcrypt.hashpw payload.password) "" ≡ false
      → check_password bcrypt payload.password (some (w.next_user, new_user)) w'
        ≡ (ok (w.next_user, new_user), w')
  unfolding check_password user_of
  accepted w' given accepts hash = rw (given, hash, accepts) refl

  -- After a signup with an email and a phone that no user has, the same email and password
  -- authenticate the new user. (bcrypt accepts a password against its own hash, which is not empty,
  -- and ids of users are below the sequence.)
  pub signup_then_authenticate :
      str_eq payload.password "" ≡ false
      → bcrypt.checkpw payload.password (bcrypt.hashpw payload.password) ≡ true
      → str_eq (bcrypt.hashpw payload.password) "" ≡ false
      → KeysBelow w.next_user w.committed.users
      → first (shares new_user) w.committed.users ≡ none
      → let w' = record signed_up.1 { work = signed_up.1.committed } in
        authenticate_user bcrypt payload.email payload.password w'
        ≡ (ok (w.next_user, new_user), w')
  unfolding authenticate_user
  signup_then_authenticate given accepts hash keys free =
      let w' = record signed_up.1 { work = signed_up.1.committed } in
      ap (λ row. check_password bcrypt payload.password row w') (found given keys free)
      ∙ accepted w' given accepts hash
