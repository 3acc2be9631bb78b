-- ===== src/Wallet/Provision.antt =====
-- What a request for a virtual account does, and that a second one answers the same account.
use autopay.Base.{
  ℕ, ◌+◌, true, false, none, some, [], ◌∷◌, last_four, ◌∙◌, ◌≡◌, ◌⊎◌, inl, inr, refl, arith,
  ==_refl, put, first, Option-cases, KeysBelow, get_of_KeysBelow, get-put_self, first-put_new,
}
use autopay.Models.{User, VirtualAccount, AuditActor, AuditEventType, AuditEntityType, Json, Db}
use autopay.Session.{Exn, Result, ok, err, World, with_session, add_audit}
use autopay.Provider.{PaymentProvider, VirtualAccountData}
use autopay.Wallet.{
  ProvisionResponse, public_of, owned_by, clashes, account_of, store_account, on_account,
  request_account, provision_virtual_account,
}

-- What a request has done, by how it ended.
abbrev pub Provisioned : ℕ → World → Result ProvisionResponse × World → Type 0
Provisioned user_id w (ok response, w') =
    (va_id : ℕ) × (va : VirtualAccount) × (first (owned_by user_id) w'.committed.virtual_accounts
      ≡ some (va_id, va))
    × (response.virtual_account ≡ public_of va)
    × (w'.committed.users ≡ w.committed.users)
    × (w'.committed.bills ≡ w.committed.bills)
    × (w'.committed.transactions ≡ w.committed.transactions)
    × (((response.already_existed ≡ true) × (w'.committed ≡ w.committed))
        ⊎ ((response.already_existed ≡ false)
            × (first (owned_by user_id) w.committed.virtual_accounts ≡ none)
            × (w'.committed.virtual_accounts ≡ put va_id va w.committed.virtual_accounts)))
Provisioned user_id w (err e, w') =
    (w'.committed.virtual_accounts ≡ w.committed.virtual_accounts)
    × (w'.committed.users ≡ w.committed.users)
    × (w'.committed.bills ≡ w.committed.bills)
    × (w'.committed.transactions ≡ w.committed.transactions)
    × (first (owned_by user_id) w.committed.virtual_accounts ≡ none)

module _ (provider : PaymentProvider) (user_id : ℕ) (user : User) (w : World) where
  existing :
      (va_id : ℕ) (va : VirtualAccount)
      → first (owned_by user_id) w.committed.virtual_accounts ≡ some (va_id, va)
      → provision_virtual_account provider user_id user w ≡ (
        ok (record {
          virtual_account = public_of va;
          already_existed = true;
          message = "Virtual account already provisioned.";
        }),
        record w { work = w.committed },
      )
  unfolding provision_virtual_account
  existing va_id va e = ground arith

  abbrev answer : Result VirtualAccountData
  answer =
      request_account provider user_id user
        (provider.create_customer user.email user.first_name user.last_name user.phone_number)

  new_request :
      first (owned_by user_id) w.committed.virtual_accounts ≡ none
      → provision_virtual_account provider user_id user w
        ≡ with_session (on_account provider user_id answer) w
  unfolding provision_virtual_account
  new_request new = ground arith

  refused :
      (e : Exn)
      → first (owned_by user_id) w.committed.virtual_accounts ≡ none
      → Provisioned user_id w (with_session (on_account provider user_id (err e)) w)
  unfolding on_account
  refused (Exn.http code detail) new = (refl, refl, refl, refl, new)
  refused (Exn.payment e) new = (refl, refl, refl, refl, new)
  refused Exn.integrity_error new = (refl, refl, refl, refl, new)
  refused Exn.invalid_request new = (refl, refl, refl, refl, new)
  refused Exn.unexpected new = (refl, refl, refl, refl, new)

  -- The database with the new account and its audit row.
  abbrev with_account : VirtualAccountData → Db
  with_account va_data =
      add_audit
        (record {
          user_id = some user_id;
          actor = AuditActor.system;
          event_type = AuditEventType.va_created;
          entity_type = some AuditEntityType.virtual_account;
          entity_id = some w.next_virtual_account;
          before_state = none;
          after_state = some (
              ("provider", Json.text provider.name)
              ∷ ("account_number_last4", Json.text (last_four va_data.account_number))
              ∷ []);
          event_metadata = none;
          ip_address = none;
        })
        (record w.committed {
          virtual_accounts =
              put w.next_virtual_account (account_of provider user_id va_data)
                w.committed.virtual_accounts;
        })

  stored_new :
      (va_data : VirtualAccountData)
      → first (clashes (account_of provider user_id va_data)) w.committed.virtual_accounts ≡ none
      → with_session (on_account provider user_id (ok va_data)) w ≡ (
        ok (record {
          virtual_account = public_of (account_of provider user_id va_data);
          already_existed = false;
          message = "Virtual account provisioned.";
        }),
        record w {
          committed = with_account va_data;
          work = with_account va_data;
          next_virtual_account = w.next_virtual_account + 1;
        },
      )
  unfolding on_account store_account
  stored_new va_data e = ground (
    arith,
    get-put_self w.next_virtual_account (account_of provider user_id va_data)
        w.committed.virtual_accounts,
  )

  clashing :
      (va_data : VirtualAccountData) (k : ℕ) (row : VirtualAccount)
      → first (clashes (account_of provider user_id va_data)) w.committed.virtual_accounts
        ≡ some (k, row)
      → with_session (on_account provider user_id (ok va_data)) w
        ≡ (err Exn.integrity_error, record w { work = w.committed })
  unfolding on_account store_account
  clashing va_data k row e = ground arith

  stored :
      (va_data : VirtualAccountData)
      → KeysBelow w.next_virtual_account w.committed.virtual_accounts
      → first (owned_by user_id) w.committed.virtual_accounts ≡ none
      → Provisioned user_id w (with_session (on_account provider user_id (ok va_data)) w)
  stored va_data keys new =
      let va = account_of provider user_id va_data in
      let table = w.committed.virtual_accounts in
      elim (Option-cases (first (clashes va) table)) [
        | inr (k, e) ↦ rw (clashing va_data k.0 k.1 e) (refl, refl, refl, refl, new)
        | inl e ↦ rw (stored_new va_data e) (
          w.next_virtual_account,
          va,
          first-put_new (owned_by user_id) w.next_virtual_account va table new
              (get_of_KeysBelow w.next_virtual_account w.next_virtual_account table keys
                (omega arith))
              (==_refl user_id),
          refl,
          refl,
          refl,
          refl,
          inr (refl, new, refl),
        )
      ]

  answered :
      (r : Result VirtualAccountData)
      → KeysBelow w.next_virtual_account w.committed.virtual_accounts
      → first (owned_by user_id) w.committed.virtual_accounts ≡ none
      → Provisioned user_id w (with_session (on_account provider user_id r) w)
  answered (ok va_data) keys new = stored va_data keys new
  answered (err e) keys new = refused e new

  -- A request that answers normally answers the account that the user has afterwards in the
  -- database: the one that was there already, with nothing changed, or a new one, if there was none.
  -- After any other answer there is no account of the user and none was added. No wallet, bill or
  -- transaction changes. (Account ids are below the sequence.)
  pub provision_outcome :
      KeysBelow w.next_virtual_account w.committed.virtual_accounts
      → Provisioned user_id w (provision_virtual_account provider user_id user w)
  provision_outcome keys =
      elim (Option-cases (first (owned_by user_id) w.committed.virtual_accounts)) [
        | inr ((va_id, va), e) ↦
            rw (existing va_id va e) (va_id, va, e, refl, refl, refl, refl, inl (refl, refl))
        | inl new ↦ rw (new_request new) (answered answer keys new)
      ]

  closed : let w' = (provision_virtual_account provider user_id user w).1 in w'.work ≡ w'.committed
  unfolding provision_virtual_account
  closed = refl

module _ (provider : PaymentProvider) (user_id : ℕ) (user : User) (w : World) where
  again :
      (provider' : PaymentProvider) {response : ProvisionResponse}
      (x : Result ProvisionResponse × World)
      → x.0 ≡ ok response
      → x.1.work ≡ x.1.committed
      → Provisioned user_id w x
      → provision_virtual_account provider' user_id user x.1 ≡ (
        ok (record {
          virtual_account = response.virtual_account;
          already_existed = true;
          message = "Virtual account already provisioned.";
        }),
        x.1,
      )
  again provider' (ok r, w') e same (va_id, va, found, shown, _, _, _, _) =
      existing provider' user_id user w' va_id va found ∙ cc
  again provider' (err e', w') e same s = cc

  -- A request that follows one that answered normally, through any provider, answers the same
  -- account as one that exists already, and changes nothing. (Account ids are below the sequence.)
  pub provision_twice :
      (provider' : PaymentProvider) {response : ProvisionResponse}
      → KeysBelow w.next_virtual_account w.committed.virtual_accounts
      → (provision_virtual_account provider user_id user w).0 ≡ ok response
      → let w' = (provision_virtual_account provider user_id user w).1 in
        provision_virtual_account provider' user_id user w' ≡ (
          ok (record {
            virtual_account = response.virtual_account;
            already_existed = true;
            message = "Virtual account already provisioned.";
          }),
          w',
        )
  provision_twice provider' keys e =
      again provider' _ e (closed provider user_id user w)
        (provision_outcome provider user_id user w keys)
