-- ===== src/Wallet.antt =====
-- app/api/wallet.py: `provision_virtual_account`, in a session of its own. The authenticated user's
-- id and row are arguments.
pub mod Provision
use autopay.Base.{
  ℕ, ◌+◌, Bool, true, false, ◌||◌, Option, none, some, [], ◌∷◌, String, ◌++◌, ◌==◌, str_eq, strip,
  get, put, first, Table,
}
use autopay.Models.{User, VirtualAccount, AuditActor, AuditEventType, AuditEntityType, Json, Db}
use autopay.Session.{
  Exn, Result, ok, err, Action, World, pure, raise, gets, or_raise, ◌>>=◌, ◌>>◌, commit,
  with_session,
}
use autopay.Audit.{write_audit, audit_va_created}
use autopay.Provider.{PaymentProvider, VirtualAccountData}

-- `VirtualAccountPublic`
pub record VirtualAccountPublic : Type 0 where
  pub account_number : Option String
  pub account_name : Option String
  pub bank_name : Option String
  pub bank_code : Option String
  pub provider : String
  pub provider_reference : String

-- `ProvisionResponse`
pub record ProvisionResponse : Type 0 where
  pub virtual_account : VirtualAccountPublic
  pub already_existed : Bool
  pub message : String

abbrev pub public_of : VirtualAccount → VirtualAccountPublic
public_of va = record {
  account_number = va.account_number;
  account_name = va.account_name;
  bank_name = va.bank_name;
  bank_code = none;
  provider = va.provider;
  provider_reference = va.provider_account_reference;
}

abbrev pub owned_by : ℕ → VirtualAccount → Bool
owned_by user_id va = va.user_id == user_id

abbrev same_number : Option String → Option String → Bool
same_number (some a) (some b) = str_eq a b
same_number _ _ = false

-- The UNIQUE constraints of the table, on user, reference and account number.
abbrev pub clashes : VirtualAccount → VirtualAccount → Bool
clashes va row =
    row.user_id == va.user_id
    || str_eq row.provider_account_reference va.provider_account_reference
    || same_number row.account_number va.account_number

-- `session.add(va); session.flush()`, from a row that clashes with the new one.
unfoldable pub insert_account : VirtualAccount → Option (ℕ × VirtualAccount) → Action ℕ
insert_account va (some _) w = (err Exn.integrity_error, w)
insert_account va none w = (
  ok w.next_virtual_account,
  record w {
    work = record w.work {
      virtual_accounts = put w.next_virtual_account va w.work.virtual_accounts;
    };
    next_virtual_account = w.next_virtual_account + 1;
  },
)

module _ (provider : PaymentProvider) (user_id : ℕ) where
  abbrev pub account_of : VirtualAccountData → VirtualAccount
  account_of va_data = record {
    user_id = user_id;
    provider = provider.name;
    provider_account_reference = va_data.provider_reference;
    account_number = some va_data.account_number;
    account_name = some va_data.account_name;
    bank_name = some va_data.bank_name;
    currency = "NGN";
  }

  -- The account is stored, and answered as the database has it.
  unfoldable pub store_account : VirtualAccountData → Action ProvisionResponse
  unfolding insert_account
  store_account va_data = do
    clash ← gets (λ d. first (clashes (account_of va_data)) d.virtual_accounts)
    va_id ← insert_account (account_of va_data) clash
    audit_va_created user_id va_id provider.name va_data.account_number
    commit
    row ← gets (λ d. get va_id d.virtual_accounts)
    va ← or_raise row Exn.invalid_request
    pure (record {
      virtual_account = public_of va;
      already_existed = false;
      message = "Virtual account provisioned.";
    })

  -- What follows the provider's answer; a `PaymentError` is audited and answered with a 502.
  unfoldable pub on_account : Result VirtualAccountData → Action ProvisionResponse
  unfolding store_account
  on_account (ok va_data) = store_account va_data
  on_account (err (Exn.payment e)) = do
    write_audit AuditActor.system AuditEventType.va_created (some user_id)
        (some AuditEntityType.user) (some user_id) none none
        (some (
          ("provider", Json.text provider.name)
          ∷ ("error", Json.text e.message)
          ∷ ("status", Json.text "failed")
          ∷ ("trigger", Json.text "explicit_provision")
          ∷ []))
        none
    commit
    raise (Exn.http 502 ("Could not provision virtual account: " ++ e.message))
  on_account (err e) = raise e

  module _ (user : User) where
    -- The two calls of the provider; an error of the first ends the request.
    unfoldable pub request_account : Result String → Result VirtualAccountData
    request_account (ok customer_code) =
        provider.create_virtual_account customer_code
          (strip (user.first_name ++ " " ++ user.last_name))
    request_account (err e) = err e

    -- From the account that the user has already, or none.
    unfoldable pub provision : Option (ℕ × VirtualAccount) → Action ProvisionResponse
    unfolding on_account request_account
    provision (some (_, existing)) = pure (record {
      virtual_account = public_of existing;
      already_existed = true;
      message = "Virtual account already provisioned.";
    })
    provision none = on_account (
        request_account
          (provider.create_customer user.email user.first_name user.last_name user.phone_number))

    -- `provision_virtual_account`
    unfoldable pub provision_virtual_account : Action ProvisionResponse
    unfolding provision
    provision_virtual_account =
        with_session (do
          existing ← gets (λ d. first (owned_by user_id) d.virtual_accounts)
          provision existing)
