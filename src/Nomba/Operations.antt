-- ===== src/Nomba/Operations.antt =====
-- The operations of `NombaProvider` in app/services/payments/nomba.py, and the provider as the
-- payout and the wallet see it.
use Prim.Native.String.{slice}
use autopay.Base.{ℕ, Bool, ◌||◌, String, ◌++◌, List, ◌&&◌, str_eq, if◌then◌else◌}
use autopay.Money.{Decimal}
use autopay.Session.{PaymentErrorKind, Result, ok, err, Transfer}
use autopay.Provider.{ResolvedAccount, TransferResult, VirtualAccountData, PaymentProvider}
use autopay.Nomba.Values.{
  Value, Fields, text, num, end, field, str, or_value, get_field, fields_of, item,
}
use autopay.Nomba.Errors.{codes, upper, starts_with}
use autopay.Nomba.Tokens.{Outside, Credentials, Client, Call, ◌>>=◌, lift, payment_error}
use autopay.Nomba.Calls.{request}

-- `amount_naira = Decimal(amount_kobo) / Decimal(100)`
abbrev pub naira_of : ℕ → Decimal
naira_of amount_kobo = record { unscaled = amount_kobo; places = 2 }

abbrev same_codes : List ℕ → List ℕ → Bool
same_codes a b = starts_with a b && starts_with b a

-- `status_map.get(str(status or "").upper(), "pending")`; both texts for a transfer on its way map
-- to the default.
unfoldable pub transfer_status : Value → String
transfer_status status =
    let word = upper (str (or_value status (text ""))) in
    if same_codes word (codes "SUCCESS")
    then "success"
    else if same_codes word (codes "FAILED")
    then "failed"
    else "pending"

abbrev pub missing : String → Bool
missing s = str_eq s ""

-- The body of a transfer.
unfoldable pub transfer_body : Transfer → Fields
transfer_body t = field "amount" (num (naira_of t.amount_kobo)) (
    field "accountNumber" (text t.account_number) (
      field "accountName" (text t.account_name) (
        field "bankCode" (text t.bank_code) (
          field "merchantTxRef" (text t.reference)
            (field "senderName" (text "AutoPay") (field "narration" (text t.reason) end))))))

-- What `initiate_transfer` answers of Nomba's payload.
unfoldable pub transfer_result : Transfer → Value → Result TransferResult
unfolding transfer_status
transfer_result t payload = elim (fields_of payload) [
  | err e ↦ err e
  | ok fields ↦ ok (record {
    provider_reference = t.reference;
    provider_transfer_id = str (or_value (get_field "id" fields) (text ""));
    status = transfer_status (get_field "status" fields);
  })
]

-- `create_customer`, where `uuid4_hex` is what `uuid.uuid4().hex` gives.
abbrev pub create_customer : String → Result String
create_customer uuid4_hex = ok ("apy-" ++ slice uuid4_hex 0 24)

-- `create_transfer_recipient`
abbrev pub create_transfer_recipient : String → Result String
create_transfer_recipient account_number = ok account_number

-- The client as a call finds it, by what the call is asked.
pub record Before : Type 0 where
  pub account : String → String → Client
  pub lookup : String → String → Client
  pub transfer : Transfer → Client

module _ (outside : Outside) (credentials : Credentials) where
  -- `create_virtual_account`; `account_name` is empty for none.
  unfoldable pub create_virtual_account : String → String → Call VirtualAccountData
  create_virtual_account customer_code account_name =
      if missing account_name
      then lift (
          err (
            payment_error PaymentErrorKind.provider_error
              "Nomba requires account_name to create a virtual account"))
      else (do
        payload ←
            request outside credentials "/v1/accounts/virtual" (
              field "accountRef" (text customer_code) (field "accountName" (text account_name) end))
        account_number ← lift (item "bankAccountNumber" payload)
        bank_account_name ← lift (item "bankAccountName" payload)
        bank_name ← lift (item "bankName" payload)
        account_holder_id ← lift (item "accountHolderId" payload)
        lift (
            ok (record {
              account_number = str account_number;
              account_name = str bank_account_name;
              bank_name = str bank_name;
              bank_code = "";
              provider_reference = str account_holder_id;
              provider = "nomba";
            })))

  -- `resolve_account`
  unfoldable pub resolve_account : String → String → Call ResolvedAccount
  resolve_account account_number bank_code = do
    payload ←
        request outside credentials "/v1/transfers/bank/lookup"
          (field "accountNumber" (text account_number) (field "bankCode" (text bank_code) end))
    number ← lift (item "accountNumber" payload)
    account_name ← lift (item "accountName" payload)
    lift (
        ok (record {
          account_number = str number;
          account_name = str account_name;
          bank_code = bank_code;
        }))

  -- `initiate_transfer`
  unfoldable pub initiate_transfer : Transfer → Call TransferResult
  unfolding transfer_body transfer_result
  initiate_transfer t =
      if missing t.account_number || missing t.bank_code || missing t.account_name
      then lift (
          err (
            payment_error PaymentErrorKind.provider_error
              "Nomba transfers require account_number, bank_code and account_name"))
      else (do
        payload ← request outside credentials "/v2/transfers/bank" (transfer_body t)
        lift (transfer_result t payload))

  -- The provider that a payout, a signup or the wallet is given. Its calls share the client: the state
  -- in which each call finds it, tokens and requests, is `before`, a parameter.
  abbrev pub nomba_provider : String → Before → PaymentProvider
  nomba_provider uuid4_hex before = record {
    name = "nomba";
    create_customer = λ email first_name last_name phone. create_customer uuid4_hex;
    create_virtual_account = λ code account_name.
        (create_virtual_account code account_name (before.account code account_name)).0;
    resolve_account = λ account_number bank_code.
        (resolve_account account_number bank_code (before.lookup account_number bank_code)).0;
    create_transfer_recipient =
        λ account_number bank_code account_name. create_transfer_recipient account_number;
    initiate_transfer = λ t. (initiate_transfer t (before.transfer t)).0;
  }
