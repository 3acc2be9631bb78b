-- ===== src/Tests/Gateway.antt =====
-- A small Nomba, runs of the client against it, and the client's theorems at concrete inputs.
use autopay.Base.{
  ◌≡◌, inl, refl, Bool, true, false, none, some, [], String, str_eq, text_or, ◌≢◌, ◌==◌, ◌++◌,
  decimal, if◌then◌else◌,
}
use autopay.Session.{Result, ok, Transfer, World}
use autopay.Nomba.Values.{
  Value, Fields, null, text, num, obj, end, field, item, fields_of, get_field,
}
use autopay.Nomba.Tokens.{
  Request, Reply, response, aware, Outside, Credentials, Client, new_client, ensure_token,
}
use autopay.Nomba.Calls.{request, payload_or_error}
use autopay.Nomba.Operations.{Before, nomba_provider, initiate_transfer, resolve_account}
use autopay.Nomba.Events.{
  Libraries, Headers, signed_string, verify_webhook_signature, parse_webhook, webhook_request,
  event_of, amount_of,
}
use autopay.Nomba.Sent.{count, transfers_accepted, Called}
use autopay.Nomba.Once.{initiate_transfer_once}
use autopay.Nomba.Verified.{SignedObject, Denied, signed_event, unverified_refused}
use autopay.Nomba.Reported.{IsRestored, payout_failed_restores}
use autopay.Provider.{PaymentProvider}
use autopay.Payout.Charge.{transfer_of, new_reference}
use autopay.Payout.Execute.{check_balance, check_status, execute_payout}
use autopay.Bills.{pay_bill}
use autopay.Tests.Data.{start, fee}

abbrev pub credentials : Credentials
credentials = record {
  client_id = "id";
  client_secret = "secret";
  account_id = "acc";
  webhook_secret = "hook";
}

abbrev envelope : Fields → Value
envelope payload = obj "{...}" (field "code" (text "00") (field "data" (obj "{...}" payload) end))

abbrev tokens : Value → Fields
tokens expires =
    field "access_token" (text "t1")
      (field "refresh_token" (text "r1") (field "expiresAt" expires end))

abbrev answer_with : Value → Reply → Request → Reply
answer_with expires transfer r =
    if str_eq r.path "/v1/auth/token/issue"
    then response 200 (some (envelope (tokens expires)))
    else if str_eq r.path "/v1/transfers/bank/lookup"
    then response 200 (
        some (
          envelope (
            field "accountNumber" (text "0123456789")
              (field "accountName" (text "IKEJA ELECTRIC") end))))
    else transfer

abbrev transfer_done : Reply
transfer_done =
    response 200 (some (envelope (field "id" (text "n-1") (field "status" (text "success") end))))

-- Tokens last until second 10000, and transfers succeed.
abbrev pub serving : Outside
serving = record {
  answer = λ sent. answer_with (num (record { unscaled = 10000; places = 0 })) transfer_done;
  clock = λ sent. 100;
  fromisoformat = λ s. none;
}

-- The first transfer is answered with 401.
abbrev revoking : Outside
revoking = record serving {
  answer = λ sent.
      answer_with (num (record { unscaled = 10000; places = 0 }))
        (if count sent == 1 then response 401 (some (envelope end)) else transfer_done);
}

abbrev pub transfer : Transfer
transfer = record {
  amount_kobo = 40000;
  recipient_code = "0123456789";
  reference = "autopay_7_a1b2";
  reason = "Bill";
  account_number = "0123456789";
  bank_code = "058";
  account_name = "IKEJA ELECTRIC";
}

served_test :
    (initiate_transfer serving credentials transfer new_client).0
    ≡ ok (record {
      provider_reference = "autopay_7_a1b2";
      provider_transfer_id = "n-1";
      status = "success";
    })
unfolding initiate_transfer request ensure_token payload_or_error autopay.Nomba.Values.str
served_test = refl

-- An issue, the transfer, a second issue and the transfer again; one of them is accepted.
revoked_test :
    let c = (initiate_transfer revoking credentials transfer new_client).1 in
    (count c.sent ≡ 4) × (transfers_accepted revoking c.sent ≡ 1)
unfolding initiate_transfer request ensure_token payload_or_error autopay.Nomba.Values.str
revoked_test = (refl, refl)

initiate_transfer_once_example :
    Called revoking 5 new_client (initiate_transfer revoking credentials transfer new_client)
initiate_transfer_once_example = initiate_transfer_once revoking credentials transfer new_client

abbrev pub holding : Client
holding = record {
  access_token = text "t1";
  refresh_token = text "r1";
  token_expires_at = some (aware 10000);
  sent = [];
}

-- A transfer finds the client as the resolution of its account has left it.
abbrev pub found_holding : Before
found_holding = record {
  account = λ code account_name. holding;
  lookup = λ account_number bank_code. holding;
  transfer = λ t. (resolve_account serving credentials t.account_number t.bank_code holding).1;
}

abbrev transfers : String
transfers = "/v2/transfers/bank"

abbrev transaction : Fields
transaction = field "merchantTxRef" (text "autopay_7_a1b2") end

abbrev fields : Fields
fields = field "transaction" (obj "{...}" transaction) end

abbrev payload : Fields
payload =
    field "event_type" (text "payout_failed")
      (field "requestId" (text "ev-1") (field "data" (obj "{...}" fields) end))

abbrev body : Value
body = obj "{...}" payload

-- A digest that shows its arguments.
abbrev libraries : Libraries
libraries = record {
  loads = λ s. some body;
  hmac_sha256 = λ secret s. secret ++ "/" ++ s;
  sha256 = λ s. s;
  decimal_of = λ s. none;
}

abbrev signed : Headers
signed = record {
  nomba_signature = some "hook/payout_failed:ev-1:::::::now";
  nomba_timestamp = some "now";
}

abbrev forged : Headers
forged = record signed { nomba_signature = some "guess" }

signed_event_example :
    (text_or signed.nomba_signature "" ≢ "")
    × (payload' : Fields) × SignedObject libraries "hook" signed "{}" payload'
    × (event_of libraries "{}" payload' ≡ parse_webhook libraries "hook" signed "{}")
unfolding parse_webhook event_of signed_string autopay.Nomba.Values.str
signed_event_example =
    signed_event libraries "hook" signed "{}"
      (record {
        event_type = "transfer.failed";
        provider_reference = "autopay_7_a1b2";
        event_id = "ev-1";
        amount_kobo = none;
      })
      refl

ok_false_true : ◌≢◌ {A = Result Bool} (ok false) (ok true)
ok_false_true = λ e. cc

unverified_refused_example : Denied start (webhook_request libraries "hook" forged "{}" start)
unfolding verify_webhook_signature autopay.Nomba.Values.str
unverified_refused_example = unverified_refused libraries "hook" forged "{}" start ok_false_true

-- The gateway that the payment request is given.
abbrev gateway : PaymentProvider
gateway = nomba_provider serving credentials "0123456789abcdef0123456789abcdef" found_holding

abbrev paid_world : World
paid_world = (pay_bill gateway fee 1 7 "a1b2" start).1

payout_failed_restores_example :
    IsRestored libraries credentials signed "{}" body payload fields transaction none
      "payout_failed" gateway fee 1 7 "a1b2" start
      (webhook_request libraries "hook" signed "{}" paid_world).1
unfolding pay_bill execute_payout check_status check_balance resolve_account initiate_transfer
    request ensure_token payload_or_error autopay.Nomba.Values.str transfer_of
    verify_webhook_signature amount_of new_reference decimal
payout_failed_restores_example =
    payout_failed_restores libraries credentials signed "{}" body payload fields transaction none
      "payout_failed" gateway fee 1 7 "a1b2" start tt refl refl
      (refl, refl, refl, refl, refl, refl, refl) (inl refl) refl refl
