-- ===== src/Nomba/Events.antt =====
-- The webhook side of app/services/payments/nomba.py: `verify_webhook_signature` and `parse_webhook`,
-- and the endpoint they feed.
use autopay.Base.{
  ℕ, ◌*◌, ◌/◌, Bool, true, false, ◌&&◌, Option, none, some, List, [], ◌∷◌, String, ◌++◌, str_eq,
  ltb, text_or, if◌then◌else◌,
}
use autopay.Money.{Decimal, pow10}
use autopay.Session.{PaymentErrorKind, Exn, Result, ok, err, Action}
use autopay.Webhooks.{WebhookEvent, WebhookResponse, nomba_webhook}
use autopay.Nomba.Values.{
  Value, Fields, null, text, num, empty, str, is_true, or_value, get_or, get_field, fields_of,
  ◌>>=◌,
}
use autopay.Nomba.Errors.{codes}
use autopay.Nomba.Tokens.{payment_error}

-- What the webhook takes from Python's libraries: `json.loads` of the decoded bytes, nothing for
-- bytes that are no UTF-8 or no JSON; the two hashes, in hexadecimal; and `Decimal(s)`, nothing for
-- a text that is no number.
pub record Libraries : Type 0 where
  pub loads : String → Option Value
  pub hmac_sha256 : String → String → String
  pub sha256 : String → String
  pub decimal_of : String → Option Decimal

-- The headers that are read.
pub record Headers : Type 0 where
  pub nomba_signature : Option String
  pub nomba_timestamp : Option String

abbrev all_ascii : List ℕ → Bool
all_ascii [] = true
all_ascii (c ∷ s) = ltb c 128 && all_ascii s

-- `hmac.compare_digest`, which takes texts in ASCII only.
unfoldable pub compare_digest : String → String → Result Bool
compare_digest digest signature =
    if all_ascii (codes digest) && all_ascii (codes signature)
    then ok (str_eq digest signature)
    else err Exn.unexpected

-- `payload.get("data") or {}`
abbrev pub data_of : Fields → Result Fields
data_of payload = fields_of (or_value (get_field "data" payload) empty)

-- `data.get("transaction") or data`
abbrev pub transaction_of : Fields → Result Fields
transaction_of fields = elim (is_true (get_field "transaction" fields)) [
  | true ↦ fields_of (get_field "transaction" fields)
  | false ↦ ok fields
]

abbrev part : String → Fields → String
part k fields = str (get_or (text "") k fields)

-- The text that is signed.
unfoldable pub signed_string : Fields → Fields → Fields → Headers → String
signed_string payload fields transaction headers =
    part "event_type" payload
    ++ ":"
    ++ part "requestId" payload
    ++ ":"
    ++ part "userId" fields
    ++ ":"
    ++ part "walletId" fields
    ++ ":"
    ++ part "transactionId" transaction
    ++ ":"
    ++ part "type" transaction
    ++ ":"
    ++ part "time" transaction
    ++ ":"
    ++ part "responseCode" transaction
    ++ ":"
    ++ text_or headers.nomba_timestamp ""

-- `event_map.get(raw, raw)`
unfoldable pub event_type_of : String → String
event_type_of raw =
    if str_eq raw "payment_success"
    then "charge.success"
    else if str_eq raw "payout_success"
    then "transfer.success"
    else if str_eq raw "payout_failed"
    then "transfer.failed"
    else if str_eq raw "payout_refund"
    then "transfer.reversed"
    else raw

-- `int(d * 100)`
abbrev pub truncated_kobo : Decimal → ℕ
truncated_kobo d = d.unscaled * 100 / pow10 d.places

-- `transaction.get("merchantTxRef") or transaction.get("transactionId") or ""`
abbrev pub reference_of : Fields → String
reference_of transaction = str (
    or_value (get_field "merchantTxRef" transaction)
      (or_value (get_field "transactionId" transaction) (text "")))

module _ (libraries : Libraries) where
  module _ (secret : String) (headers : Headers) where
    -- The check of the signature, on the object that the body is.
    unfoldable pub verify_payload : String → Fields → Result Bool
    unfolding signed_string compare_digest
    verify_payload signature payload = do
      fields ← data_of payload
      transaction ← transaction_of fields
      compare_digest
          (libraries.hmac_sha256 secret (signed_string payload fields transaction headers))
          signature

    unfoldable pub verify_body : String → Option Value → Result Bool
    unfolding verify_payload
    verify_body signature none = ok false
    verify_body signature (some v) = do payload ← fields_of v; verify_payload signature payload

    -- `verify_webhook_signature`
    unfoldable pub verify_webhook_signature : String → Result Bool
    unfolding verify_body
    verify_webhook_signature raw_body =
        let signature = text_or headers.nomba_signature "" in
        if str_eq signature "" then ok false else verify_body signature (libraries.loads raw_body)

  -- `transactionAmount` in kobo; a text that is no number is an `InvalidOperation`.
  unfoldable pub amount_of : Value → Result (Option ℕ)
  amount_of null = ok none
  amount_of (num d) = ok (some (truncated_kobo d))
  amount_of v = elim (libraries.decimal_of (str v)) [
    | none ↦ err Exn.unexpected
    | some d ↦ ok (some (truncated_kobo d))
  ]

  -- `payload.get("requestId") or hashlib.sha256(raw_body).hexdigest()`
  abbrev pub event_id_of : String → Fields → String
  event_id_of raw_body payload =
      str (or_value (get_field "requestId" payload) (text (libraries.sha256 raw_body)))

  -- The event that a body says.
  unfoldable pub event_of : String → Fields → Result WebhookEvent
  unfolding event_type_of amount_of
  event_of raw_body payload = do
    fields ← data_of payload
    transaction ← transaction_of fields
    amount ← amount_of (get_field "transactionAmount" transaction)
    ok (record {
      event_type = event_type_of (str (or_value (get_field "event_type" payload) (text "")));
      provider_reference = reference_of transaction;
      event_id = event_id_of raw_body payload;
      amount_kobo = amount;
    })

  unfoldable pub event_of_body : String → Option Value → Result WebhookEvent
  unfolding event_of
  event_of_body raw_body none =
      err (payment_error PaymentErrorKind.webhook_signature "Webhook body is not valid JSON")
  event_of_body raw_body (some v) = do payload ← fields_of v; event_of raw_body payload

  -- What `parse_webhook` does once the signature has been looked at.
  unfoldable pub parse_verified : String → Bool → Result WebhookEvent
  unfolding event_of_body
  parse_verified raw_body false =
      err (payment_error PaymentErrorKind.webhook_signature "Invalid Nomba webhook signature")
  parse_verified raw_body true = event_of_body raw_body (libraries.loads raw_body)

  -- `parse_webhook`
  unfoldable pub parse_webhook : String → Headers → String → Result WebhookEvent
  unfolding verify_webhook_signature parse_verified
  parse_webhook secret headers raw_body = do
    verified ← verify_webhook_signature secret headers raw_body
    parse_verified raw_body verified

  -- `POST /webhooks/nomba`: the bytes and the headers of a request, and what the handler answers.
  abbrev pub webhook_request : String → Headers → String → Action WebhookResponse
  webhook_request secret headers raw_body =
      nomba_webhook "nomba" (parse_webhook secret headers raw_body)
