-- ===== src/Nomba/Tokens.antt =====
-- The token manager of app/services/payments/nomba.py. A provider's state is the tokens it holds
-- and, for what happens outside it, the requests it has sent. What Nomba answers to a request, and
-- what the clock says, may depend on all that was sent before.
use autopay.Base.{
  ◌*◌, ℕ, ◌+◌, ◌-◌, ◌/◌, Bool, true, false, not, ◌||◌, Option, none, some, List, [], ◌∷◌, String,
  ◌++◌, ltb, leb, ◌≡◌, refl, str_eq, if◌then◌else◌,
}
use autopay.Money.{Decimal, pow10}
use autopay.Session.{PaymentErrorKind, Exn, Result, ok, err}
use autopay.Nomba.Values.{
  Value, Fields, null, text, num, negative, boolean, obj, end, field, str, is_true, or_value,
  get_field, get_or, fields_of, item, empty,
}
use autopay.Nomba.Values
use autopay.Nomba.Errors.{message_of}

-- A request: the path, the JSON body and the `Authorization` header, which is empty for none.
pub record Request : Type 0 where
  pub path : String
  pub body : Fields
  pub authorization : String

-- A transport error (`httpx.HTTPError`) with its text, or a response with its status and its body, which is
-- nothing if it is not JSON.
pub data Reply : Type 0 where
  transport_error : String → Reply
  response : ℕ → Option Value → Reply

-- A point in time in seconds, with or without a time zone. Python does not compare the one with the
-- other.
pub data Moment : Type 0 where
  aware naive : ℕ → Moment

-- What surrounds the provider: Nomba's server, the clock, and `datetime.fromisoformat`.
pub record Outside : Type 0 where
  pub answer : List Request → Request → Reply
  pub clock : List Request → ℕ
  pub fromisoformat : String → Option Moment

-- The arguments of `NombaProvider.__init__` that the requests carry.
pub record Credentials : Type 0 where
  pub client_id : String
  pub client_secret : String
  pub account_id : String
  pub webhook_secret : String

-- `_access_token`, `_refresh_token` and `_token_expires_at`, and the requests sent, newest first.
pub record Client : Type 0 where
  pub access_token : Value
  pub refresh_token : Value
  pub token_expires_at : Option Moment
  pub sent : List Request

abbrev pub Call : Type 0 → Type 0
Call A = Client → Result A × Client

abbrev pub and_then : {A B : Type 0} → Result A × Client → (A → Call B) → Result B × Client
and_then (ok a, c) f = f a c
and_then (err e, c) f = (err e, c)

infixl 5 ◌>>=◌ ◌>>◌
abbrev pub ◌>>=◌ : {A B : Type 0} → Call A → (A → Call B) → Call B
◌>>=◌ m f c = and_then (m c) f

abbrev pub ◌>>◌ : {B : Type 0} → Call (Unit {0}) → Call B → Call B
m >> k = m >>= λ _. k

-- What holds of a chain of calls holds if its first call failed, and if it returned.
pub and_then-holds :
    {A B : Type 0} (P : Result B × Client → Type 0) (x : Result A × Client) (f : A → Call B)
    → ((e : Exn) (c : Client) → x ≡ (err e, c) → P (err e, c))
    → ((a : A) (c : Client) → x ≡ (ok a, c) → P (f a c))
    → P (and_then x f)
and_then-holds P (ok a, c) f failed returned = returned a c refl
and_then-holds P (err e, c) f failed returned = failed e c refl

abbrev pub lift : {A : Type 0} → Result A → Call A
lift r c = (r, c)

abbrev pub payment_error : PaymentErrorKind → String → Exn
payment_error kind message = Exn.payment (record { kind = kind; message = message })

-- `TOKEN_REFRESH_BUFFER` and `ACCESS_TOKEN_DEFAULT_TTL`
abbrev pub token_refresh_buffer : ℕ
token_refresh_buffer = 300

abbrev pub access_token_default_ttl : ℕ
access_token_default_ttl = 1800

-- The state before any request: `__init__`.
abbrev pub new_client : Client
new_client = record {
  access_token = null;
  refresh_token = null;
  token_expires_at = none;
  sent = [];
}

-- `raw.replace("Z", "+00:00")`
abbrev replace_z : String → String
replace_z String.[] = ""
replace_z (String.◌∷◌ c s) =
    let rest = replace_z s in
    if str_eq (String.◌∷◌ c "") "Z" then "+00:00" ++ rest else String.◌∷◌ c rest

-- Ok means that the token's issue or refresh was accepted: no status from 400 on, and no `code` but
-- `null` and "00".
abbrev pub code_ok : Value → Bool
code_ok null = true
code_ok (text s) = str_eq s "00"
code_ok v = false

abbrev pub is_none : Value → Bool
is_none null = true
is_none v = false

module _ (outside : Outside) where
  -- The last second that `datetime.fromtimestamp` takes is that of the year 9999.
  abbrev from_timestamp : ℕ → ℕ → Moment
  from_timestamp now seconds =
      if leb seconds 253402300799 then aware seconds else aware (now + access_token_default_ttl)

  -- A negative timestamp, from the year 1 on, is a moment before 1970. It stands as the moment 0, since
  -- it has passed as well.
  abbrev before_epoch : ℕ → Decimal → Moment
  before_epoch now d =
      if leb d.unscaled (62135596800 * pow10 d.places)
      then aware 0
      else aware (now + access_token_default_ttl)

  -- `_parse_expiry`, at the time `now`; a boolean is an `int`.
  unfoldable pub parse_expiry : ℕ → Value → Moment
  parse_expiry now (text s) = elim (outside.fromisoformat (replace_z s)) [
    | some moment ↦ moment
    | none ↦ aware (now + access_token_default_ttl)
  ]
  parse_expiry now (num d) = from_timestamp now (d.unscaled / pow10 d.places)
  parse_expiry now (negative d) = before_epoch now d
  parse_expiry now (boolean b) = aware (if b then 1 else 0)
  parse_expiry now v = aware (now + access_token_default_ttl)

  -- `datetime.now(timezone.utc) < expires - TOKEN_REFRESH_BUFFER`, a `TypeError` on a naive one.
  unfoldable pub is_before_expiry : ℕ → Option Moment → Result Bool
  is_before_expiry now none = ok false
  is_before_expiry now (some (aware expires)) = ok (ltb now (expires - token_refresh_buffer))
  is_before_expiry now (some (naive expires)) = err Exn.unexpected

  -- `_token_is_fresh`
  unfoldable pub token_is_fresh : Client → Result Bool
  unfolding is_before_expiry
  token_is_fresh c =
      if is_none c.access_token
      then ok false
      else is_before_expiry (outside.clock c.sent) c.token_expires_at

  -- `client.request`
  abbrev pub send : Request → Call Reply
  send request c = (ok (outside.answer c.sent request), record c { sent = request ∷ c.sent })

  -- The tokens that an accepted response names; `kept` stands in for a missing refresh token.
  unfoldable pub tokens_of : Value → Fields → Client → Result Client
  unfolding parse_expiry
  tokens_of kept body c =
      let answer = or_value (get_field "data" body) empty in
      Values.◌>>=◌ (item "access_token" answer) λ access_token.
        Values.◌>>=◌ (fields_of answer) λ fields. ok (record {
          access_token = access_token;
          refresh_token = get_or kept "refresh_token" fields;
          token_expires_at =
              some (parse_expiry (outside.clock c.sent) (get_field "expiresAt" fields));
          sent = c.sent;
        })

  abbrev stored : Client → Result Client → Result (Unit {0}) × Client
  stored c (ok c') = (ok tt, c')
  stored c (err e) = (err e, c)

  unfoldable pub store_tokens : Value → Fields → Call (Unit {0})
  unfolding tokens_of
  store_tokens kept body c = stored c (tokens_of kept body c)

  -- `AuthenticationError(message)`, unless the message is no text: then nothing reads it here, and
  -- the error's own message is its `str`.
  abbrev issue_failed : Fields → Exn
  issue_failed body =
      payment_error PaymentErrorKind.authentication
        (str (message_of body "Nomba token issue failed"))

  -- What `_issue_token` makes of the response. A body that is not JSON raises a `JSONDecodeError`.
  unfoldable pub on_issued : Reply → Call (Unit {0})
  unfolding store_tokens
  on_issued (transport_error e) c = (
    err (
        payment_error PaymentErrorKind.provider_error
          ("Nomba transport error during token issue: " ++ e)),
    c,
  )
  on_issued (response status none) c = (err Exn.unexpected, c)
  on_issued (response status (some v)) c = elim (fields_of v) [
    | err e ↦ (err e, c)
    | ok body ↦
        if leb 400 status || not (code_ok (get_field "code" body))
        then (err (issue_failed body), c)
        else store_tokens null body c
  ]

  module _ (credentials : Credentials) where
    abbrev pub issue_request : Request
    issue_request = record {
      path = "/v1/auth/token/issue";
      body = field "grant_type" (text "client_credentials") (
          field "client_id" (text credentials.client_id)
            (field "client_secret" (text credentials.client_secret) end));
      authorization = "";
    }

    -- `_issue_token`
    unfoldable pub issue_token : Call (Unit {0})
    unfolding on_issued
    issue_token = do reply ← send issue_request; on_issued reply

    abbrev pub refresh_request : Client → Request
    refresh_request c = record {
      path = "/v1/auth/token/refresh";
      body = field "grant_type" (text "refresh_token") (field "refresh_token" c.refresh_token end);
      authorization = "Bearer " ++ str c.access_token;
    }

    -- What `_refresh_token_call` makes of the response: one that is refused falls back to an issue.
    unfoldable pub on_refreshed : Reply → Call (Unit {0})
    unfolding store_tokens issue_token
    on_refreshed (transport_error e) c = (
      err (
          payment_error PaymentErrorKind.provider_error
            ("Nomba transport error during token refresh: " ++ e)),
      c,
    )
    on_refreshed (response status none) c = (err Exn.unexpected, c)
    on_refreshed (response status (some v)) c = elim (fields_of v) [
      | err e ↦ (err e, c)
      | ok body ↦
          if leb 400 status || not (code_ok (get_field "code" body))
          then issue_token c
          else store_tokens c.refresh_token body c
    ]

    -- `_refresh_token_call`
    unfoldable pub refresh_token_call : Call (Unit {0})
    unfolding on_refreshed issue_token
    refresh_token_call c =
        if is_true c.refresh_token
        then (do reply ← send (refresh_request c); on_refreshed reply) c
        else issue_token c

    -- `_ensure_token`, from whether the token is fresh. No other task holds the lock: the second
    -- look at the token under it finds what the first one found.
    unfoldable pub ensure_token_from : Result Bool → Call Value
    unfolding issue_token refresh_token_call
    ensure_token_from (err e) c = (err e, c)
    ensure_token_from (ok true) c = (ok c.access_token, c)
    ensure_token_from (ok false) c =
        ((if is_none c.access_token then issue_token else refresh_token_call) >> λ c'.
        (ok c'.access_token, c'))
          c

    -- `_ensure_token`
    unfoldable pub ensure_token : Call Value
    unfolding ensure_token_from token_is_fresh
    ensure_token c = ensure_token_from (token_is_fresh c) c
