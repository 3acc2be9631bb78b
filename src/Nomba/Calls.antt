-- ===== src/Nomba/Calls.antt =====
-- `_request` of app/services/payments/nomba.py: one call of the API, tried again once after a 401 or
-- a 403.
use autopay.Base.{ℕ, Bool, ◌||◌, none, some, String, ◌++◌, leb, ◌==◌, decimal, if◌then◌else◌}
use autopay.Session.{PaymentErrorKind, Result, ok, err}
use autopay.Nomba.Values.{Value, Fields, null, str, or_value, get_field, fields_of, empty}
use autopay.Nomba.Errors.{map_nomba_error}
use autopay.Nomba.Tokens.{
  Request, Reply, transport_error, response, Outside, Credentials, Call, ◌>>=◌, ◌>>◌, payment_error,
  send, ensure_token,
}

abbrev pub is_refusal : ℕ → Bool
is_refusal status = status == 401 || status == 403

-- The payload of a body, or the error that its status stands for.
unfoldable pub payload_or_error : ℕ → Value → Result Value
payload_or_error status v = elim (fields_of v) [
  | err e ↦ err e
  | ok body ↦
      if leb 400 status
      then err (map_nomba_error status body)
      else ok (or_value (get_field "data" body) empty)
]

-- A response, its body read.
unfoldable pub read_reply : Reply → Result (ℕ × Value)
read_reply (transport_error e) =
    err (payment_error PaymentErrorKind.provider_error ("Nomba transport error: " ++ e))
read_reply (response status none) = err (
    payment_error PaymentErrorKind.provider_error
      ("Nomba returned non-JSON (" ++ decimal status ++ ")"))
read_reply (response status (some v)) = ok (status, v)

-- `self._access_token = None`
abbrev pub drop_access_token : Call (Unit {0})
drop_access_token c = (ok tt, record c { access_token = null })

abbrev pub request_with : String → Fields → Value → Request
request_with path body token = record {
  path = path;
  body = body;
  authorization = "Bearer " ++ str token;
}

module _ (outside : Outside) (credentials : Credentials) (path : String) (body : Fields) where
  -- A token is made sure of, and the request sent with it.
  unfoldable pub exchange : Call (ℕ × Value)
  unfolding read_reply
  exchange = do
    token ← ensure_token outside credentials
    reply ← send outside (request_with path body token)
    λ c. (read_reply reply, c)

  -- `_request(..., _retried=True)`
  unfoldable pub retried_request : Call Value
  unfolding exchange
  retried_request = do (status, v) ← exchange; λ c. (payload_or_error status v, c)

  -- What `_request` does with the first response.
  unfoldable pub on_response : ℕ × Value → Call Value
  unfolding retried_request
  on_response (status, v) = if is_refusal status then drop_access_token >> retried_request else λ c.
      (payload_or_error status v, c)

  -- `_request`
  unfoldable pub request : Call Value
  unfolding exchange on_response
  request = do answer ← exchange; on_response answer
