-- ===== src/Nomba/Once.antt =====
-- One transfer of app/services/payments/nomba.py, from its first request to its answer.
use autopay.Base.{ℕ, ◌+◌, ◌≤◌, ◌≡◌, inl, inr, refl, subst, Bool-cases, none, some, ◌∷◌, arith}
use autopay.Session.{Result, ok, err, Transfer}
use autopay.Nomba.Values.{Value, Fields, null}
use autopay.Nomba.Tokens.{
  Request, Reply, transport_error, response, Outside, Credentials, Client, ensure_token, and_then,
  and_then-holds, lift,
}
use autopay.Nomba.Calls.{
  is_refusal, payload_or_error, request_with, read_reply, exchange, retried_request, on_response,
  request,
}
use autopay.Nomba.Operations.{initiate_transfer, transfer_body, transfer_result}
use autopay.Nomba.Sent.{
  count, Accepts, Risks, Exchanged, Called, NoTransfer, ensure_token_sends, ensure_dropped_sends,
}

module _ (outside : Outside) (credentials : Credentials) where
  module _ (body : Fields) where
    abbrev transfer_request : Value → Request
    transfer_request token = request_with "/v2/transfers/bank" body token

    reply_accepts :
        (k : ℕ) (token : Value) (reply : Reply) (c c' : Client)
        → NoTransfer outside credentials k c c'
        → outside.answer c'.sent (transfer_request token) ≡ reply
        → Exchanged outside
            (k + 1)
            c
            (read_reply reply, record c' { sent = transfer_request token ∷ c'.sent })
    unfolding read_reply
    reply_accepts k token (transport_error e) c c' h same = ground arith
    reply_accepts k token (response status none) c c' h same = ground arith
    reply_accepts k token (response status (some v)) c c' h same = ground arith

    exchange_accepts :
        (k : ℕ) (c₀ c : Client)
        → NoTransfer outside credentials k c₀ (ensure_token outside credentials c).1
        → Exchanged outside (k + 1) c₀ (exchange outside credentials "/v2/transfers/bank" body c)
    unfolding exchange
    exchange_accepts k c₀ c h =
        and_then-holds (Exchanged outside (k + 1) c₀) (ensure_token outside credentials c) _
          (λ e c' same. ground arith)
          λ token c' same.
            reply_accepts k token _ c₀ c'
              (subst (λ x. NoTransfer outside credentials k c₀ x.1) same h) refl

    payload_accepts :
        (k status : ℕ) (v : Value) (c c' : Client)
        → Exchanged outside k c (ok (status, v), c')
        → Called outside k c (payload_or_error status v, c')
    unfolding payload_or_error
    payload_accepts k status v c c' h = ground arith

    retried_accepts :
        (c : Client)
        → Called outside 2 c (
            retried_request outside credentials "/v2/transfers/bank" body
              (record c { access_token = null }))
    unfolding retried_request
    retried_accepts c =
        let h =
          exchange_accepts 1 c (record c { access_token = null })
            (ensure_dropped_sends outside credentials c) in
        and_then-holds (Called outside 2 c)
          (exchange outside credentials "/v2/transfers/bank" body
            (record c { access_token = null }))
          _ (λ e c' same. subst (Exchanged outside 2 c) same h)
          λ answer c' same.
            payload_accepts 2 answer.0 answer.1 c c' (subst (Exchanged outside 2 c) same h)

    later :
        (k : ℕ) (c c' : Client) (x : Result Value × Client)
        → count c'.sent ≤ count c.sent + 3
        → Accepts outside 0 c c'
        → Risks outside 0 c c'
        → Called outside 2 c' x
        → Called outside 5 c x
    later k c c' (ok v, c'') few none_yet refused h = ground arith
    later k c c' (err e, c'') few none_yet refused h = ground arith

    on_response_accepts :
        (status : ℕ) (v : Value) (c c' : Client)
        → Exchanged outside 3 c (ok (status, v), c')
        → Called outside 5 c
            (on_response outside credentials "/v2/transfers/bank" body (status, v) c')
    unfolding on_response
    on_response_accepts status v c c' h = elim (Bool-cases (is_refusal status)) [
      | inl e ↦
          rw e (later 2 c c' _ (omega arith) (ground arith) (ground arith) (retried_accepts c'))
      | inr e ↦ rw e (payload_accepts 5 status v c c' (omega arith))
    ]

    request_accepts :
        (c : Client) → Called outside 5 c (request outside credentials "/v2/transfers/bank" body c)
    unfolding request
    request_accepts c =
        let h = exchange_accepts 2 c c (ensure_token_sends outside credentials c) in
        and_then-holds (Called outside 5 c)
          (exchange outside credentials "/v2/transfers/bank" body c) _
          (λ e c' same. let u = subst (Exchanged outside 3 c) same h in (omega arith, u.1, u.2))
          λ answer c' same.
            on_response_accepts answer.0 answer.1 c c' (subst (Exchanged outside 3 c) same h)

  module _ (t : Transfer) (c : Client) where
    transfer_called :
        (x : Result Value × Client)
        → Called outside 5 c x
        → Called outside 5 c (and_then x λ payload. lift (transfer_result t payload))
    unfolding transfer_result
    transfer_called (ok v, c') h = ground arith
    transfer_called (err e, c') h = h

    -- A transfer is asked for in at most five requests. All requests for it but one at most were
    -- answered with 401 or 403, so that it is never asked for again once Nomba may have acted on it: no
    -- other error status, unreadable answer or lost answer is tried again. If the call returns,
    -- exactly one of its requests was answered without an error status (below 400). If it raises,
    -- none was, or one was and the error is a `ProviderError` or no `PaymentError` at all.
    pub initiate_transfer_once : Called outside 5 c (initiate_transfer outside credentials t c)
    unfolding initiate_transfer
    initiate_transfer_once =
        let h = transfer_called _ (request_accepts (transfer_body t) c) in ground arith
