-- ===== src/Nomba/Sent.antt =====
-- How many requests a call of app/services/payments/nomba.py sends, and how many transfers Nomba
-- accepts of it.
use autopay.Base.{
  ℕ, ◌+◌, ◌≤◌, ◌≡◌, ◌⊎◌, inl, inr, refl, Bool-cases, Bool, true, false, not, ◌&&◌, ◌||◌, leb, none,
  some, List, [], ◌∷◌, str_eq, ltb, if◌then◌else◌, arith,
}
use autopay.Session.{PaymentErrorKind, Exn, Result, ok, err}
use autopay.Nomba.Values.{Value, Fields, null, is_true, obj, get_field}
use autopay.Nomba.Calls.{is_refusal}
use autopay.Nomba.Tokens.{
  Request, Reply, transport_error, response, Outside, Credentials, Client, Call, store_tokens,
  tokens_of, code_ok, on_issued, issue_token, on_refreshed, refresh_token_call, ensure_token_from,
  ensure_token, token_is_fresh, refresh_request, and_then, is_none,
}

-- The number of requests sent.
abbrev pub count : List Request → ℕ
count [] = 0
count (r ∷ sent) = count sent + 1

-- Nomba answered a request with a status that is no error; a transport error is not counted.
abbrev pub is_accepted : Reply → Bool
is_accepted (transport_error e) = false
is_accepted (response status body) = ltb status 400

abbrev pub is_provider_error : PaymentErrorKind → Bool
is_provider_error PaymentErrorKind.provider_error = true
is_provider_error _ = false

-- Nomba may have acted on a request: anything but an answer that the token is not accepted, which is
-- what the client tries again after.
abbrev pub may_have_acted : Reply → Bool
may_have_acted (transport_error e) = true
may_have_acted (response status body) = not (is_refusal status)

-- A `ProviderError`, or an error that is no `PaymentError`.
abbrev pub may_have_moved : Exn → Bool
may_have_moved (Exn.payment e) = is_provider_error e.kind
may_have_moved Exn.unexpected = true
may_have_moved _ = false

abbrev pub accepted_now : Bool → ℕ
accepted_now true = 1
accepted_now false = 0

module _ (outside : Outside) where
  -- The requests for a transfer that Nomba may have acted on.
  abbrev pub transfers_risked : List Request → ℕ
  transfers_risked [] = 0
  transfers_risked (r ∷ sent) =
      accepted_now (str_eq r.path "/v2/transfers/bank" && may_have_acted (outside.answer sent r))
      + transfers_risked sent

  -- The requests for a transfer that Nomba answered with no error status.
  abbrev pub transfers_accepted : List Request → ℕ
  transfers_accepted [] = 0
  transfers_accepted (r ∷ sent) =
      accepted_now (str_eq r.path "/v2/transfers/bank" && is_accepted (outside.answer sent r))
      + transfers_accepted sent

  store_tokens_sent :
      (kept : Value) (body : Fields) (c : Client)
      → (store_tokens outside kept body c).1.sent ≡ c.sent
  unfolding store_tokens tokens_of
  store_tokens_sent kept body c = ground arith

  on_issued_sent : (reply : Reply) (c : Client) → (on_issued outside reply c).1.sent ≡ c.sent
  unfolding on_issued
  on_issued_sent (transport_error e) c = refl
  on_issued_sent (response status none) c = refl
  on_issued_sent (response status (some v)) c = grind (arith, store_tokens_sent)

  abbrev pub Accepts : ℕ → Client → Client → Type 0
  Accepts n c c' = transfers_accepted c'.sent ≡ n + transfers_accepted c.sent

  abbrev pub Risks : ℕ → Client → Client → Type 0
  Risks n c c' = transfers_risked c'.sent ≡ n + transfers_risked c.sent

  abbrev pub RisksAtMost : ℕ → Client → Client → Type 0
  RisksAtMost n c c' = transfers_risked c'.sent ≤ n + transfers_risked c.sent

  -- One exchange: a response below 400 is an acceptance, one from 400 on is none, and an error
  -- can hide one.
  abbrev pub Exchanged : ℕ → Client → Result (ℕ × Value) × Client → Type 0
  Exchanged k c (ok (status, v), c') =
      (count c'.sent ≤ count c.sent + k)
      × Accepts (accepted_now (ltb status 400)) c c'
      × Risks (accepted_now (not (is_refusal status))) c c'
  Exchanged k c (err e, c') =
      (count c'.sent ≤ count c.sent + k)
      × (Accepts 0 c c' ⊎ ((may_have_moved e ≡ true) × Accepts 1 c c'))
      × RisksAtMost 1 c c'

  -- A whole call: at most five requests. One that returns was accepted once, one that raises at
  -- most once, and then not under another error. Nomba may have acted on one of its transfers at most.
  abbrev pub Called : ℕ → {A : Type 0} → Client → Result A × Client → Type 0
  Called k c (ok v, c') = (count c'.sent ≤ count c.sent + k) × Accepts 1 c c' × RisksAtMost 1 c c'
  Called k c (err e, c') =
      (count c'.sent ≤ count c.sent + k)
      × (Accepts 0 c c' ⊎ ((may_have_moved e ≡ true) × Accepts 1 c c'))
      × RisksAtMost 1 c c'

  module _ (credentials : Credentials) where
    -- At most `k` requests, and no transfer.
    abbrev pub NoTransfer : ℕ → Client → Client → Type 0
    NoTransfer k c c' =
        (count c'.sent ≤ count c.sent + k)
        × (transfers_accepted c'.sent ≡ transfers_accepted c.sent)
        × (transfers_risked c'.sent ≡ transfers_risked c.sent)

    issue_token_sends :
        (c : Client)
        → let c' = (issue_token outside credentials c).1 in
          (count c'.sent ≡ count c.sent + 1)
          × (transfers_accepted c'.sent ≡ transfers_accepted c.sent)
          × (transfers_risked c'.sent ≡ transfers_risked c.sent)
    unfolding issue_token
    issue_token_sends c = grind (arith, on_issued_sent)

    stored_sends :
        (body : Fields) (c : Client)
        → NoTransfer 1 c (store_tokens outside c.refresh_token body c).1
    stored_sends body c =
        let same = store_tokens_sent c.refresh_token body c in rw same (omega arith, refl, refl)

    renewed_sends :
        (failed : Bool) (body : Fields) (c : Client)
        → NoTransfer 1 c
            (if failed
              then issue_token outside credentials c
              else store_tokens outside c.refresh_token body c).1
    renewed_sends true body c = let h = issue_token_sends c in (omega arith, h.1, h.2)
    renewed_sends false body c = stored_sends body c

    object_sends :
        (status : ℕ) (v : Value) (c : Client)
        → NoTransfer 1 c (on_refreshed outside credentials (response status (some v)) c).1
    unfolding on_refreshed
    object_sends status (obj shown body) c =
        renewed_sends (leb 400 status || not (code_ok (get_field "code" body))) body c
    object_sends status v c = (omega arith, refl, refl)

    on_refreshed_sends :
        (reply : Reply) (c : Client)
        → let c' = (on_refreshed outside credentials reply c).1 in
          (count c'.sent ≤ count c.sent + 1)
          × (transfers_accepted c'.sent ≡ transfers_accepted c.sent)
          × (transfers_risked c'.sent ≡ transfers_risked c.sent)
    unfolding on_refreshed
    on_refreshed_sends (transport_error e) c = omega arith
    on_refreshed_sends (response status none) c = omega arith
    on_refreshed_sends (response status (some v)) c = object_sends status v c

    refresh_token_sends : (c : Client) → NoTransfer 2 c (refresh_token_call outside credentials c).1
    unfolding refresh_token_call
    refresh_token_sends c = elim (Bool-cases (is_true c.refresh_token)) [
      | inl e ↦ rw e (
          omega (
            arith,
            on_refreshed_sends (outside.answer c.sent (refresh_request outside credentials c))
                (record c { sent = refresh_request outside credentials c ∷ c.sent }),
          ))
      | inr e ↦ rw e (omega (arith, issue_token_sends c))
    ]

    abbrev obtain : Bool → Call (Unit {0})
    obtain none_yet =
        if none_yet then issue_token outside credentials else refresh_token_call outside credentials

    obtain_sends :
        (none_yet : Bool) (c : Client)
        → NoTransfer (if none_yet then 1 else 2) c (obtain none_yet c).1
    obtain_sends true c = omega (arith, issue_token_sends c)
    obtain_sends false c = refresh_token_sends c

    -- Then the token is read, which sends nothing.
    ensured_sends :
        (k : ℕ) (c : Client) (x : Result (Unit {0}) × Client)
        → NoTransfer k c x.1
        → NoTransfer k c (and_then x λ u c'. (ok c'.access_token, c')).1
    ensured_sends k c (ok u, c') h = h
    ensured_sends k c (err e, c') h = h

    at_most_2 :
        (none_yet : Bool) (c : Client) (x : Result (Unit {0}) × Client)
        → NoTransfer (if none_yet then 1 else 2) c x.1
        → NoTransfer 2 c x.1
    at_most_2 true c x h = omega arith
    at_most_2 false c x h = h

    ensure_token_from_sends :
        (fresh : Result Bool) (c : Client)
        → NoTransfer 2 c (ensure_token_from outside credentials fresh c).1
    unfolding ensure_token_from
    ensure_token_from_sends (ok true) c = omega arith
    ensure_token_from_sends (err e) c = omega arith
    ensure_token_from_sends (ok false) c =
        let x = obtain (is_none c.access_token) c in
        ensured_sends 2 c x
          (at_most_2 (is_none c.access_token) c x (obtain_sends (is_none c.access_token) c))

    pub ensure_token_sends : (c : Client) → NoTransfer 2 c (ensure_token outside credentials c).1
    unfolding ensure_token
    ensure_token_sends c = ensure_token_from_sends _ c

    -- Without a token there is none to refresh.
    pub ensure_dropped_sends :
        (c : Client)
        → NoTransfer 1 c (ensure_token outside credentials (record c { access_token = null })).1
    unfolding ensure_token ensure_token_from token_is_fresh
    ensure_dropped_sends c =
        ensured_sends 1 c _ (obtain_sends true (record c { access_token = null }))
