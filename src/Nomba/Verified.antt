-- ===== src/Nomba/Verified.antt =====
-- Which webhook requests of Nomba are acted on.
use autopay.Base.{
  ◌≡◌, ◌⊎◌, inl, inr, ◌≢◌, refl, sym, ◌∙◌, ap, Bool, true, false, Option, none, some, String,
  str_eq, text_or, eq_iff, arith, if◌then◌else◌,
}
use autopay.Session.{Exn, Result, ok, err, World}
use autopay.Webhooks.{WebhookEvent, WebhookResponse, nomba_webhook}
use autopay.Nomba.Values.{Value, Fields, fields_of, returned, ◌>>=◌}
use autopay.Nomba.Events.{
  Libraries, Headers, compare_digest, data_of, transaction_of, signed_string, verify_payload,
  verify_body, verify_webhook_signature, event_of, event_of_body, parse_verified, parse_webhook,
  webhook_request,
}

digest_of :
    (digest signature : String) → compare_digest digest signature ≡ ok true → signature ≡ digest
unfolding compare_digest
digest_of digest signature h = ground (arith, eq_iff digest signature)

-- The request is answered with an error, and its session leaves the database as it was.
abbrev pub Denied : World → Result WebhookResponse × World → Type 0
Denied w x =
    (x ≡ (err (Exn.http 400 "Invalid signature"), record w { work = w.committed }))
    ⊎ (x ≡ (err Exn.unexpected, record w { work = w.committed }))

module _ (libraries : Libraries) (secret : String) (headers : Headers) (raw_body : String) where
  -- The signature of a request is the digest of the text to be signed under the secret.
  abbrev pub Signed : Fields → Type 0
  Signed payload =
      (fields : Fields) × (data_of payload ≡ ok fields)
      × (transaction : Fields) × (transaction_of fields ≡ ok transaction)
      × (text_or headers.nomba_signature ""
          ≡ libraries.hmac_sha256 secret (signed_string payload fields transaction headers))

  payload-Signed :
      (payload : Fields)
      → verify_payload libraries secret headers (text_or headers.nomba_signature "") payload
        ≡ ok true
      → Signed payload
  unfolding verify_payload
  payload-Signed payload h =
      let (fields, e, h') = returned (data_of payload) _ true h in
      let (transaction, e', h'') = returned (transaction_of fields) _ true h' in
      (fields, e, transaction, e', digest_of _ _ h'')

  body-Signed :
      (body : Option Value)
      → verify_body libraries secret headers (text_or headers.nomba_signature "") body ≡ ok true
      → (v : Value) × (body ≡ some v)
        × (payload : Fields) × (fields_of v ≡ ok payload)
        × Signed payload
  unfolding verify_body
  body-Signed none h = cc
  body-Signed (some v) h =
      let (payload, e, h') = returned (fields_of v) _ true h in
      (v, refl, payload, e, payload-Signed payload h')

  -- The object that a verified request is.
  abbrev pub SignedObject : Fields → Type 0
  SignedObject payload =
      (v : Value) × (libraries.loads raw_body ≡ some v)
      × (fields_of v ≡ ok payload)
      × Signed payload

  not_empty : (s : String) → str_eq s "" ≡ false → s ≢ ""
  not_empty s h = ground (arith, eq_iff s "")

  verified_from :
      (missing : Bool) (body : Result Bool)
      → (if missing then ok false else body) ≡ ok true
      → (missing ≡ false) × (body ≡ ok true)
  verified_from true body h = cc
  verified_from false body h = (refl, h)

  verify-Signed :
      verify_webhook_signature libraries secret headers raw_body ≡ ok true
      → (text_or headers.nomba_signature "" ≢ "") × (payload : Fields) × SignedObject payload
  unfolding verify_webhook_signature
  verify-Signed h =
      let (present, h') = verified_from _ _ h in
      let (v, e, payload, e', signed) = body-Signed (libraries.loads raw_body) h' in
      (not_empty _ present, payload, (v, e, e', signed))

  parsed_from :
      (verified : Bool) (event : WebhookEvent)
      → parse_verified libraries raw_body verified ≡ ok event
      → (verified ≡ true) × (event_of_body libraries raw_body (libraries.loads raw_body) ≡ ok event)
  unfolding parse_verified
  parsed_from false event h = cc
  parsed_from true event h = (refl, h)

  body_says :
      (v : Value) (payload : Fields)
      → fields_of v ≡ ok payload
      → event_of_body libraries raw_body (some v) ≡ event_of libraries raw_body payload
  unfolding event_of_body
  body_says v payload object = rw object refl

  -- Only a request that has a signature, is a JSON object, and whose signature is the HMAC of the
  -- text to be signed under the webhook's secret is parsed; and the event is then the one that the
  -- object says.
  pub signed_event :
      (event : WebhookEvent)
      → parse_webhook libraries secret headers raw_body ≡ ok event
      → (text_or headers.nomba_signature "" ≢ "")
        × (payload : Fields) × SignedObject payload
        × (event_of libraries raw_body payload ≡ ok event)
  unfolding parse_webhook
  signed_event event h =
      let (verified, e, h') =
        returned (verify_webhook_signature libraries secret headers raw_body) _ event h in
      let (is_verified, said) = parsed_from verified event h' in
      let (present, payload, (v, loaded, object, signed)) = verify-Signed (e ∙ ap ok is_verified) in
      (
        present,
        payload,
        (v, loaded, object, signed),
        sym (ap (event_of_body libraries raw_body) loaded ∙ body_says v payload object) ∙ said,
      )

  -- Only this goes wrong in a check of the signature: an `AttributeError` of a body that is not
  -- shaped as one of Nomba's, or a `TypeError` of a signature that is not in ASCII.
  abbrev OnlyUnexpected : Result Bool → Type 0
  OnlyUnexpected (ok b) = Unit
  OnlyUnexpected (err e) = e ≡ Exn.unexpected

  compare-OnlyUnexpected :
      (digest signature : String) → OnlyUnexpected (compare_digest digest signature)
  unfolding compare_digest
  compare-OnlyUnexpected digest signature = ground arith

  fields-unexpected : (v : Value) (e : Exn) → fields_of v ≡ err e → e ≡ Exn.unexpected
  fields-unexpected v e h = ground arith

  verify-OnlyUnexpected :
      OnlyUnexpected (verify_webhook_signature libraries secret headers raw_body)
  unfolding verify_webhook_signature verify_body verify_payload
  verify-OnlyUnexpected = grind (arith, compare-OnlyUnexpected)

  refused_from :
      (w : World) (verified : Result Bool)
      → OnlyUnexpected verified
      → verified ≢ ok true
      → Denied w (nomba_webhook "nomba" (verified >>= parse_verified libraries raw_body) w)
  unfolding nomba_webhook parse_verified
  refused_from w (ok true) only not_verified = absurd (not_verified refl)
  refused_from w (ok false) only not_verified = inl refl
  refused_from w (err e) only not_verified = rw only (inr refl)

  -- A webhook request whose signature is not verified is never acted on: it is answered with 400,
  -- or with the error of an exception that the check itself raises, and changes nothing at all.
  pub unverified_refused :
      (w : World)
      → verify_webhook_signature libraries secret headers raw_body ≢ ok true
      → Denied w (webhook_request libraries secret headers raw_body w)
  unfolding parse_webhook
  unverified_refused w not_verified = refused_from w _ verify-OnlyUnexpected not_verified

  -- Then it is the signature check that says what the request is.
  pub verified_parse :
      (v : Value) (payload : Fields)
      → verify_webhook_signature libraries secret headers raw_body ≡ ok true
      → libraries.loads raw_body ≡ some v
      → fields_of v ≡ ok payload
      → parse_webhook libraries secret headers raw_body ≡ event_of libraries raw_body payload
  unfolding parse_webhook parse_verified event_of_body
  verified_parse v payload verified loaded object = rw (verified, loaded, object) refl
