-- ===== src/Auth/Outcome.antt =====
-- The exchange of a refresh token as a whole, and that a token that was exchanged is refused.
use autopay.Base.{
  ℕ, ◌≤◌, ◌≡◌, ◌⊎◌, refl, inl, inr, true, false, Option, none, some, String, arith, get, put, first,
  Option-cases,
}
use autopay.Models.{RefreshToken}
use autopay.Session.{Result, ok, err, Action, World, pure}
use autopay.Security.{Settings, Jose, Claims, Decoded, decode_token, create_refresh_token}
use autopay.Auth.{TokenResponse, has_hash, is_token_of, is_outstanding, refused, refresh}
use autopay.Auth.Rotation.{
  signed_out, IsSpent, first-revoke_rows, refresh_undecodable, refresh_without_subject, tokens_made,
  refresh_unknown, refresh_spent, refresh_orphan, refresh_clash, refresh_exchanges,
}

-- A token that names no row of the user, or one that is revoked or expired.
abbrev pub IsRefusable : (String → String) → ℕ → String → ℕ → World → Type 0
IsRefusable sha256 now token user_id w =
    (first (is_token_of (sha256 token) user_id) w.committed.refresh_tokens ≡ none)
    ⊎ ((k : ℕ) × (row : RefreshToken) × (first (is_token_of (sha256 token) user_id)
            w.committed.refresh_tokens
          ≡ some (k, row))
        × IsSpent now row)

-- A token that does not decode or names no user, or a live one: then its user is gone, or the hash of
-- the new token is taken.
-- `made` is how a new token is made for a user.
abbrev pub Unused :
    (ℕ → Action (String × ℕ)) → (String → String) → ℕ → String → Decoded → World → Type 0
Unused made sha256 now token decoded w =
    ((message : String) × (decoded ≡ Decoded.jwt_error message))
    ⊎ ((claims : Claims) × (decoded ≡ Decoded.valid claims) × (claims.sub ≡ none))
    ⊎ ((claims : Claims) × (user_id : ℕ) × (k : ℕ) × (row : RefreshToken) × (decoded
          ≡ Decoded.valid claims)
        × (claims.sub ≡ some user_id)
        × (first (is_token_of (sha256 token) user_id) w.committed.refresh_tokens ≡ some (k, row))
        × (row.revoked ≡ false)
        × (now ≤ row.expires_at)
        × ((get user_id w.committed.users ≡ none)
            ⊎ ((token' : String) × (expires_at : ℕ) × (clash : ℕ × RefreshToken) × (made user_id
                  ≡ pure (token', expires_at))
                × (first (has_hash (sha256 token'))
                      (put k (record row { revoked = true }) w.committed.refresh_tokens)
                    ≡ some clash))))

-- What an exchange has done, by how it ended; `decoded` is what the token decodes to.
abbrev pub Refreshed :
    (ℕ → Action (String × ℕ))
    → (String → String)
    → ℕ
    → String
    → Decoded
    → World
    → Result TokenResponse × World
    → Type 0
Refreshed made sha256 now token decoded w (ok response, w') =
    (claims : Claims) × (user_id : ℕ) × (k : ℕ) × (row : RefreshToken) × (expires_at : ℕ) × (decoded
      ≡ Decoded.valid claims)
    × (claims.sub ≡ some user_id)
    × (first (is_token_of (sha256 token) user_id) w.committed.refresh_tokens ≡ some (k, row))
    × (row.revoked ≡ false)
    × (now ≤ row.expires_at)
    × (w'.committed.refresh_tokens
        ≡ put w.next_refresh_token
            (record {
              user_id = user_id;
              token_hash = sha256 response.refresh_token;
              expires_at = expires_at;
              revoked = false;
            })
            (put k (record row { revoked = true }) w.committed.refresh_tokens))
    × (w'.committed.users ≡ w.committed.users)
    × (w'.committed.bills ≡ w.committed.bills)
    × (w'.committed.transactions ≡ w.committed.transactions)
Refreshed made sha256 now token decoded w (err e, w') =
    ((w'.committed ≡ w.committed) × Unused made sha256 now token decoded w)
    ⊎ ((claims : Claims) × (user_id : ℕ) × (decoded ≡ Decoded.valid claims)
        × (claims.sub ≡ some user_id)
        × IsRefusable sha256 now token user_id w
        × (e ≡ refused)
        × (w'.committed ≡ (signed_out user_id w).committed)
        × (first (is_outstanding user_id) w'.committed.refresh_tokens ≡ none))

module _ (settings : Settings) (jose : Jose) (sha256 : String → String) (now : ℕ) (jti : String)
    (ip : Option String) (token : String) (w : World) where
  abbrev decoded : Decoded
  decoded = decode_token settings jose now "refresh" token

  IsSpent-or_live :
      (row : RefreshToken) → IsSpent now row ⊎ ((row.revoked ≡ false) × (now ≤ row.expires_at))
  IsSpent-or_live row = ground arith

  -- An exchange of the live row `k`.
  exchange :
      (claims : Claims) (user_id k : ℕ) (row : RefreshToken)
      → decoded ≡ Decoded.valid claims
      → claims.sub ≡ some user_id
      → first (is_token_of (sha256 token) user_id) w.committed.refresh_tokens ≡ some (k, row)
      → row.revoked ≡ false
      → now ≤ row.expires_at
      → (expires_at : ℕ) (new : TokenResponse) (x : Result TokenResponse × World)
      → (x.0 ≡ ok new)
        × (x.1.committed.refresh_tokens
            ≡ put w.next_refresh_token
                (record {
                  user_id = user_id;
                  token_hash = sha256 new.refresh_token;
                  expires_at = expires_at;
                  revoked = false;
                })
                (put k (record row { revoked = true }) w.committed.refresh_tokens))
        × (x.1.committed.users ≡ w.committed.users)
        × (x.1.committed.bills ≡ w.committed.bills)
        × (x.1.committed.transactions ≡ w.committed.transactions)
      → Refreshed (create_refresh_token settings jose now jti) sha256 now token decoded w x
  exchange claims user_id k row valid subject found live unexpired expires_at new (ok r, w')
        (e, ts, us, bs, tx) =
      (claims, user_id, k, row, expires_at, valid, subject, found, live, unexpired, cc, us, bs, tx)
  exchange claims user_id k row valid subject found live unexpired expires_at new (err e', w')
        (e, _, _, _, _) =
      absurd (cc)

  with_row :
      (claims : Claims) (user_id k : ℕ) (row : RefreshToken)
      → decoded ≡ Decoded.valid claims
      → claims.sub ≡ some user_id
      → first (is_token_of (sha256 token) user_id) w.committed.refresh_tokens ≡ some (k, row)
      → row.revoked ≡ false
      → now ≤ row.expires_at
      → Refreshed
          (create_refresh_token settings jose now jti)
          sha256
          now
          token
          decoded
          w
          (refresh settings jose sha256 now jti ip token w)
  with_row claims user_id k row valid subject found live unexpired =
      let (access, (token', expires_at), made, made') =
        tokens_made settings jose sha256 now jti ip token w valid user_id in
      let tokens = put k (record row { revoked = true }) w.committed.refresh_tokens in
      elim (Option-cases (get user_id w.committed.users)) [
        | inl gone ↦
            rw
              (refresh_orphan settings jose sha256 now jti ip token w user_id valid subject k row
                found live unexpired gone)
              (inl (
                refl,
                inr (
                    inr
                      (claims, user_id, k, row, valid, subject, found, live, unexpired, inl gone)),
              ))
        | inr (user, held) ↦ elim (Option-cases (first (has_hash (sha256 token')) tokens)) [
          | inr ((j, row'), clash) ↦
              rw
                (refresh_clash settings jose sha256 now jti ip token w user_id valid subject k row
                  found live unexpired user held access token' expires_at made made' j row' clash)
                (inl (
                  refl,
                  inr (
                      inr (
                        claims,
                        user_id,
                        k,
                        row,
                        valid,
                        subject,
                        found,
                        live,
                        unexpired,
                        inr (token', expires_at, (j, row'), made', clash),
                      )),
                ))
          | inl clash ↦
              exchange claims user_id k row valid subject found live unexpired expires_at _ _ (
                refresh_exchanges settings jose sha256 now jti ip token w user_id valid subject k
                  row found live unexpired user held access token' expires_at made made' clash)
        ]
      ]

  with_subject :
      (claims : Claims) (user_id : ℕ)
      → decoded ≡ Decoded.valid claims
      → claims.sub ≡ some user_id
      → Refreshed
          (create_refresh_token settings jose now jti)
          sha256
          now
          token
          decoded
          w
          (refresh settings jose sha256 now jti ip token w)
  with_subject claims user_id valid subject =
      let out = first-revoke_rows user_id w.committed.refresh_tokens in
      elim (Option-cases (first (is_token_of (sha256 token) user_id) w.committed.refresh_tokens)) [
        | inl unknown ↦
            rw
              (refresh_unknown settings jose sha256 now jti ip token w user_id valid subject
                unknown)
              (inr (claims, user_id, valid, subject, inl unknown, refl, refl, out))
        | inr ((k, row), found) ↦ elim (IsSpent-or_live row) [
          | inl spent ↦
              rw
                (refresh_spent settings jose sha256 now jti ip token w user_id valid subject k row
                  found spent)
                (inr (claims, user_id, valid, subject, inr (k, row, found, spent), refl, refl, out))
          | inr (live, unexpired) ↦ with_row claims user_id k row valid subject found live unexpired
        ]
      ]

  decoding :
      (d : Decoded)
      → decoded ≡ d
      → Refreshed
          (create_refresh_token settings jose now jti)
          sha256
          now
          token
          decoded
          w
          (refresh settings jose sha256 now jti ip token w)
  decoding (Decoded.jwt_error message) e =
      rw (refresh_undecodable settings jose sha256 now jti ip token w message e)
        (inl (refl, inl (message, e)))
  decoding (Decoded.valid claims) e = elim (Option-cases claims.sub) [
    | inl missing ↦
        rw (refresh_without_subject settings jose sha256 now jti ip token w e missing)
          (inl (refl, inr (inl (claims, e, missing))))
    | inr (user_id, subject) ↦ with_subject claims user_id e subject
  ]

  -- An exchange that answers normally was of a token that decodes, with a row of its user that is
  -- neither revoked nor expired; it commits that row as revoked and one new row for the token that
  -- it returns. A token that decodes to a user but has no row of that user, or one that is revoked or
  -- expired, is answered with the 401 for it, and every token of the user is revoked. Any other
  -- answer changes nothing that is committed: the token does not decode or names no user, or it is
  -- live, and its user is gone or the hash of the new token is taken. No exchange that answers
  -- normally changes a wallet, bill or transaction.
  pub refresh_outcome :
      Refreshed
        (create_refresh_token settings jose now jti)
        sha256
        now
        token
        (decode_token settings jose now "refresh" token)
        w
        (refresh settings jose sha256 now jti ip token w)
  refresh_outcome = decoding _ refl
