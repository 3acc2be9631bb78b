-- ===== src/Auth/Reuse.antt =====
-- A refresh token that was exchanged is refused.
use autopay.Base.{
  ℕ, ◌≡◌, ◌∙◌, ap, refl, inl, true, Option, none, some, String, arith, put, first, KeysBelow,
  UniqueKeys, get_of_KeysBelow, get_of_first, first_passes, key_below, KeysBelow-put,
  first-put_self, first-put_keep,
}
use autopay.Models.{RefreshToken}
use autopay.Session.{Action, Result, ok, err, World}
use autopay.Security.{Settings, Jose, Claims, Decoded, decode_token}
use autopay.Auth.{TokenResponse, is_token_of, is_outstanding, refused, refresh}
use autopay.Auth.Rotation.{signed_out, first-revoke_rows, refresh_spent}
use autopay.Auth.Outcome.{Refreshed, refresh_outcome}

module _ (settings : Settings) (jose : Jose) (sha256 : String → String) where
  -- What an exchange leaves under the token's hash.
  exchanged :
      (made : ℕ → Action (String × ℕ)) (now : ℕ) (token : String) (decoded : Decoded) (w : World)
      {response : TokenResponse} (x : Result TokenResponse × World)
      → KeysBelow w.next_refresh_token w.committed.refresh_tokens
      → UniqueKeys w.committed.refresh_tokens
      → x.0 ≡ ok response
      → Refreshed made sha256 now token decoded w x
      → (claims : Claims) × (user_id : ℕ) × (k : ℕ) × (row : RefreshToken) × (decoded
          ≡ Decoded.valid claims)
        × (claims.sub ≡ some user_id)
        × (first (is_token_of (sha256 token) user_id) x.1.committed.refresh_tokens ≡ some (k, row))
        × (row.revoked ≡ true)
  exchanged made now token decoded w (ok r, w') keys unique e
        (claims, user_id, k, row, expires_at, valid, subject, found, live, unexpired, ts, _, _, _) =
      let t = w.committed.refresh_tokens in
      let test = is_token_of (sha256 token) user_id in
      let row' : RefreshToken = record row { revoked = true } in
      let held = get_of_first test k row t unique found in
      let keys' =
        KeysBelow-put w.next_refresh_token k row' t keys
          (key_below w.next_refresh_token k row t keys held) in
      (
        claims,
        user_id,
        k,
        row',
        valid,
        subject,
        ap (first test) ts
            ∙ first-put_keep test k w.next_refresh_token row' _ (put k row' t)
                (first-put_self test k row row' t found held (first_passes test k row t found))
                (get_of_KeysBelow w.next_refresh_token w.next_refresh_token (put k row' t) keys'
                  (omega arith)),
        refl,
      )
  exchanged made now token decoded w (err e', w') keys unique e s = absurd (cc)

  -- After an exchange that answered normally, another exchange of the same token, at any moment at
  -- which it still decodes to the same user, is refused as revoked, and revokes every token of the
  -- user, the new one included. (Token ids are unique and below the sequence.)
  pub refresh_twice :
      (now now' : ℕ) (jti jti' : String) (ip ip' : Option String) (token : String) (w : World)
      {response : TokenResponse} {claims claims' : Claims}
      → KeysBelow w.next_refresh_token w.committed.refresh_tokens
      → UniqueKeys w.committed.refresh_tokens
      → decode_token settings jose now "refresh" token ≡ Decoded.valid claims
      → decode_token settings jose now' "refresh" token ≡ Decoded.valid claims'
      → claims'.sub ≡ claims.sub
      → (refresh settings jose sha256 now jti ip token w).0 ≡ ok response
      → let w' = (refresh settings jose sha256 now jti ip token w).1 in
        (user_id : ℕ) × (claims.sub ≡ some user_id)
        × (refresh settings jose sha256 now' jti' ip' token w'
            ≡ (err refused, signed_out user_id w'))
        × (first (is_outstanding user_id) (signed_out user_id w').committed.refresh_tokens ≡ none)
  refresh_twice now now' jti jti' ip ip' token w keys unique valid valid' same answered =
      let (claims₀, user_id, k, row, valid₀, subject, found, revoked) =
        exchanged _ now token _ w _ keys unique answered
          (refresh_outcome settings jose sha256 now jti ip token w) in
      let w' = (refresh settings jose sha256 now jti ip token w).1 in
      (
        user_id,
        cc,
        refresh_spent settings jose sha256 now' jti' ip' token w' user_id valid' (cc) k row found
            (inl revoked),
        first-revoke_rows user_id w'.committed.refresh_tokens,
      )
