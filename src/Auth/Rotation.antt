-- ===== src/Auth/Rotation.antt =====
-- The exchange of a refresh token, branch by branch.
use autopay.Base.{
  ℕ, ◌*◌, ◌≤◌, ◌<◌, ◌≡◌, ◌⊎◌, refl, inl, inr, true, false, Option, none, some, [], ◌∷◌, String,
  ◌++◌, str_eq, arith, get, put, first, Bool-cases, Table,
}
use autopay.Models.{User, RefreshToken}
use autopay.Session.{pure, Exn, ok, err, World}
use autopay.Security.{
  Settings, Jose, Claims, Decoded, create_access_token, create_refresh_token, decode_token,
}
use autopay.Auth.{has_hash, is_token_of, is_outstanding, revoke_rows, refused, refresh}

pub first-revoke_rows :
    (user_id : ℕ) (t : Table RefreshToken)
    → first (is_outstanding user_id) (revoke_rows user_id t) ≡ none
first-revoke_rows user_id [] = refl
first-revoke_rows user_id ((k, row) ∷ t) = ground (arith, first-revoke_rows user_id t)

-- The committed database with all tokens of the user revoked.
abbrev pub signed_out : ℕ → World → World
signed_out user_id w =
    let d = record w.committed {
      refresh_tokens = revoke_rows user_id w.committed.refresh_tokens;
    } in
    record w { committed = d; work = d }

-- A row that cannot be exchanged.
abbrev pub IsSpent : ℕ → RefreshToken → Type 0
IsSpent now row = (row.revoked ≡ true) ⊎ (row.expires_at < now)

module _ (settings : Settings) (jose : Jose) (sha256 : String → String) (now : ℕ) (jti : String)
    (ip : Option String) (token : String) (w : World) where
  pub refresh_undecodable :
      (message : String)
      → decode_token settings jose now "refresh" token ≡ Decoded.jwt_error message
      → refresh settings jose sha256 now jti ip token w ≡ (
        err (Exn.http 401 ("Invalid refresh token: " ++ message)),
        record w { work = w.committed },
      )
  unfolding refresh
  refresh_undecodable message e = ground arith

  pub refresh_without_subject :
      {claims : Claims}
      → decode_token settings jose now "refresh" token ≡ Decoded.valid claims
      → claims.sub ≡ none
      → refresh settings jose sha256 now jti ip token w
        ≡ (err Exn.unexpected, record w { work = w.committed })
  unfolding refresh
  refresh_without_subject e missing = ground arith

  -- A token that decodes shows that the secret is set, so that new ones can be made.
  pub tokens_made :
      {claims : Claims}
      → decode_token settings jose now "refresh" token ≡ Decoded.valid claims
      → (user_id : ℕ)
      → (access : String) × (refresh : String × ℕ) × (create_access_token settings jose now user_id
          ≡ pure access)
        × (create_refresh_token settings jose now jti user_id ≡ pure refresh)
  unfolding decode_token create_access_token create_refresh_token
  tokens_made e user_id = elim (Bool-cases (str_eq settings.jwt_secret_key "")) [
    | inl c ↦ absurd (cc)
    | inr c ↦ rw c (_, _, refl, refl)
  ]

  module _ (user_id : ℕ) {claims : Claims}
      (valid : decode_token settings jose now "refresh" token ≡ Decoded.valid claims)
      (subject : claims.sub ≡ some user_id) where
    pub refresh_unknown :
        first (is_token_of (sha256 token) user_id) w.committed.refresh_tokens ≡ none
        → refresh settings jose sha256 now jti ip token w ≡ (err refused, signed_out user_id w)
    unfolding refresh
    refresh_unknown e = ground arith

    pub refresh_spent :
        (k : ℕ) (row : RefreshToken)
        → first (is_token_of (sha256 token) user_id) w.committed.refresh_tokens ≡ some (k, row)
        → IsSpent now row
        → refresh settings jose sha256 now jti ip token w ≡ (err refused, signed_out user_id w)
    unfolding refresh
    refresh_spent k row e h = ground arith

    module _ (k : ℕ) (row : RefreshToken)
        (found : first (is_token_of (sha256 token) user_id) w.committed.refresh_tokens
          ≡ some (k, row))
        (live : row.revoked ≡ false) (unexpired : now ≤ row.expires_at) where
      pub refresh_orphan :
          get user_id w.committed.users ≡ none
          → refresh settings jose sha256 now jti ip token w
            ≡ (err (Exn.http 401 "User no longer exists."), record w { work = w.committed })
      unfolding refresh
      refresh_orphan gone = ground arith

      module _ (user : User) (held : get user_id w.committed.users ≡ some user)
          (access token' : String) (expires_at : ℕ)
          (new_access : create_access_token settings jose now user_id ≡ pure access)
          (new_refresh : create_refresh_token settings jose now jti user_id
            ≡ pure (token', expires_at)) where
        abbrev exchanged : Table RefreshToken
        exchanged = put k (record row { revoked = true }) w.committed.refresh_tokens

        abbrev new_row : RefreshToken
        new_row = record {
          user_id = user_id;
          token_hash = sha256 token';
          expires_at = expires_at;
          revoked = false;
        }

        pub refresh_clash :
            (j : ℕ) (row' : RefreshToken)
            → first (has_hash (sha256 token')) exchanged ≡ some (j, row')
            → refresh settings jose sha256 now jti ip token w
              ≡ (err Exn.integrity_error, record w { work = w.committed })
        unfolding refresh
        refresh_clash j row' clash = ground arith

        pub refresh_exchanges :
            first (has_hash (sha256 token')) exchanged ≡ none
            → let (r, w') = refresh settings jose sha256 now jti ip token w in
              (r
                ≡ ok (record {
                  access_token = access;
                  refresh_token = token';
                  expires_in = settings.jwt_access_ttl_min * 60;
                }))
              × (w'.committed.refresh_tokens ≡ put w.next_refresh_token new_row exchanged)
              × (w'.committed.users ≡ w.committed.users)
              × (w'.committed.bills ≡ w.committed.bills)
              × (w'.committed.transactions ≡ w.committed.transactions)
        unfolding refresh
        refresh_exchanges clash = ground arith
