-- ===== src/Auth.antt =====
-- app/services/auth.py: the refresh tokens, and the handlers of app/api/auth.py that use them. The
-- hash of a token (SHA-256) is a parameter, `now` is read once for a request, and the client's
-- address is an argument.
pub mod Rotation
pub mod Outcome
pub mod Reuse
pub mod Logout
use autopay.Base.{
  ℕ, ◌+◌, ◌*◌, Bool, true, false, not, ◌&&◌, ◌||◌, Option, none, some, List, [], ◌∷◌, String, ◌++◌,
  ltb, ◌==◌, str_eq, truthy, text_or, if◌then◌else◌, get, put, first, Table,
}
use autopay.Models.{User, RefreshToken, Db}
use autopay.Session.{
  Exn, ok, err, Action, World, pure, raise, gets, or_raise, ◌>>=◌, ◌>>◌, modify, commit,
  with_session,
}
use autopay.Audit.{audit_login, audit_logout}
use autopay.Security.{
  Settings, Jose, Decoded, create_access_token, create_refresh_token, decode_token,
}

-- `TokenResponse`: what `issue_tokens` and `rotate_tokens` return.
pub record TokenResponse : Type 0 where
  pub access_token : String
  pub refresh_token : String
  pub expires_in : ℕ

abbrev pub has_hash : String → RefreshToken → Bool
has_hash hash row = str_eq row.token_hash hash

abbrev pub is_token_of : String → ℕ → RefreshToken → Bool
is_token_of hash user_id row = has_hash hash row && row.user_id == user_id

-- A token of the user that is not revoked.
abbrev pub is_outstanding : ℕ → RefreshToken → Bool
is_outstanding user_id row = row.user_id == user_id && not row.revoked

abbrev pub put_token : ℕ → RefreshToken → Db → Db
put_token k row d = record d { refresh_tokens = put k row d.refresh_tokens }

-- The loop of `_revoke_all_for_user`, over the rows that its query selects.
abbrev pub revoke_rows : ℕ → Table RefreshToken → Table RefreshToken
revoke_rows user_id [] = []
revoke_rows user_id ((k, row) ∷ t) =
    (k, if is_outstanding user_id row then record row { revoked = true } else row)
    ∷ revoke_rows user_id t

-- `_revoke_all_for_user`
abbrev pub revoke_all_for_user : ℕ → Action (Unit {0})
revoke_all_for_user user_id =
    modify (λ d. record d { refresh_tokens = revoke_rows user_id d.refresh_tokens })

-- `session.add(row); session.flush()`, from a row that has the same hash.
unfoldable pub insert_token : RefreshToken → Option (ℕ × RefreshToken) → Action (Unit {0})
insert_token row (some _) w = (err Exn.integrity_error, w)
insert_token row none w = (
  ok tt,
  record w {
    work = put_token w.next_refresh_token row w.work;
    next_refresh_token = w.next_refresh_token + 1;
  },
)

abbrev pub refused : Exn
refused = Exn.http 401 "Refresh token revoked or expired. Please log in again."

module _ (settings : Settings) (jose : Jose) (sha256 : String → String) where
  -- `_store_refresh_token`
  unfoldable pub store_refresh_token : ℕ → String × ℕ → Action (Unit {0})
  unfolding insert_token
  store_refresh_token user_id (token, expires_at) = do
    clash ← gets (λ d. first (has_hash (sha256 token)) d.refresh_tokens)
    insert_token
        (record {
          user_id = user_id;
          token_hash = sha256 token;
          expires_at = expires_at;
          revoked = false;
        })
        clash

  -- `revoke_refresh`, from the row that has the token's hash.
  unfoldable pub revoke_row : Option (ℕ × RefreshToken) → Action (Unit {0})
  revoke_row none = pure tt
  revoke_row (some (k, row)) =
      if row.revoked
      then pure tt
      else modify (put_token k (record row { revoked = true })) >> commit

  -- `revoke_refresh`
  unfoldable pub revoke_refresh : String → Action (Unit {0})
  unfolding revoke_row
  revoke_refresh token = do
    row ← gets (λ d. first (has_hash (sha256 token)) d.refresh_tokens)
    revoke_row row

  -- `logout_user`
  unfoldable pub logout_user : ℕ → Option String → Option String → Action (Unit {0})
  unfolding revoke_refresh
  logout_user user_id refresh_token ip = do
    if truthy refresh_token
        then revoke_refresh (text_or refresh_token "")
        else revoke_all_for_user user_id >> commit
    audit_logout user_id ip
    commit

  module _ (now : ℕ) (jti : String) (ip : Option String) where
    -- A new pair for the user, stored, audited and committed: the end of `issue_tokens` (with its
    -- default `audit=True`) and of `rotate_tokens`.
    unfoldable pub issue_tokens : ℕ → Action TokenResponse
    unfolding store_refresh_token
    issue_tokens user_id = do
      access ← create_access_token settings jose now user_id
      refresh ← create_refresh_token settings jose now jti user_id
      store_refresh_token user_id refresh
      audit_login user_id ip
      commit
      pure (record {
        access_token = access;
        refresh_token = refresh.0;
        expires_in = settings.jwt_access_ttl_min * 60;
      })

    -- A token that is unknown, revoked or expired: all tokens of the user are revoked.
    unfoldable pub refuse : ℕ → Action TokenResponse
    refuse user_id = revoke_all_for_user user_id >> (commit >> raise refused)

    -- The new pair, if the user is still there.
    unfoldable pub reissue : ℕ → Option User → Action TokenResponse
    unfolding issue_tokens
    reissue user_id none = raise (Exn.http 401 "User no longer exists.")
    reissue user_id (some user) = issue_tokens user_id

    -- From the row that the token names.
    unfoldable pub rotate_row : ℕ → Option (ℕ × RefreshToken) → Action TokenResponse
    unfolding refuse reissue
    rotate_row user_id none = refuse user_id
    rotate_row user_id (some (k, row)) =
        if row.revoked || ltb row.expires_at now then refuse user_id else (do
          modify (put_token k (record row { revoked = true }))
          user ← gets (λ d. get user_id d.users)
          reissue user_id user)

    -- From the decoded token.
    unfoldable pub rotate_decoded : String → Decoded → Action TokenResponse
    unfolding rotate_row
    rotate_decoded refresh_token (Decoded.jwt_error message) =
        raise (Exn.http 401 ("Invalid refresh token: " ++ message))
    rotate_decoded refresh_token (Decoded.valid claims) = do
      user_id ← or_raise claims.sub Exn.unexpected
      row ← gets (λ d. first (is_token_of (sha256 refresh_token) user_id) d.refresh_tokens)
      rotate_row user_id row

    -- `rotate_tokens`
    unfoldable pub rotate_tokens : String → Action TokenResponse
    unfolding rotate_decoded
    rotate_tokens refresh_token =
        rotate_decoded refresh_token (decode_token settings jose now "refresh" refresh_token)

    -- The handler `refresh`.
    unfoldable pub refresh : String → Action TokenResponse
    unfolding rotate_tokens
    refresh refresh_token = with_session (rotate_tokens refresh_token)

  -- The handler `logout`.
  unfoldable pub logout : ℕ → Option String → Option String → Action (Unit {0})
  unfolding logout_user
  logout user_id refresh_token ip = with_session (logout_user user_id refresh_token ip)
