-- ===== src/Auth/Logout.antt =====
-- After a logout the tokens that it ends are refused.
use autopay.Base.{
  ℕ, ◌≡◌, ◌∙◌, sym, ap, refl, inl, inr, true, false, Option, none, some, [], ◌∷◌, String, str_eq,
  eq_iff, arith, get, put, first, Option-cases, Bool-cases, UniqueKeys, get_of_first, first_passes,
  Table,
}
use autopay.Models.{RefreshToken}
use autopay.Session.{err, World}
use autopay.Security.{Settings, Jose, Claims, Decoded, decode_token}
use autopay.Auth.{has_hash, is_token_of, revoke_rows, refused, refresh, logout}
use autopay.Auth.Rotation.{signed_out, refresh_unknown, refresh_spent}

-- A hash stands in one row only: the UNIQUE constraint.
abbrev pub UniqueHashes : Table RefreshToken → Type 0
UniqueHashes [] = Unit
UniqueHashes ((k, row) ∷ t) = (first (has_hash row.token_hash) t ≡ none) × UniqueHashes t

-- What is left of a user's tokens after all are revoked is revoked.
revoked_rows :
    (hash : String) (user_id k : ℕ) (row : RefreshToken) (t : Table RefreshToken)
    → first (is_token_of hash user_id) (revoke_rows user_id t) ≡ some (k, row)
    → row.revoked ≡ true
revoked_rows hash user_id k row [] h = cc
revoked_rows hash user_id k row ((j, r) ∷ t) h = ground (arith, revoked_rows hash user_id k row t)

no_token :
    (hash : String) (user_id : ℕ) (t : Table RefreshToken)
    → first (has_hash hash) t ≡ none
    → first (is_token_of hash user_id) t ≡ none
no_token hash user_id [] h = refl
no_token hash user_id ((j, r) ∷ t) h = ground (arith, no_token hash user_id t)

-- The row that has the hash is the only one that can be the user's.
only_row :
    (hash : String) (user_id k j : ℕ) (row row' : RefreshToken) (t : Table RefreshToken)
    → UniqueHashes t
    → first (has_hash hash) t ≡ some (k, row)
    → first (is_token_of hash user_id) t ≡ some (j, row')
    → row' ≡ row
only_row hash user_id k j row row' [] u h g = cc
only_row hash user_id k j row row' ((i, r) ∷ t) u h g = ground (
  arith,
  eq_iff r.token_hash hash,
  no_token hash user_id t,
  only_row hash user_id k j row row' t u.1,
)

-- Also when it is replaced by one with the same hash.
only_row-put :
    (hash : String) (user_id k j : ℕ) (row row' new : RefreshToken) (t : Table RefreshToken)
    → UniqueHashes t
    → get k t ≡ some row
    → first (has_hash hash) t ≡ some (k, row)
    → has_hash hash row ≡ true
    → has_hash hash new ≡ true
    → first (is_token_of hash user_id) (put k new t) ≡ some (j, row')
    → row' ≡ new
only_row-put hash user_id k j row row' new [] u e h p q g = cc
only_row-put hash user_id k j row row' new ((i, r) ∷ t) u e h p q g = ground (
  arith,
  eq_iff r.token_hash hash,
  no_token hash user_id t,
  only_row-put hash user_id k j row row' new t u.1,
)

module _ (settings : Settings) (jose : Jose) (sha256 : String → String) (now : ℕ) (jti : String)
    (ip ip' : Option String) (w : World) where
  -- A token all of whose rows are revoked is refused.
  spent_token :
      (token : String) (user_id : ℕ) (w' : World) {claims : Claims}
      → decode_token settings jose now "refresh" token ≡ Decoded.valid claims
      → claims.sub ≡ some user_id
      → ((k : ℕ) (row : RefreshToken)
          → first (is_token_of (sha256 token) user_id) w'.committed.refresh_tokens ≡ some (k, row)
          → row.revoked ≡ true)
      → refresh settings jose sha256 now jti ip token w' ≡ (err refused, signed_out user_id w')
  spent_token token user_id w' valid subject revoked =
      elim (Option-cases (first (is_token_of (sha256 token) user_id) w'.committed.refresh_tokens)) [
        | inl e ↦ refresh_unknown settings jose sha256 now jti ip token w' user_id valid subject e
        | inr ((k, row), e) ↦
            refresh_spent settings jose sha256 now jti ip token w' user_id valid subject k row e
              (inl (revoked k row e))
      ]

  logout_everywhere :
      (user_id : ℕ)
      → (logout settings jose sha256 user_id none ip' w).1.committed.refresh_tokens
        ≡ revoke_rows user_id w.committed.refresh_tokens
  unfolding logout
  logout_everywhere user_id = refl

  -- After a logout without a token, the exchange of any token that decodes to the user is refused
  -- and leaves the user without a token.
  pub logout_ends_all :
      (token : String) (user_id : ℕ) {claims : Claims}
      → decode_token settings jose now "refresh" token ≡ Decoded.valid claims
      → claims.sub ≡ some user_id
      → let w' = (logout settings jose sha256 user_id none ip' w).1 in
        refresh settings jose sha256 now jti ip token w' ≡ (err refused, signed_out user_id w')
  logout_ends_all token user_id valid subject =
      spent_token token user_id _ valid subject (λ k row e.
        revoked_rows (sha256 token) user_id k row w.committed.refresh_tokens
          (ap (first (is_token_of (sha256 token) user_id)) (sym (logout_everywhere user_id)) ∙ e))

  module _ (token : String) (user_id caller : ℕ) (given : str_eq token "" ≡ false) where
    logout_unknown :
        first (has_hash (sha256 token)) w.committed.refresh_tokens ≡ none
        → (logout settings jose sha256 caller (some token) ip' w).1.committed.refresh_tokens
          ≡ w.committed.refresh_tokens
    unfolding logout
    logout_unknown e = ground arith

    logout_revoked :
        (k : ℕ) (row : RefreshToken)
        → first (has_hash (sha256 token)) w.committed.refresh_tokens ≡ some (k, row)
        → row.revoked ≡ true
        → (logout settings jose sha256 caller (some token) ip' w).1.committed.refresh_tokens
          ≡ w.committed.refresh_tokens
    unfolding logout
    logout_revoked k row e r = ground arith

    logout_live :
        (k : ℕ) (row : RefreshToken)
        → first (has_hash (sha256 token)) w.committed.refresh_tokens ≡ some (k, row)
        → row.revoked ≡ false
        → (logout settings jose sha256 caller (some token) ip' w).1.committed.refresh_tokens
          ≡ put k (record row { revoked = true }) w.committed.refresh_tokens
    unfolding logout
    logout_live k row e r = ground arith

    module _ (hashes : UniqueHashes w.committed.refresh_tokens)
        (keys : UniqueKeys w.committed.refresh_tokens) where
      left_revoked :
          (j : ℕ) (row' : RefreshToken)
          → first
              (is_token_of (sha256 token) user_id)
              (logout settings jose sha256 caller (some token) ip' w).1.committed.refresh_tokens
            ≡ some (j, row')
          → row'.revoked ≡ true
      left_revoked j row' e =
          let t = w.committed.refresh_tokens in
          let test = is_token_of (sha256 token) user_id in
          elim (Option-cases (first (has_hash (sha256 token)) t)) [
            | inl unknown ↦
                let gone = no_token (sha256 token) user_id t unknown in
                let left = ap (first test) (logout_unknown unknown) in absurd (cc)
            | inr ((k, row), found) ↦ elim (Bool-cases row.revoked) [
              | inl r ↦
                  ap (λ (x : RefreshToken). x.revoked)
                    (only_row (sha256 token) user_id k j row row' t hashes found
                      (ap (first test) (sym (logout_revoked k row found r)) ∙ e))
                  ∙ r
              | inr r ↦
                  ap (λ (x : RefreshToken). x.revoked)
                    (only_row-put (sha256 token) user_id k j row row'
                      (record row { revoked = true }) t hashes
                      (get_of_first (has_hash (sha256 token)) k row t keys found) found
                      (first_passes (has_hash (sha256 token)) k row t found)
                      (first_passes (has_hash (sha256 token)) k row t found)
                      (ap (first test) (sym (logout_live k row found r)) ∙ e))
            ]
          ]

      -- After a logout with a token, the exchange of that token is refused, whoever it decodes to.
      -- (The token is not empty; the ids and the hashes of tokens are unique.)
      pub logout_ends_token :
          {claims : Claims}
          → decode_token settings jose now "refresh" token ≡ Decoded.valid claims
          → claims.sub ≡ some user_id
          → let w' = (logout settings jose sha256 caller (some token) ip' w).1 in
            refresh settings jose sha256 now jti ip token w' ≡ (err refused, signed_out user_id w')
      logout_ends_token valid subject = spent_token token user_id _ valid subject left_revoked
