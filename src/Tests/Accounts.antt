-- ===== src/Tests/Accounts.antt =====
-- Runs of the wallet and the token service, and their theorems at concrete inputs.
use autopay.Base.{
  arith, ℕ, ◌≡◌, ◌++◌, refl, true, false, some, none, [], ◌∷◌, String, str_eq, if◌then◌else◌,
  text_or, strip, first,
}
use autopay.Session.{ok, err, World}
use autopay.Security.{
  Settings, Claims, Decoded, Jose, create_access_token, create_refresh_token, decode_token,
}
use autopay.Auth.{is_outstanding, refused, refresh, logout}
use autopay.Auth.Rotation.{signed_out}
use autopay.Auth.Outcome.{Refreshed, refresh_outcome}
use autopay.Auth.Reuse.{refresh_twice}
use autopay.Auth.Logout.{logout_ends_token}
use autopay.Wallet.{provision_virtual_account}
use autopay.Wallet.Provision.{Provisioned, provision_outcome, provision_twice}
use autopay.Tests.Data.{willing, broke, ada, db, start}

provision_outcome_example : Provisioned 1 start (provision_virtual_account willing 1 ada start)
provision_outcome_example = provision_outcome willing 1 ada start tt

provision_twice_example :
    let w' = (provision_virtual_account willing 1 ada start).1 in
    provision_virtual_account broke 1 ada w' ≡ (
      ok (record {
        virtual_account = record {
          account_number = some "9000000001";
          account_name = some "Ada Obi";
          bank_name = some "Nombank";
          bank_code = none;
          provider = "nomba";
          provider_reference = "va-1";
        };
        already_existed = true;
        message = "Virtual account already provisioned.";
      }),
      w',
    )
unfolding provision_virtual_account strip
provision_twice_example = provision_twice willing 1 ada start broke tt refl

abbrev pub settings : Settings
settings = record { jwt_secret_key = "key"; jwt_access_ttl_min = 15; jwt_refresh_ttl_days = 7 }

abbrev old_claims : Claims
old_claims = record {
  sub = some 1;
  iat = 0;
  exp = 604800;
  jti = some "old";
  token_type = some "refresh";
}

-- A codec that writes the random part only, and knows one token.
abbrev pub jose : Jose
jose = record {
  encode = λ _ claims. text_or claims.jti "access";
  decode = λ now _ token.
      if str_eq token "old" then Decoded.valid old_claims else Decoded.jwt_error "unknown";
}

abbrev pub hash : String → String
hash token = "h-" ++ token

abbrev logged_in : World
logged_in = record start {
  committed = record db {
    refresh_tokens =
        (
          4,
          record { user_id = 1; token_hash = "h-old"; expires_at = 604800000000; revoked = false },
        )
        ∷ [];
  };
  next_refresh_token = 5;
}

refresh_outcome_example :
    Refreshed
      (create_refresh_token settings jose 60000000 "new")
      hash
      60000000
      "old"
      (decode_token settings jose 60000000 "refresh" "old")
      logged_in
      (refresh settings jose hash 60000000 "new" none "old" logged_in)
refresh_outcome_example = refresh_outcome settings jose hash 60000000 "new" none "old" logged_in

refresh_twice_example :
    let w' = (refresh settings jose hash 60000000 "new" none "old" logged_in).1 in
    (user_id : ℕ) × (old_claims.sub ≡ some user_id)
    × (refresh settings jose hash 70000000 "newer" none "old" w'
        ≡ (err refused, signed_out user_id w'))
    × (first (is_outstanding user_id) (signed_out user_id w').committed.refresh_tokens ≡ none)
unfolding refresh create_access_token create_refresh_token decode_token
refresh_twice_example =
    refresh_twice settings jose hash 60000000 70000000 "new" "newer" none none "old" logged_in
      (omega arith, tt) (refl, tt) refl refl refl refl

logout_ends_token_example :
    let w' = (logout settings jose hash 1 (some "old") none logged_in).1 in
    refresh settings jose hash 60000000 "new" none "old" w' ≡ (err refused, signed_out 1 w')
unfolding decode_token
logout_ends_token_example =
    logout_ends_token settings jose hash 60000000 "new" none none logged_in "old" 1 1 refl
      (refl, tt) (refl, tt) refl refl
