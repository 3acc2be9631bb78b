-- ===== src/Security.antt =====
-- app/core/security.py: the tokens. The JWT library is a parameter: what it encodes and what its
-- verification makes of a text at a moment. A moment is a number of microseconds.
use autopay.Base.{
  ℕ, ◌+◌, ◌*◌, ◌/◌, Bool, false, Option, none, some, String, ◌++◌, str_eq, if◌then◌else◌,
}
use autopay.Session.{Exn, Action, pure, raise}

pub record Settings : Type 0 where
  pub jwt_secret_key : String
  pub jwt_access_ttl_min : ℕ
  pub jwt_refresh_ttl_days : ℕ

-- A token's payload; `sub` is none where it is missing or no number.
pub record Claims : Type 0 where
  pub sub : Option ℕ
  pub iat : ℕ
  pub exp : ℕ
  pub jti : Option String
  pub token_type : Option String

-- A payload, or a `JWTError_` with its message.
pub data Decoded : Type 0 where
  valid : Claims → Decoded
  jwt_error : String → Decoded

pub record Jose : Type 0 where
  pub encode : String → Claims → String
  pub decode : ℕ → String → String → Decoded

abbrev missing_secret : String
missing_secret =
    "JWT_SECRET_KEY is not set. Generate one with: python -c \"import secrets; "
    ++ "print(secrets.token_urlsafe(64))\""

-- `repr` of a text without quotes, or of `None`.
abbrev repr : Option String → String
repr none = "None"
repr (some s) = "'" ++ s ++ "'"

-- The token's type is the expected one.
abbrev is_type : String → Option String → Bool
is_type expected none = false
is_type expected (some s) = str_eq s expected

abbrev microseconds_per_minute : ℕ
microseconds_per_minute = 60000000

abbrev microseconds_per_day : ℕ
microseconds_per_day = 86400000000

module _ (settings : Settings) (jose : Jose) (now : ℕ) where
  -- `int(moment.timestamp())`
  abbrev timestamp : ℕ → ℕ
  timestamp moment = moment / 1000000

  -- `_require_secret`, before what follows it; the error is caught by no caller of these two.
  abbrev with_secret : {A : Type 0} → A → Action A
  with_secret a = if str_eq settings.jwt_secret_key "" then raise Exn.unexpected else pure a

  -- `create_access_token(subject)`
  unfoldable pub create_access_token : ℕ → Action String
  create_access_token subject = with_secret (
      jose.encode settings.jwt_secret_key (record {
        sub = some subject;
        iat = timestamp now;
        exp = timestamp (now + settings.jwt_access_ttl_min * microseconds_per_minute);
        jti = none;
        token_type = some "access";
      }))

  -- `create_refresh_token(subject)`, with the random `jti` as an argument.
  unfoldable pub create_refresh_token : String → ℕ → Action (String × ℕ)
  create_refresh_token jti subject =
      let expire = now + settings.jwt_refresh_ttl_days * microseconds_per_day in
      with_secret (
        jose.encode settings.jwt_secret_key (record {
          sub = some subject;
          iat = timestamp now;
          exp = timestamp expire;
          jti = some jti;
          token_type = some "refresh";
        }),
        expire,
      )

  -- The check of the type of a verified payload.
  unfoldable pub check_type : String → Decoded → Decoded
  check_type expected (Decoded.jwt_error message) = Decoded.jwt_error message
  check_type expected (Decoded.valid claims) =
      if is_type expected claims.token_type
      then Decoded.valid claims
      else Decoded.jwt_error
          ("expected token type '" ++ expected ++ "', got " ++ repr claims.token_type)

  -- `decode_token(token, expected_type)`
  unfoldable pub decode_token : String → String → Decoded
  unfolding check_type
  decode_token expected token =
      if str_eq settings.jwt_secret_key ""
      then Decoded.jwt_error missing_secret
      else check_type expected (jose.decode now settings.jwt_secret_key token)
