-- ===== src/Crypto.antt =====
-- app/services/crypto.py: encryption and hashing of a BVN. Fernet and the hashes are parameters, with
-- the time and the random part of a token inside; digits are the ASCII ones.
use autopay.Base.{
  Bool, true, ◌&&◌, ◌||◌, ◌==◌, Option, none, some, String, ◌++◌, str_eq, str_length, last_four,
  ltb, if◌then◌else◌,
}

-- `Fernet(key)`, with the text of its `ValueError` or nothing; its two operations, with
-- `InvalidToken` as no value; `hashlib.sha256` and `hmac.new`.
pub record Ciphers : Type 0 where
  pub key_problem : String → Option String
  pub encrypt : String → String → String
  pub decrypt : String → String → Option String
  pub sha256 : String → String
  pub hmac_sha256 : String → String → String

-- What the functions of crypto.py give: a value, a `BVNKeyError` or a `ValueError`.
pub data BvnResult (A : Type 0) : Type 0 where
  value : A → BvnResult A
  key_error : String → BvnResult A
  value_error : BvnResult A

abbrev is_digit : String → Bool
is_digit c =
    str_eq c "0"
    || str_eq c "1"
    || str_eq c "2"
    || str_eq c "3"
    || str_eq c "4"
    || str_eq c "5"
    || str_eq c "6"
    || str_eq c "7"
    || str_eq c "8"
    || str_eq c "9"

abbrev all_digits : String → Bool
all_digits String.[] = true
all_digits (String.◌∷◌ c s) = let rest = all_digits s in is_digit (String.◌∷◌ c "") && rest

-- `not plaintext or not plaintext.isdigit() or len(plaintext) != 11`
unfoldable pub is_bvn : String → Bool
is_bvn plaintext = all_digits plaintext && (str_length plaintext == 11)

-- `last4`
unfoldable pub last4 : String → BvnResult String
last4 plaintext =
    if ltb (str_length plaintext) 4
    then BvnResult.value_error
    else BvnResult.value (last_four plaintext)

-- `mask`
unfoldable pub mask : String → BvnResult String
unfolding last4
mask plaintext = elim (last4 plaintext) [
  | BvnResult.value digits ↦ BvnResult.value ("******" ++ digits)
  | BvnResult.key_error message ↦ BvnResult.key_error message
  | BvnResult.value_error ↦ BvnResult.value_error
]

module _ (ciphers : Ciphers) (key : String) where
  abbrev key_checked : Option String → BvnResult String
  key_checked none = BvnResult.value key
  key_checked (some text) =
      BvnResult.key_error ("BVN_ENCRYPTION_KEY is not a valid Fernet key: " ++ text)

  -- `_fernet`, where the value is the key that is in use.
  unfoldable pub fernet : BvnResult String
  fernet =
      if str_eq key ""
      then BvnResult.key_error (
          "BVN_ENCRYPTION_KEY is not set. Generate one with: python -c "
          ++ "\"from cryptography.fernet import Fernet; print(Fernet.generate_key().decode())\"")
      else key_checked (ciphers.key_problem key)

  -- `_pepper`
  unfoldable pub pepper : BvnResult String
  pepper =
      if str_eq key ""
      then BvnResult.key_error
          "Cannot derive BVN hash pepper without BVN_ENCRYPTION_KEY (or set BVN_HASH_PEPPER)."
      else BvnResult.value (ciphers.sha256 (key ++ ":bvn-pepper"))

  abbrev encrypt_with : String → BvnResult String → BvnResult String
  encrypt_with plaintext (BvnResult.value k) = BvnResult.value (ciphers.encrypt k plaintext)
  encrypt_with plaintext (BvnResult.key_error message) = BvnResult.key_error message
  encrypt_with plaintext BvnResult.value_error = BvnResult.value_error

  -- `encrypt_bvn`
  unfoldable pub encrypt_bvn : String → BvnResult String
  unfolding is_bvn fernet
  encrypt_bvn plaintext =
      if is_bvn plaintext then encrypt_with plaintext fernet else BvnResult.value_error

  abbrev token_text : Option String → BvnResult String
  token_text none = BvnResult.value_error
  token_text (some plaintext) = BvnResult.value plaintext

  abbrev decrypt_with : String → BvnResult String → BvnResult String
  decrypt_with ciphertext (BvnResult.value k) = token_text (ciphers.decrypt k ciphertext)
  decrypt_with ciphertext (BvnResult.key_error message) = BvnResult.key_error message
  decrypt_with ciphertext BvnResult.value_error = BvnResult.value_error

  -- `decrypt_bvn`
  unfoldable pub decrypt_bvn : String → BvnResult String
  unfolding fernet
  decrypt_bvn ciphertext = decrypt_with ciphertext fernet

  abbrev hash_with : String → BvnResult String → BvnResult String
  hash_with plaintext (BvnResult.value k) = BvnResult.value (ciphers.hmac_sha256 k plaintext)
  hash_with plaintext (BvnResult.key_error message) = BvnResult.key_error message
  hash_with plaintext BvnResult.value_error = BvnResult.value_error

  -- `hash_bvn`
  unfoldable pub hash_bvn : String → BvnResult String
  unfolding is_bvn pepper
  hash_bvn plaintext =
      if is_bvn plaintext then hash_with plaintext pepper else BvnResult.value_error
