-- ===== src/Kyc.antt =====
-- Submission of a BVN: app/api/kyc.py.
pub mod Stored
use autopay.Base.{
  ℕ, ◌+◌, Bool, true, false, not, ◌&&◌, ◌||◌, ◌==◌, Option, none, some, List, [], ◌∷◌, String, ◌++◌,
  str_eq, str_length, last_four, ltb, if◌then◌else◌, get, put, first,
}
use autopay.Models.{KycRecord, Db}
use autopay.Session.{
  Exn, Result, ok, err, Action, World, pure, raise, gets, or_raise, ◌>>=◌, ◌>>◌, commit,
  with_session,
}
use autopay.Crypto.{Ciphers, BvnResult, last4, encrypt_bvn, hash_bvn}
use autopay.Audit.{audit_kyc_bvn_submitted}

abbrev pub record_of : ℕ → KycRecord → Bool
record_of user_id row = row.user_id == user_id

-- The UNIQUE constraints of the table, on user and hash.
abbrev pub shares_bvn : KycRecord → KycRecord → Bool
shares_bvn new row = record_of new.user_id row || str_eq row.bvn_hash new.bvn_hash

-- `session.add(record); session.flush()`, from a row that clashes with the new one.
unfoldable pub insert_record : KycRecord → Option (ℕ × KycRecord) → Action ℕ
insert_record new (some _) w = (err Exn.integrity_error, w)
insert_record new none w = (
  ok w.next_kyc_record,
  record w {
    work = record w.work { kyc_records = put w.next_kyc_record new w.work.kyc_records };
    next_kyc_record = w.next_kyc_record + 1;
  },
)

-- `KycStatusResponse`
pub record KycStatusResponse : Type 0 where
  pub id : ℕ
  pub user_id : ℕ
  pub bvn_last4 : String
  pub bvn_validated : Bool
  pub validated_at : Option ℕ

abbrev pub status_of : ℕ → KycRecord → KycStatusResponse
status_of id row = record {
  id = id;
  user_id = row.user_id;
  bvn_last4 = row.bvn_last4;
  bvn_validated = row.bvn_validated;
  validated_at = row.validated_at;
}

-- The record as it is read back.
abbrev pub refreshed : ℕ → Option KycRecord → Action KycStatusResponse
refreshed kyc_id none = raise Exn.invalid_request
refreshed kyc_id (some row) = pure (status_of kyc_id row)

-- `submit_bvn`, from the new row and one that it clashes with.
unfoldable pub store_checked : KycRecord → Option (ℕ × KycRecord) → Action KycStatusResponse
unfolding insert_record
store_checked new clash = do
  kyc_id ← insert_record new clash
  audit_kyc_bvn_submitted new.user_id kyc_id new.bvn_last4
  commit
  row ← gets (λ d. get kyc_id d.kyc_records)
  refreshed kyc_id row

-- `submit_bvn`, from the new row.
unfoldable pub store_record : KycRecord → Action KycStatusResponse
unfolding store_checked
store_record new = do
  clash ← gets (λ d. first (shares_bvn new) d.kyc_records)
  store_checked new clash

-- `submit_bvn`, from the ciphertext, the hash and the last digits: a key error is a 500 with its
-- text, and a value error is not caught.
unfoldable pub use_encrypted :
    ℕ → BvnResult String → BvnResult String → BvnResult String → Action KycStatusResponse
unfolding store_record
use_encrypted user_id (BvnResult.key_error message) hash digits =
    raise (Exn.http 500 ("KYC encryption not configured: " ++ message))
use_encrypted user_id BvnResult.value_error hash digits = raise Exn.unexpected
use_encrypted user_id (BvnResult.value ciphertext) (BvnResult.key_error message) digits =
    raise (Exn.http 500 ("KYC encryption not configured: " ++ message))
use_encrypted user_id (BvnResult.value ciphertext) BvnResult.value_error digits =
    raise Exn.unexpected
use_encrypted user_id (BvnResult.value ciphertext) (BvnResult.value bvn_hash)
      (BvnResult.key_error message) =
    raise Exn.unexpected
use_encrypted user_id (BvnResult.value ciphertext) (BvnResult.value bvn_hash)
      BvnResult.value_error =
    raise Exn.unexpected
use_encrypted user_id (BvnResult.value ciphertext) (BvnResult.value bvn_hash)
      (BvnResult.value bvn_last4) =
    store_record (record {
      user_id = user_id;
      bvn_ciphertext = ciphertext;
      bvn_last4 = bvn_last4;
      bvn_hash = bvn_hash;
      bvn_validated = false;
      validated_at = none;
    })

module _ (ciphers : Ciphers) (key : String) (user_id : ℕ) where
  -- `submit_bvn`, from the user's record.
  unfoldable pub submit_from : String → Option (ℕ × KycRecord) → Action KycStatusResponse
  unfolding encrypt_bvn hash_bvn last4 use_encrypted
  submit_from bvn (some existing) = raise (Exn.http 409 "KYC already submitted for this user.")
  submit_from bvn none =
      use_encrypted user_id (encrypt_bvn ciphers key bvn) (hash_bvn ciphers key bvn) (last4 bvn)

  -- `submit_bvn`
  unfoldable pub submit_bvn : String → Action KycStatusResponse
  unfolding submit_from
  submit_bvn bvn =
      with_session (do
        existing ← gets (λ d. first (record_of user_id) d.kyc_records)
        submit_from bvn existing)

abbrev status_or_404 : Option (ℕ × KycRecord) → Action KycStatusResponse
status_or_404 none = raise (Exn.http 404 "No KYC on file.")
status_or_404 (some (id, row)) = pure (status_of id row)

-- `get_kyc`
unfoldable pub get_kyc : ℕ → Action KycStatusResponse
get_kyc user_id =
    with_session (do row ← gets (λ d. first (record_of user_id) d.kyc_records); status_or_404 row)
