-- ===== src/Kyc/Stored.antt =====
-- What a submission of a BVN stores, and that it can be read back.
use autopay.Base.{
  ℕ, ◌≡◌, inl, inr, refl, sym, ap, ◌∙◌, subst, true, false, Option, none, some, String, ◌++◌,
  str_eq, str_length, last_four, ltb, arith, put, first, KeysBelow, get_of_KeysBelow, first-put_new,
  Bool-cases, get-put_self, ==_refl,
}
use autopay.Models.{KycRecord}
use autopay.Session.{Result, ok, err, World}
use autopay.Crypto.{
  Ciphers, BvnResult, is_bvn, last4, fernet, pepper, encrypt_bvn, decrypt_bvn, hash_bvn,
}
use autopay.Kyc.{
  KycStatusResponse, record_of, shares_bvn, status_of, store_record, store_checked, use_encrypted,
  submit_from, submit_bvn, get_kyc,
}

module _ (ciphers : Ciphers) (key : String) (user_id : ℕ) (bvn : String) (w : World) where
  abbrev pub new_record : KycRecord
  new_record = record {
    user_id = user_id;
    bvn_ciphertext = ciphers.encrypt key bvn;
    bvn_last4 = last_four bvn;
    bvn_hash = ciphers.hmac_sha256 (ciphers.sha256 (key ++ ":bvn-pepper")) bvn;
    bvn_validated = false;
    validated_at = none;
  }

  -- What a submission has done, by how it ended.
  abbrev pub Submitted : Result KycStatusResponse × World → Type 0
  Submitted (ok response, w') =
      (is_bvn bvn ≡ true)
      × (str_eq key "" ≡ false)
      × (ciphers.key_problem key ≡ none)
      × (first (record_of user_id) w.committed.kyc_records ≡ none)
      × (first (shares_bvn new_record) w.committed.kyc_records ≡ none)
      × (w'.committed.kyc_records ≡ put w.next_kyc_record new_record w.committed.kyc_records)
      × (response ≡ status_of w.next_kyc_record new_record)
  Submitted (err e, w') = w'.committed ≡ w.committed

  abbrev opened : World
  opened = record w { work = w.committed }

  abbrev closed : Result KycStatusResponse × World → Result KycStatusResponse × World
  closed x = (x.0, record x.1 { work = x.1.committed })

  store_checked_lem :
      (clash : Option (ℕ × KycRecord))
      → first (shares_bvn new_record) w.committed.kyc_records ≡ clash
      → is_bvn bvn ≡ true
      → str_eq key "" ≡ false
      → ciphers.key_problem key ≡ none
      → first (record_of user_id) w.committed.kyc_records ≡ none
      → Submitted (closed (store_checked new_record clash opened))
  unfolding store_checked
  store_checked_lem none e given present valid free =
      rw (get-put_self w.next_kyc_record new_record w.committed.kyc_records)
        (given, present, valid, free, e, refl, refl)
  store_checked_lem (some row) e given present valid free = refl

  long_enough : is_bvn bvn ≡ true → ltb (str_length bvn) 4 ≡ false
  unfolding is_bvn
  long_enough h = ground arith

  use_key :
      (problem : Option String)
      → ciphers.key_problem key ≡ problem
      → is_bvn bvn ≡ true
      → str_eq key "" ≡ false
      → first (record_of user_id) w.committed.kyc_records ≡ none
      → Submitted (closed (submit_from ciphers key user_id bvn none opened))
  unfolding submit_from encrypt_bvn hash_bvn last4 fernet pepper use_encrypted store_record
  use_key none valid given present free =
      rw (given, present, valid, long_enough given)
        (store_checked_lem _ refl given present valid free)
  use_key (some text) invalid given present free = rw (given, present, invalid) refl

  malformed :
      is_bvn bvn ≡ false → Submitted (closed (submit_from ciphers key user_id bvn none opened))
  unfolding submit_from encrypt_bvn use_encrypted
  malformed bad = rw bad refl

  no_key :
      is_bvn bvn ≡ true
      → str_eq key "" ≡ true
      → Submitted (closed (submit_from ciphers key user_id bvn none opened))
  unfolding submit_from encrypt_bvn fernet use_encrypted
  no_key given missing = rw (given, missing) refl

  from-Submitted :
      (existing : Option (ℕ × KycRecord))
      → first (record_of user_id) w.committed.kyc_records ≡ existing
      → Submitted (closed (submit_from ciphers key user_id bvn existing opened))
  from-Submitted (some row) e = unfold submit_from in refl
  from-Submitted none e = elim (Bool-cases (is_bvn bvn)) [
    | inr bad ↦ malformed bad
    | inl given ↦ elim (Bool-cases (str_eq key "")) [
      | inl missing ↦ no_key given missing
      | inr present ↦ use_key _ refl given present e
    ]
  ]

  -- A submission that succeeds was of a BVN with eleven digits, with a valid key in use, by a user
  -- with no record and of a BVN that no record has; it stores exactly the encrypted BVN, its hash and
  -- last four digits as the user's new record. Any other submission changes nothing.
  pub submit_bvn_outcome : Submitted (submit_bvn ciphers key user_id bvn w)
  unfolding submit_bvn
  submit_bvn_outcome = from-Submitted _ refl

  -- What a record shows and holds.
  abbrev pub ReadBack : KycStatusResponse → World → Type 0
  ReadBack response w' =
      (row : KycRecord) × (first (record_of user_id) w'.committed.kyc_records
        ≡ some (response.id, row))
      × (decrypt_bvn ciphers key row.bvn_ciphertext ≡ BvnResult.value bvn)
      × (response.bvn_last4 ≡ last_four bvn)
      × ((get_kyc user_id w').0 ≡ ok response)

  decrypted :
      str_eq key "" ≡ false
      → ciphers.key_problem key ≡ none
      → ciphers.decrypt key (ciphers.encrypt key bvn) ≡ some bvn
      → decrypt_bvn ciphers key (ciphers.encrypt key bvn) ≡ BvnResult.value bvn
  unfolding decrypt_bvn fernet
  decrypted present valid law = rw (present, valid, law) refl

  shown :
      (w' : World) (row : KycRecord) (k : ℕ)
      → first (record_of user_id) w'.committed.kyc_records ≡ some (k, row)
      → (get_kyc user_id w').0 ≡ ok (status_of k row)
  unfolding get_kyc
  shown w' row k e = rw e refl

  read_back :
      (x : Result KycStatusResponse × World) (response : KycStatusResponse)
      → Submitted x
      → KeysBelow w.next_kyc_record w.committed.kyc_records
      → ciphers.decrypt key (ciphers.encrypt key bvn) ≡ some bvn
      → x.0 ≡ ok response
      → ReadBack response x.1
  read_back (err e, w') response s keys law is_ok = cc
  read_back (ok r, w') response (given, present, valid, free, _, rows, told) keys law is_ok =
      let stored =
        ap (first (record_of user_id)) rows
        ∙ first-put_new (record_of user_id) w.next_kyc_record new_record w.committed.kyc_records
            free
            (get_of_KeysBelow w.next_kyc_record w.next_kyc_record w.committed.kyc_records keys
              (omega arith))
            (==_refl user_id) in
      let same : response ≡ status_of w.next_kyc_record new_record = cc in
      subst (λ r. ReadBack r w') (sym same)
        (new_record, stored, decrypted present valid law, refl, shown w' new_record _ stored)

  -- After a submission that succeeded, the user has a record whose ciphertext decrypts to the BVN
  -- that was submitted; the answer, and what the user reads later, shows its last four digits.
  -- (Fernet decrypts its own tokens, and ids of records are below the sequence.)
  pub submit_bvn_reads_back :
      (response : KycStatusResponse)
      → KeysBelow w.next_kyc_record w.committed.kyc_records
      → ciphers.decrypt key (ciphers.encrypt key bvn) ≡ some bvn
      → (submit_bvn ciphers key user_id bvn w).0 ≡ ok response
      → ReadBack response (submit_bvn ciphers key user_id bvn w).1
  submit_bvn_reads_back response keys law is_ok =
      read_back _ response submit_bvn_outcome keys law is_ok
