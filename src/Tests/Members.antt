-- ===== src/Tests/Members.antt =====
-- Runs of signup, of a BVN's submission and of the bot's commands, and their theorems at concrete inputs.
use autopay.Base.{
  ℕ, ◌≡◌, ◌≤◌, ◌⊎◌, inl, inr, refl, Bool, true, false, Option, none, some, List, [], ◌∷◌, String,
  ◌++◌, str_eq, if◌then◌else◌, arith,
}
use autopay.Base.Letters.{lower, upper}
use autopay.Session.{ok, World}
use autopay.Nomba.Operations.{nomba_provider}
use autopay.Telegram.{link_command}
use autopay.Telegram.Linked.{Repeated, link_code_once}
use autopay.Signup.{Bcrypt, SignupRequest, authenticate_user, signup, user_of}
use autopay.Signup.Stored.{StoredOrTaken, signup_outcome, signup_then_authenticate}
use autopay.Signup.Nubans.{signup_opens_no_account}
use autopay.Crypto.{Ciphers}
use autopay.Kyc.{submit_bvn}
use autopay.Kyc.Stored.{ReadBack, submit_bvn_reads_back}
use autopay.Tests.Data.{willing, start, db}
use autopay.Tests.Accounts.{settings, jose, hash}
use autopay.Tests.Gateway.{credentials, serving, found_holding}

-- A code for the user 1.
abbrev invited : World
invited = record start {
  committed = record db {
    telegram_link_codes =
        (1, record { user_id = 1; code = "7K2M9QXA"; expires_at = 900; is_used = false }) ∷ [];
  };
}

abbrev linked_world : World
linked_world = (link_command 5 "chat-1" (" 7k2m9qxa" ∷ []) invited).1

link_code_once_example :
    Repeated linked_world (link_command 6 "chat-2" ("7K2M9QXA" ∷ []) linked_world)
unfolding link_command upper autopay.Base.strip
link_code_once_example =
    link_code_once 5 "chat-1" " 7k2m9qxa" [] invited 6 "chat-2" "7K2M9QXA" [] refl (omega arith)
      (refl, tt) refl

abbrev bcrypt : Bcrypt
bcrypt = record {
  hashpw = λ plain. "b-" ++ plain;
  checkpw = λ plain hashed. str_eq hashed ("b-" ++ plain);
}

abbrev chidi : SignupRequest
chidi = record {
  first_name = "Chidi";
  last_name = "Eze";
  email = "Chidi@Example.com ";
  phone_number = "0900";
  password = "S3cret-word";
}

signup_outcome_example :
    StoredOrTaken bcrypt settings jose hash 60 "n1" none willing true chidi start
      (signup bcrypt settings jose hash 60 "n1" none willing true chidi start)
signup_outcome_example =
    signup_outcome bcrypt settings jose hash 60 "n1" none willing true chidi start refl

signup_then_authenticate_example :
    let (r, w) = signup bcrypt settings jose hash 60 "n1" none willing true chidi start in
    let w' = record w { work = w.committed } in
    authenticate_user bcrypt "Chidi@Example.com " "S3cret-word" w'
    ≡ (ok (3, user_of chidi "b-S3cret-word"), w')
unfolding user_of autopay.Base.strip lower
signup_then_authenticate_example =
    signup_then_authenticate bcrypt settings jose hash 60 "n1" none willing true chidi start refl
      refl refl (omega arith, (omega arith, tt)) refl

signup_opens_no_account_example :
    let gateway =
      nomba_provider serving credentials "0123456789abcdef0123456789abcdef" found_holding in
    (signup bcrypt settings jose hash 60 "n1" none gateway true chidi
      start).1.committed.virtual_accounts
    ≡ []
signup_opens_no_account_example =
    signup_opens_no_account serving credentials "0123456789abcdef0123456789abcdef" found_holding
      bcrypt settings jose hash 60 "n1" none true chidi start

-- A cipher that knows one token.
abbrev ciphers : Ciphers
ciphers = record {
  key_problem = λ key. none;
  encrypt = λ key plain. "f-" ++ plain;
  decrypt = λ key token. if str_eq token "f-12345678901" then some "12345678901" else none;
  sha256 = λ text. text;
  hmac_sha256 = λ key text. key ++ text;
}

submit_bvn_reads_back_example :
    ReadBack ciphers "key" 1 "12345678901" start
      (record {
        id = 1;
        user_id = 1;
        bvn_last4 = "8901";
        bvn_validated = false;
        validated_at = none;
      })
      (submit_bvn ciphers "key" 1 "12345678901" start).1
unfolding submit_bvn autopay.Base.last_four autopay.Base.str_length
submit_bvn_reads_back_example =
    submit_bvn_reads_back ciphers "key" 1 "12345678901" start
      (record {
        id = 1;
        user_id = 1;
        bvn_last4 = "8901";
        bvn_validated = false;
        validated_at = none;
      })
      tt refl refl
