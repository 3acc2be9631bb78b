-- ===== src/Nomba/Errors.antt =====
-- `_map_nomba_error` of app/services/payments/nomba.py: the keyword heuristics that make a
-- `PaymentError` of a response that Nomba refused with.
use Prim.Native.Char.{code}
use autopay.Base.{
  ℕ, ◌+◌, ◌-◌, ◌≡◌, refl, Bool, true, false, ◌&&◌, ◌||◌, List, [], ◌∷◌, String, leb, ◌==◌,
  if◌then◌else◌,
}
use autopay.Session.{PaymentErrorKind, Exn}
use autopay.Nomba.Values.{Value, Fields, text, get_field, or_value}

-- The code points of a text.
abbrev pub codes : String → List ℕ
codes String.[] = []
codes (String.◌∷◌ c s) = code c ∷ codes s

abbrev pub lower_code : ℕ → ℕ
lower_code c = if leb 65 c && leb c 90 then c + 32 else c

abbrev pub upper_code : ℕ → ℕ
upper_code c = if leb 97 c && leb c 122 then c - 32 else c

abbrev pub map_codes : (ℕ → ℕ) → List ℕ → List ℕ
map_codes f [] = []
map_codes f (c ∷ s) = f c ∷ map_codes f s

-- `s.lower()` and `s.upper()`, of the letters A to Z.
abbrev pub lower : String → List ℕ
lower s = map_codes lower_code (codes s)

abbrev pub upper : String → List ℕ
upper s = map_codes upper_code (codes s)

abbrev pub starts_with : List ℕ → List ℕ → Bool
starts_with [] s = true
starts_with (a ∷ word) [] = false
starts_with (a ∷ word) (b ∷ s) = a == b && starts_with word s

abbrev contains_codes : List ℕ → List ℕ → Bool
contains_codes word [] = starts_with word []
contains_codes word (b ∷ s) = starts_with word (b ∷ s) || contains_codes word s

-- `word in s`
unfoldable pub contains : String → List ℕ → Bool
contains word s = contains_codes (codes word) s

-- The kind of the error, by the keywords of the message in lower case.
unfoldable pub kind_of : ℕ → List ℕ → PaymentErrorKind
kind_of status_code message =
    if status_code == 401 || status_code == 403
    then PaymentErrorKind.authentication
    else if contains "insufficient" message || contains "balance" message
    then PaymentErrorKind.insufficient_funds
    else if contains "bvn" message || contains "kyc" message
    then PaymentErrorKind.kyc_required
    else if contains "name" message && contains "mismatch" message
    then PaymentErrorKind.account_name_mismatch
    else if contains "account" message
        && (contains "invalid" message
            || contains "not found" message
            || contains "resolve" message)
    then PaymentErrorKind.invalid_account
    else PaymentErrorKind.provider_error

-- The message: `body.get("description") or body.get("message") or "..."`.
abbrev pub message_of : Fields → String → Value
message_of body default =
    or_value (get_field "description" body) (or_value (get_field "message" body) (text default))

-- `_map_nomba_error`. A message that is no text has no `lower`.
unfoldable pub map_nomba_error : ℕ → Fields → Exn
map_nomba_error status_code body = elim (message_of body "Unknown Nomba error") [
  | text message ↦
      Exn.payment (record { kind = kind_of status_code (lower message); message = message })
  | _ ↦ Exn.unexpected
]

contains_test : contains "balance" (lower "Insufficient Balance.") ≡ true
unfolding contains
contains_test = refl

contains_nothing_test : contains "balance" (lower "Insufficient") ≡ false
unfolding contains
contains_nothing_test = refl

upper_test : upper "Pending_billing" ≡ codes "PENDING_BILLING"
upper_test = refl
