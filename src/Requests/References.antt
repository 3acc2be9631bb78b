-- ===== src/Requests/References.antt =====
-- The references under which transfers were sent.
use autopay.Base.{
  ℕ, ◌≡◌, refl, ap, Bool, true, false, Option, none, some, List, [], ◌∷◌, String, arith, get, put,
  first, Table, str_eq, if◌then◌else◌, eq_iff,
}
use autopay.Models.{Transaction}
use autopay.Session.{Transfer}
use autopay.Payout.Charge.{opt_str_eq, has_reference}

-- Whether a transaction has the reference.
abbrev pub is_known : String → Table Transaction → Bool
is_known r [] = false
is_known r ((k, x) ∷ t) = if has_reference r x then true else is_known r t

-- Whether a transfer was sent under the reference.
abbrev pub is_sent : String → List Transfer → Bool
is_sent r [] = false
is_sent r (t ∷ ts) = if str_eq t.reference r then true else is_sent r ts

-- Every transfer has a transaction with its reference.
abbrev pub AllKnown : List Transfer → Table Transaction → Type 0
AllKnown [] txns = Unit {0}
AllKnown (t ∷ ts) txns = (is_known t.reference txns ≡ true) × AllKnown ts txns

-- No two transfers have the same reference.
abbrev pub AllDistinct : List Transfer → Type 0
AllDistinct [] = Unit {0}
AllDistinct (t ∷ ts) = (is_sent t.reference ts ≡ false) × AllDistinct ts

pub unknown :
    (r : String) (t : Table Transaction) → first (has_reference r) t ≡ none → is_known r t ≡ false
unknown r [] e = refl
unknown r ((k, x) ∷ t) e = ground (arith, unknown r t)

known-put :
    (r : String) (k : ℕ) (x x' : Transaction) (t : Table Transaction)
    → get k t ≡ some x
    → has_reference r x' ≡ has_reference r x
    → is_known r t ≡ true
    → is_known r (put k x' t) ≡ true
known-put r k x x' [] e same h = cc
known-put r k x x' ((j, y) ∷ t) e same h = ground (arith, known-put r k x x' t)

pub known-put_new :
    (r : String) (n : ℕ) (x : Transaction) (t : Table Transaction)
    → get n t ≡ none
    → is_known r t ≡ true
    → is_known r (put n x t) ≡ true
known-put_new r n x [] e h = cc
known-put_new r n x ((j, y) ∷ t) e h = ground (arith, known-put_new r n x t)

pub new_known :
    (r : String) (n : ℕ) (x : Transaction) (t : Table Transaction)
    → has_reference r x ≡ true
    → is_known r (put n x t) ≡ true
new_known r n x [] h = ground arith
new_known r n x ((j, y) ∷ t) h = ground (arith, new_known r n x t)

-- A reference that no transaction has is under no transfer.
pub unsent :
    (r : String) (ts : List Transfer) (txns : Table Transaction)
    → AllKnown ts txns
    → is_known r txns ≡ false
    → is_sent r ts ≡ false
unsent r [] txns known e = refl
unsent r (t ∷ ts) txns known e = ground (arith, eq_iff t.reference r, unsent r ts txns known.1)

pub AllKnown-put :
    (k : ℕ) (x x' : Transaction) (ts : List Transfer) (t : Table Transaction)
    → get k t ≡ some x
    → x'.provider_reference ≡ x.provider_reference
    → AllKnown ts t
    → AllKnown ts (put k x' t)
AllKnown-put k x x' [] t e same known = tt
AllKnown-put k x x' (s ∷ ts) t e same (h, known) = (
  known-put s.reference k x x' t e (ap (λ (o : Option String). opt_str_eq o s.reference) same) h,
  AllKnown-put k x x' ts t e same known,
)

pub AllKnown-put_new :
    (n : ℕ) (x : Transaction) (ts : List Transfer) (t : Table Transaction)
    → get n t ≡ none
    → AllKnown ts t
    → AllKnown ts (put n x t)
AllKnown-put_new n x [] t e known = tt
AllKnown-put_new n x (s ∷ ts) t e (h, known) =
    (known-put_new s.reference n x t e h, AllKnown-put_new n x ts t e known)
