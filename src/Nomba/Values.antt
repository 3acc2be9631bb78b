-- ===== src/Nomba/Values.antt =====
-- The JSON values that Nomba sends, as `json.loads` gives them, and what Python makes of them.
use autopay.Base.{
  ℕ, zero, suc, ◌/◌, ◌%◌, Bool, true, false, not, Option, none, some, String, ◌++◌, str_eq, decimal,
  ◌≡◌, refl, if◌then◌else◌,
}
use autopay.Money.{Decimal, pow10}
use autopay.Session.{Exn, Result, ok, err}

-- An object and a list keep the text that `str` gives them. `num` is a number of either kind that
-- is not negative, as the decimal that `str` prints, and `negative` one below zero by its absolute
-- value; `other` is a list, by its truth value and its `str`.
mutual
  pub data Value : Type 0 where
    null : Value
    text : String → Value
    num : Decimal → Value
    negative : Decimal → Value
    boolean : Bool → Value
    obj : String → Fields → Value
    other : Bool → String → Value

  pub data Fields : Type 0 where
    end : Fields
    field : String → Value → Fields → Fields

-- The last `n` digits of `k`, zeros in front included.
last_digits : ℕ → ℕ → String
last_digits zero k = ""
last_digits (suc n) k = last_digits n (k / 10) ++ decimal (k % 10)

-- `str` of a number.
show_decimal : Decimal → String
unfolding last_digits
show_decimal d =
    let whole = decimal (d.unscaled / pow10 d.places) in
    elim d.places [ zero ↦ whole | suc n ↦ whole ++ "." ++ last_digits (suc n) d.unscaled ]

-- `str(v)`
unfoldable pub str : Value → String
unfolding show_decimal
str null = "None"
str (text s) = s
str (num d) = show_decimal d
str (negative d) = "-" ++ show_decimal d
str (boolean b) = if b then "True" else "False"
str (obj s fields) = s
str (other b s) = s

abbrev is_end : Fields → Bool
is_end end = true
is_end (field k v rest) = false

-- `bool(v)`
abbrev pub is_true : Value → Bool
is_true null = false
is_true (text s) = not (str_eq s "")
is_true (num d) = elim d.unscaled [ zero ↦ false | suc n ↦ true ]
is_true (negative d) = elim d.unscaled [ zero ↦ false | suc n ↦ true ]
is_true (boolean b) = b
is_true (obj s fields) = not (is_end fields)
is_true (other b s) = b

-- `a or b`
abbrev pub or_value : Value → Value → Value
or_value a b = if is_true a then a else b

abbrev pub lookup : String → Fields → Option Value
lookup k end = none
lookup k (field j v rest) = if str_eq j k then some v else lookup k rest

-- `fields.get(k, default)`
abbrev pub get_or : Value → String → Fields → Value
get_or default k fields = elim (lookup k fields) [ none ↦ default | some v ↦ v ]

-- `fields.get(k)`
abbrev pub get_field : String → Fields → Value
get_field k fields = get_or null k fields

infixl 5 ◌>>=◌
abbrev pub ◌>>=◌ : {A B : Type 0} → Result A → (A → Result B) → Result B
ok a >>= f = f a
err e >>= f = err e

-- What `.get` is called on: a value that is no object has no such method, and an `AttributeError`
-- is raised.
abbrev pub fields_of : Value → Result Fields
fields_of (obj s fields) = ok fields
fields_of v = err Exn.unexpected

-- `v[k]`: a `KeyError` or a `TypeError` without it.
abbrev pub item : String → Value → Result Value
item k v = do
  fields ← fields_of v
  elim (lookup k fields) [ none ↦ err Exn.unexpected | some u ↦ ok u ]

-- `{}`
abbrev pub empty : Value
empty = obj "{}" end

-- A chain that returned, from its first part.
pub returned :
    {A B : Type 0} (r : Result A) (f : A → Result B) (b : B)
    → (r >>= f) ≡ ok b
    → (a : A) × (r ≡ ok a) × (f a ≡ ok b)
returned (ok a) f b h = (a, refl, h)
returned (err e) f b h = cc
