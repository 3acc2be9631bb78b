-- ===== src/Base/Text.antt =====
-- Text: equality, Python's truth value of an optional text, and decimal numbers as they are printed.
use Prim.Native.Nat.{ℕ, zero, suc, ◌+◌, ◌/◌, ◌%◌}
use Prim.Native.Char.{Char, code}
use Prim.Native.String.{String, ◌++◌}
use mathlib.Core.Bool.{Bool, false, not, ◌&&◌, ◌||◌}
use mathlib.Core.Option.{Option, none, some}
use mathlib.Core.Path.{◌≡◌, refl}
use autopay.Base.Tests.{ltb, leb, if◌then◌else◌, ◌==◌}
use text.Mathlib.Text.{◌==◌ as text_eq}

abbrev pub str_eq : String → String → Bool
str_eq a b = text_eq a b

-- Python's `bool(s)` of an optional text: `None` and the empty text are false.
abbrev pub truthy : Option String → Bool
truthy none = false
truthy (some s) = not (str_eq s "")

abbrev pub text_or : Option String → String → String
text_or none d = d
text_or (some s) d = if str_eq s "" then d else s

digit : ℕ → String
digit n =
    if n == 0
    then "0"
    else if n == 1
    then "1"
    else if n == 2
    then "2"
    else if n == 3
    then "3"
    else if n == 4
    then "4"
    else if n == 5
    then "5"
    else if n == 6
    then "6"
    else if n == 7
    then "7"
    else if n == 8
    then "8"
    else "9"

decimal_fuel : ℕ → ℕ → String
unfolding digit
decimal_fuel zero n = ""
decimal_fuel (suc f) n =
    let rest = decimal_fuel f (n / 10) ++ digit (n % 10) in if ltb n 10 then digit n else rest

-- `str(n)`; the fuel `n + 1` is more than the number of digits.
unfoldable pub decimal : ℕ → String
unfolding decimal_fuel
decimal n = decimal_fuel (suc n) n

-- `str(Decimal)` of an amount in kobo with two places.
unfoldable pub show_money : ℕ → String
unfolding decimal digit
show_money k = decimal (k / 100) ++ "." ++ digit (k / 10 % 10) ++ digit (k % 10)

unfoldable pub str_length : String → ℕ
str_length String.[] = 0
str_length (String.◌∷◌ c s) = str_length s + 1

-- `s[-4:]`
unfoldable pub last_four : String → String
unfolding str_length
last_four String.[] = ""
last_four (String.◌∷◌ c s) =
    let rest = last_four s in if ltb (str_length s) 4 then String.◌∷◌ c s else rest

between : ℕ → ℕ → ℕ → Bool
between lo hi n = leb lo n && leb n hi

-- `str.isspace` of one character.
is_space : Char → Bool
unfolding between
is_space c =
    let n = code c in
    between 9 13 n
    || between 28 32 n
    || n == 133
    || n == 160
    || n == 5760
    || between 8192 8202 n
    || between 8232 8233 n
    || n == 8239
    || n == 8287
    || n == 12288

lstrip : String → String
unfolding is_space
lstrip String.[] = ""
lstrip (String.◌∷◌ c s) = let rest = lstrip s in if is_space c then rest else String.◌∷◌ c s

rstrip : String → String
unfolding is_space
rstrip String.[] = ""
rstrip (String.◌∷◌ c s) =
    let rest = rstrip s in if is_space c && str_eq rest "" then "" else String.◌∷◌ c rest

-- `s.strip()`
unfoldable pub strip : String → String
unfolding lstrip rstrip
strip s = rstrip (lstrip s)

strip_test : strip " Ada Obi  " ≡ "Ada Obi"
unfolding strip
strip_test = refl

last_four_test : last_four "9000000001" ≡ "0001"
unfolding last_four
last_four_test = refl
