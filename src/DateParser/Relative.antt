-- ===== src/DateParser/Relative.antt =====
-- `_try_relative` of app/services/date_parser.py: "tomorrow", "in 2 weeks", "5 days from today". The
-- regular expression is read as the sequence of words that it matches. Letters are those of ASCII.
use autopay.Base.{
  ℕ, ◌+◌, ◌-◌, ◌*◌, ◌≡◌, refl, Bool, true, false, ◌&&◌, ◌||◌, Option, none, some, List, [], ◌∷◌,
  String, leb, ◌==◌, if◌then◌else◌,
}
use autopay.Session.{Exn, Result, ok, err}
use autopay.Nomba.Errors.{codes, lower}

-- A word is the list of its code points, in lower case.
abbrev Word : Type 0
Word = List ℕ

same : Word → Word → Bool
same [] [] = true
same (a ∷ v) (b ∷ w) = a == b && same v w
same _ _ = false

abbrev is_blank : ℕ → Bool
is_blank c = c == 32 || (leb 9 c && leb c 13)

-- The words of a text, as spaces separate them; `word` is the one being read, backwards.
abbrev reverse_onto : Word → Word → Word
reverse_onto [] acc = acc
reverse_onto (c ∷ w) acc = reverse_onto w (c ∷ acc)

abbrev close_word : Word → List Word → List Word
close_word [] rest = rest
close_word (c ∷ w) rest = reverse_onto (c ∷ w) [] ∷ rest

unfoldable pub words_from : Word → List ℕ → List (List ℕ)
words_from word [] = close_word word []
words_from word (c ∷ s) =
    let fresh = words_from [] s in
    let longer = words_from (c ∷ word) s in if is_blank c then close_word word fresh else longer

abbrev pub words : String → List (List ℕ)
words s = words_from [] (lower s)

-- A period at the end, with or without spaces before it, is dropped: one of them.
drop_period : Word → Word
drop_period [] = []
drop_period (c ∷ []) = if c == 46 then [] else c ∷ []
drop_period (c ∷ d ∷ w) = let rest = drop_period (d ∷ w) in c ∷ rest

unfoldable pub drop_last_period : List (List ℕ) → List (List ℕ)
unfolding drop_period
drop_last_period [] = []
drop_last_period (w ∷ []) = close_word (reverse_onto (drop_period w) []) []
drop_last_period (w ∷ v ∷ ws) = let rest = drop_last_period (v ∷ ws) in w ∷ rest

-- A character before what is left of the rest.
abbrev before : ℕ → List ℕ → List ℕ
before c [] = if c == 46 then [] else c ∷ []
before c (d ∷ v) = c ∷ d ∷ v

-- `s.rstrip(".")`
unfoldable pub drop_periods : List ℕ → List ℕ
drop_periods [] = []
drop_periods (c ∷ w) = before c (drop_periods w)

abbrev is_digit : ℕ → Bool
is_digit c = leb 48 c && leb c 57

all_digits : Word → Bool
all_digits [] = true
all_digits (c ∷ w) = is_digit c && all_digits w

number_from : ℕ → Word → ℕ
number_from n [] = n
number_from n (c ∷ w) = number_from (n * 10 + (c - 48)) w

-- `_WORD_TO_INT`
unfoldable pub word_to_int : List ℕ → Option ℕ
unfolding same
word_to_int w =
    if same w (codes "a") || same w (codes "an") || same w (codes "one")
    then some 1
    else if same w (codes "two")
    then some 2
    else if same w (codes "three")
    then some 3
    else if same w (codes "four")
    then some 4
    else if same w (codes "five")
    then some 5
    else if same w (codes "six")
    then some 6
    else if same w (codes "seven")
    then some 7
    else if same w (codes "eight")
    then some 8
    else if same w (codes "nine")
    then some 9
    else if same w (codes "ten")
    then some 10
    else none

-- The group `amount`.
unfoldable pub amount_of : List ℕ → Option ℕ
unfolding all_digits number_from word_to_int
amount_of [] = none
amount_of (c ∷ w) = if all_digits (c ∷ w) then some (number_from 0 (c ∷ w)) else word_to_int (c ∷ w)

-- The group `unit`, as days.
unfoldable pub unit_of : List ℕ → Option ℕ
unfolding same
unit_of w =
    if same w (codes "day") || same w (codes "days")
    then some 1
    else if same w (codes "week") || same w (codes "weeks")
    then some 7
    else if same w (codes "month") || same w (codes "months")
    then some 30
    else none

-- What may follow the unit.
unfoldable pub is_base : List (List ℕ) → Bool
unfolding same
is_base [] = true
is_base (f ∷ b ∷ []) = same f (codes "from") && (same b (codes "today") || same b (codes "now"))
is_base _ = false

abbrev times : Option ℕ → Option ℕ → Option ℕ
times (some m) (some n) = some (m * n)
times _ _ = none

-- The days of a phrase after "in".
unfoldable pub counted_days : List (List ℕ) → Option ℕ
unfolding amount_of unit_of is_base
counted_days (a ∷ u ∷ base) = if is_base base then times (amount_of a) (unit_of u) else none
counted_days _ = none

-- The expression on the words.
unfoldable pub relative_days : List (List ℕ) → Option ℕ
unfolding counted_days same
relative_days [] = none
relative_days (w ∷ ws) = if same w (codes "in") then counted_days ws else counted_days (w ∷ ws)

-- The last moment that a `datetime` can be.
abbrev pub datetime_max : ℕ
datetime_max = 315537897599999999

abbrev pub microseconds_of_day : ℕ
microseconds_of_day = 86400000000

-- `_now() + timedelta(days=n)`, an `OverflowError` past the year 9999.
unfoldable pub days_later : ℕ → ℕ → Result (Option ℕ)
days_later now n =
    let later = now + n * microseconds_of_day in
    if leb later datetime_max then ok (some later) else err Exn.unexpected

-- The moment after so many days, or nothing.
unfoldable pub days_or_none : ℕ → Option ℕ → Result (Option ℕ)
unfolding days_later
days_or_none now none = ok none
days_or_none now (some n) = days_later now n

-- The days that a phrase without a number stands for; "yesterday" is today.
unfoldable pub named_days : List ℕ → Option ℕ
unfolding same
named_days s =
    if same s (codes "today") || same s (codes "now")
    then some 0
    else if same s (codes "tomorrow")
    then some 1
    else if same s (codes "yesterday")
    then some 0
    else if same s (codes "next week")
    then some 7
    else if same s (codes "next month")
    then some 30
    else none

abbrev or_days : Option ℕ → Option ℕ → Option ℕ
or_days none b = b
or_days (some a) b = some a

-- The days from now that a phrase stands for.
unfoldable pub phrase_days : String → Option ℕ
unfolding drop_periods named_days words_from drop_last_period relative_days
phrase_days s =
    or_days (named_days (drop_periods (lower s))) (relative_days (drop_last_period (words s)))

-- `_try_relative`
unfoldable pub try_relative : ℕ → String → Result (Option ℕ)
unfolding phrase_days days_or_none
try_relative now s = days_or_none now (phrase_days s)

weeks_test : phrase_days "In 2 Weeks from today ." ≡ some 14
unfolding phrase_days
weeks_test = refl

month_test : phrase_days "a month." ≡ some 30
unfolding phrase_days
month_test = refl

no_phrase_test : phrase_days "in the summer" ≡ none
unfolding phrase_days
no_phrase_test = refl

next_week_test : phrase_days "Next week" ≡ some 7
unfolding phrase_days
next_week_test = refl
