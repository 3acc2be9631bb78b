-- ===== src/Base/Letters.antt =====
-- Letters: `lower` and `upper` of a text, on the letters A to Z.
use Prim.Native.String.{String, ◌++◌}
use mathlib.Core.Path.{◌≡◌, refl}
use mathlib.Core.List.{List, [], ◌∷◌}
use autopay.Base.Tests.{if◌then◌else◌}
use autopay.Base.Text.{str_eq}

abbrev lowered : List (String × String)
lowered =
    ("A", "a")
    ∷ ("B", "b")
    ∷ ("C", "c")
    ∷ ("D", "d")
    ∷ ("E", "e")
    ∷ ("F", "f")
    ∷ ("G", "g")
    ∷ ("H", "h")
    ∷ ("I", "i")
    ∷ ("J", "j")
    ∷ ("K", "k")
    ∷ ("L", "l")
    ∷ ("M", "m")
    ∷ ("N", "n")
    ∷ ("O", "o")
    ∷ ("P", "p")
    ∷ ("Q", "q")
    ∷ ("R", "r")
    ∷ ("S", "s")
    ∷ ("T", "t")
    ∷ ("U", "u")
    ∷ ("V", "v")
    ∷ ("W", "w")
    ∷ ("X", "x")
    ∷ ("Y", "y")
    ∷ ("Z", "z")
    ∷ []

abbrev uppered : List (String × String)
uppered =
    ("a", "A")
    ∷ ("b", "B")
    ∷ ("c", "C")
    ∷ ("d", "D")
    ∷ ("e", "E")
    ∷ ("f", "F")
    ∷ ("g", "G")
    ∷ ("h", "H")
    ∷ ("i", "I")
    ∷ ("j", "J")
    ∷ ("k", "K")
    ∷ ("l", "L")
    ∷ ("m", "M")
    ∷ ("n", "N")
    ∷ ("o", "O")
    ∷ ("p", "P")
    ∷ ("q", "Q")
    ∷ ("r", "R")
    ∷ ("s", "S")
    ∷ ("t", "T")
    ∷ ("u", "U")
    ∷ ("v", "V")
    ∷ ("w", "W")
    ∷ ("x", "X")
    ∷ ("y", "Y")
    ∷ ("z", "Z")
    ∷ []

abbrev image : List (String × String) → String → String
image [] c = c
image ((a, b) ∷ t) c = if str_eq a c then b else image t c

abbrev map_letters : List (String × String) → String → String
map_letters t String.[] = ""
map_letters t (String.◌∷◌ c s) = image t (String.◌∷◌ c "") ++ map_letters t s

-- `s.lower()`
unfoldable pub lower : String → String
lower s = map_letters lowered s

-- `s.upper()`
unfoldable pub upper : String → String
upper s = map_letters uppered s

lower_test : lower "Ada@Example.com" ≡ "ada@example.com"
unfolding lower
lower_test = refl

upper_test : upper "ab9x2k" ≡ "AB9X2K"
unfolding upper
upper_test = refl
