-- ===== src/Money.antt =====
-- Python's `Decimal` amounts, and `_ngn_to_kobo` of app/services/payout.py. A decimal is an integer
-- over a power of ten; no amount here is negative.
use autopay.Base.{
  ℕ, zero, suc, ◌+◌, ◌-◌, ◌*◌, ◌/◌, ◌%◌, ◌≤◌, ◌<◌, ◌≡◌, ◌⊎◌, inl, inr, arith, ltb, ◌==◌,
  if◌then◌else◌, Bool, Bool-cases, true, false, ◌&&◌, ◌||◌,
}
use native.Mathlib.Decide.{dec_lt}
use native.Mathlib.Nat.{div-add-mod, mod-lt}

pub record Decimal : Type 0 where
  pub unscaled : ℕ
  pub places : ℕ

-- 10 ^ n
unfoldable pub pow10 : ℕ → ℕ
pow10 zero = 1
pow10 (suc n) = 10 * pow10 n

-- Whether the quotient `q` with the remainder `r` goes up.
abbrev rounds_up : ℕ → ℕ → ℕ → Bool
rounds_up q r d = ltb d (2 * r) || (2 * r == d && q % 2 == 1)

-- `n / d` to the nearest integer, ties to the even one: `quantize(Decimal("1"))` under the default
-- rounding.
unfoldable pub round_half_even : ℕ → ℕ → ℕ
round_half_even n d = if rounds_up (n / d) (n % d) d then n / d + 1 else n / d

-- `_ngn_to_kobo`: the amount times 100, rounded to an integer.
unfoldable pub ngn_to_kobo : Decimal → ℕ
unfolding pow10 round_half_even
ngn_to_kobo a =
    if ltb a.places 3
    then a.unscaled * pow10 (2 - a.places)
    else round_half_even a.unscaled (pow10 (a.places - 2))

-- A NUMERIC(14,2) column's value of that many kobo.
abbrev pub numeric : ℕ → Decimal
numeric kobo = record { unscaled = kobo; places = 2 }

rounds_up-true : (q r d : ℕ) → rounds_up q r d ≡ true → d ≤ 2 * r
rounds_up-true q r d h = ground arith

rounds_up-false : (q r d : ℕ) → rounds_up q r d ≡ false → 2 * r ≤ d
rounds_up-false q r d h = ground arith

round_half_even_bounds :
    (n d : ℕ)
    → 0 < d
    → (2 * (d * round_half_even n d) ≤ 2 * n + d) × (2 * n ≤ 2 * (d * round_half_even n d) + d)
unfolding round_half_even
round_half_even_bounds n d h =
    let whole = div-add-mod n d in
    let small = mod-lt n h in
    elim (Bool-cases (rounds_up (n / d) (n % d) d)) [
      | inl up ↦ rw up (let far = rounds_up-true (n / d) (n % d) d up in omega arith)
      | inr down ↦ rw down (let near = rounds_up-false (n / d) (n % d) d down in omega arith)
    ]

pub pow10_pos : (n : ℕ) → 0 < pow10 n
unfolding pow10
pow10_pos zero = omega arith
pow10_pos (suc n) = omega (arith, pow10_pos n)

few_places : (a : Decimal) → a.places ≤ 2 → ngn_to_kobo a ≡ a.unscaled * pow10 (2 - a.places)
unfolding ngn_to_kobo
few_places a h = ground arith

many_places :
    (a : Decimal) → 2 < a.places → ngn_to_kobo a ≡ round_half_even a.unscaled (pow10 (a.places - 2))
unfolding ngn_to_kobo
many_places a h = ground arith

-- An amount with at most two places converts to kobo exactly; one with more is rounded to a kobo
-- that is at most half a kobo away: with d = 10 ^ (places - 2), twice the distance of d times the
-- result from the amount's digits is at most d.
pub ngn_to_kobo_bounds :
    (a : Decimal)
    → ((a.places ≤ 2) × (ngn_to_kobo a ≡ a.unscaled * pow10 (2 - a.places)))
      ⊎ ((2 < a.places)
          × (2 * (pow10 (a.places - 2) * ngn_to_kobo a) ≤ 2 * a.unscaled + pow10 (a.places - 2))
          × (2 * a.unscaled ≤ 2 * (pow10 (a.places - 2) * ngn_to_kobo a) + pow10 (a.places - 2)))
ngn_to_kobo_bounds a = elim (dec_lt 2 a.places) [
  | no few ↦ inl (omega arith, few_places a (omega arith))
  | yes many ↦
      let (lo, hi) = round_half_even_bounds a.unscaled (pow10 (a.places - 2)) (pow10_pos _) in
      inr (many, rw (many_places a many) lo, rw (many_places a many) hi)
]
