-- ===== src/Base/Int.antt =====
-- Signed numbers over the native numbers, for the sign of a number of days.
use Prim.Native.Nat.{ℕ, ◌-◌, ◌/◌}
use mathlib.Core.Bool.{Bool, true, false}
use autopay.Base.Tests.{leb, if◌then◌else◌}

-- `negsuc n` is -(n + 1)
pub data ℤ : Type 0 where
  pos : ℕ → ℤ
  negsuc : ℕ → ℤ

abbrev pub leb_ℤ : ℤ → ℤ → Bool
leb_ℤ (pos a) (pos b) = leb a b
leb_ℤ (pos a) (negsuc b) = false
leb_ℤ (negsuc a) (pos b) = true
leb_ℤ (negsuc a) (negsuc b) = leb b a

-- Microseconds in a day; a `datetime` is a number of microseconds.
abbrev pub day : ℕ
day = 86400000000

-- `(due - now).days`: a `timedelta` is normalised to whole days rounded down, so a moment less
-- than a day before `now` is at -1 days.
unfoldable pub days_between : ℕ → ℕ → ℤ
days_between due now =
    if leb now due then pos ((due - now) / day) else negsuc ((now - due - 1) / day)
