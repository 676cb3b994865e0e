-- ===== src/Common/Int.antt =====
-- Signed integers over the native numbers, under the library's names.
use Prim.Native.Nat.{ℕ, zero, suc, ◌-◌, ◌%◌, ◌^◌, ◌≤◌, ◌<◌}
use native.Mathlib.Nat.{pow-suc, mod-lt}
use native.Mathlib.Omega.{arith}
use mathlib.Core.Bool.{Bool, true, false}
use streammix.Common.Tests.{ltb, leb, if◌then◌else◌}

-- `negsuc n` is -(n + 1).
pub data ℤ : Type 0 where
  pos : ℕ → ℤ
  negsuc : ℕ → ℤ

-- a - b, as an integer.
abbrev pub sub_ℕ : ℕ → ℕ → ℤ
sub_ℕ a b = if leb b a then pos (a - b) else negsuc (b - a - 1)

abbrev pub ltb_ℤ : ℤ → ℤ → Bool
ltb_ℤ (pos a) (pos b) = ltb a b
ltb_ℤ (pos a) (negsuc b) = false
ltb_ℤ (negsuc a) (pos b) = true
ltb_ℤ (negsuc a) (negsuc b) = ltb b a

-- The value modulo 2 ^ w, as the typed arrays and `DataView` store it.
abbrev pub wrap : ℕ → ℤ → ℕ
wrap w (pos n) = n % 2 ^ w
wrap w (negsuc n) = 2 ^ w - 1 - n % 2 ^ w

pow-pos : (w : ℕ) → 1 ≤ 2 ^ w
pow-pos zero = omega arith
pow-pos (suc w) = omega (arith, pow-pos w, pow-suc 2 w)

pub wrap-lt : (w : ℕ) (i : ℤ) → wrap w i < 2 ^ w
wrap-lt w (pos n) = mod-lt n (pow-pos w)
wrap-lt w (negsuc n) = omega (arith, pow-pos w)
