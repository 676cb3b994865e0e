-- ===== src/Common/Number.antt =====
-- The `number` of the program, an IEEE double, as far as the program looks at it: NaN, the two
-- infinities, and finite values as the integer below and a fraction. `finite i f` is
-- i + f * 2 ^ -1074, of which every finite double is an instance in one way; -0 is 0, as `===`, `<`
-- and the typed arrays have it. Arithmetic, which would round, is no part of this file.
use Prim.Native.Nat.{ℕ, zero, suc}
use mathlib.Core.Bool.{Bool, true, false, ◌&&◌, ◌||◌}
use streammix.Common.Tests.{ltb, ◌==◌}
use streammix.Common.Int.{ℤ, pos, negsuc, ltb_ℤ, wrap}

pub data Number : Type 0 where
  nan pos_inf neg_inf : Number
  finite : ℤ → ℕ → Number

-- A numeral of the source.
abbrev pub num : ℕ → Number
num n = finite (pos n) 0

abbrev pub eq_ℤ : ℤ → ℤ → Bool
eq_ℤ (pos a) (pos b) = a == b
eq_ℤ (negsuc a) (negsuc b) = a == b
eq_ℤ _ _ = false

-- `x === y`
abbrev pub num_eq : Number → Number → Bool
num_eq (finite i f) (finite j g) = eq_ℤ i j && f == g
num_eq pos_inf pos_inf = true
num_eq neg_inf neg_inf = true
num_eq _ _ = false

-- `x < y`
abbrev pub num_lt : Number → Number → Bool
num_lt (finite i f) (finite j g) = ltb_ℤ i j || (eq_ℤ i j && ltb f g)
num_lt (finite i f) pos_inf = true
num_lt neg_inf (finite i f) = true
num_lt neg_inf pos_inf = true
num_lt _ _ = false

-- `Number.isFinite(x)`
abbrev pub is_finite : Number → Bool
is_finite (finite i f) = true
is_finite _ = false

-- `Number.isInteger(x)`
abbrev pub is_integer : Number → Bool
is_integer (finite i f) = f == 0
is_integer _ = false

-- The conversion to an integer that a store into a typed array begins with.
abbrev pub to_integer : Number → ℤ
to_integer (finite (pos n) f) = pos n
to_integer (finite (negsuc n) zero) = negsuc n
to_integer (finite (negsuc zero) (suc f)) = pos 0
to_integer (finite (negsuc (suc n)) (suc f)) = negsuc n
to_integer _ = pos 0

-- The value that a store of `w` bits keeps.
abbrev pub to_uint : ℕ → Number → ℕ
to_uint w x = wrap w (to_integer x)
