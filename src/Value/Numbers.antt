-- ===== src/Value/Numbers.antt =====
-- Numbers as exact counts of 2 ^ -1074, and `math.isfinite`.
use inference_grid.Prelude.{
  ℕ, ◌+◌, ◌-◌, ◌^◌, Bool, true, false, Option, none, some, leb, if◌then◌else◌,
}
use inference_grid.Prelude.Int.{ℤ, scale_ℤ, pos_part, neg_part}
use inference_grid.Value.Access.{finite, Number, int, float}

-- Counts of 2 ^ -1074 in the number 1.
unfoldable pub one : ℕ
one = 2 ^ 1074

unfoldable pub quanta_of_int : ℤ → ℤ
quanta_of_int n = scale_ℤ one n

-- The least magnitude of an int that `float()` cannot round to a finite double.
unfoldable pub float_limit : ℕ
float_limit = 2 ^ 1024 - 2 ^ 970

-- `math.isfinite(n)`; `none` is the OverflowError of an int that is too large for a float.
unfoldable pub is_finite : Number → Option Bool
is_finite (int n) = if leb float_limit (pos_part n + neg_part n) then none else some true
is_finite (float (finite x)) = some true
is_finite (float _) = some false

-- The amount of a number that is finite.
unfoldable pub amount : Number → Option ℤ
unfolding quanta_of_int
amount (int n) = some (quanta_of_int n)
amount (float (finite x)) = some x
amount (float _) = none
