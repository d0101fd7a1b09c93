-- ===== src/Python/Float.antt =====
-- Python's float: a signed multiple of a power of two, an infinity, or not a number.
use xmlrpc_extended.Prelude.{ℕ, Bool, false, ◌&&◌, not, ◌==◌, ◌||◌}
use xmlrpc_extended.Prelude.Int.{ℤ}

-- `finite negative mantissa exponent` is ± mantissa * 2 ^ exponent.
pub data Float : Type 0 where
  finite : (negative : Bool) (mantissa : ℕ) (exponent : ℤ) → Float
  infinite : (negative : Bool) → Float
  nan : Float

-- `x <= 0`; every comparison with a nan is false.
unfoldable pub le_zero : Float → Bool
le_zero (finite negative mantissa exponent) = negative || (mantissa == 0)
le_zero (infinite negative) = negative
le_zero nan = false

-- `0 < x`
unfoldable pub is_positive : Float → Bool
is_positive (finite negative mantissa exponent) = not negative && not (mantissa == 0)
is_positive (infinite negative) = not negative
is_positive nan = false
