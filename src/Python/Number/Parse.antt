-- ===== src/Python/Number/Parse.antt =====
-- `int(text)`: white space around, one sign, digits with single underscores between them.
use xmlrpc_extended.Prelude.{
  ℕ, zero, suc, ◌+◌, ◌-◌, ◌*◌, Bool, true, ◌&&◌, ◌||◌, [], ◌∷◌, Option, none, some, leb, ◌==◌,
  if◌then◌else◌,
}
use xmlrpc_extended.Prelude.Int.{ℤ, pos, negsuc}
use xmlrpc_extended.Python.Text.{Text}

-- The white space that `int` strips: space, \t to \r, \x1c to \x1f, \x85, \xa0.
unfoldable pub is_space : ℕ → Bool
is_space c = c == 32 || (leb 9 c && leb c 13) || (leb 28 c && leb c 31) || c == 133 || c == 160

unfoldable pub is_digit : ℕ → Bool
is_digit c = leb b'0' c && leb c b'9'

unfoldable pub strip_left : Text → Text
unfolding is_space
strip_left [] = []
strip_left (c ∷ s) = if is_space c then strip_left s else c ∷ s

unfoldable pub all_space : Text → Bool
unfolding is_space
all_space [] = true
all_space (c ∷ s) = is_space c && all_space s

-- The digits from here on, with the value and the number of digits so far. `wanted` says that a
-- digit has to follow: at the start, and behind an underscore. White space may stand behind all.
unfoldable pub read_digits : (wanted : Bool) (value count : ℕ) → Text → Option (ℕ × ℕ)
unfolding is_digit all_space
read_digits wanted value count [] = if wanted then none else some (value, count)
read_digits wanted value count (c ∷ s) =
    let more =
      read_digits (c == b'_') (if is_digit c then value * 10 + (c - b'0') else value)
        (if is_digit c then suc count else count) s in
    if is_digit c
    then more
    else if wanted
    then none
    else if c == b'_'
    then more
    else if all_space (c ∷ s)
    then some (value, count)
    else none

-- The limit on the number of digits, `sys.get_int_max_str_digits()`; 0 is no limit.
abbrev pub within : (limit count : ℕ) → Bool
within limit count = limit == 0 || leb count limit

abbrev pub magnitude : ℕ → Option (ℕ × ℕ) → Option ℕ
magnitude limit none = none
magnitude limit (some (value, count)) = if within limit count then some value else none

abbrev pub negated : Option ℕ → Option ℤ
negated none = none
negated (some zero) = some (pos 0)
negated (some (suc n)) = some (negsuc n)

abbrev pub plain : Option ℕ → Option ℤ
plain none = none
plain (some n) = some (pos n)

abbrev unsigned : ℕ → Text → Option ℕ
unsigned limit s = magnitude limit (read_digits true 0 0 s)

unfoldable pub signed : ℕ → Text → Option ℤ
unfolding read_digits
signed limit [] = none
signed limit (c ∷ s) =
    if c == b'-'
    then negated (unsigned limit s)
    else if c == b'+'
    then plain (unsigned limit s)
    else plain (unsigned limit (c ∷ s))

-- `int(text)`; `none` is `ValueError`.
unfoldable pub int : ℕ → Text → Option ℤ
unfolding signed strip_left
int limit s = signed limit (strip_left s)
