-- ===== src/Python/Number/Digits.antt =====
-- `str(n)`: the decimal digits, the most significant first.
use xmlrpc_extended.Prelude.{ℕ, zero, suc, ◌+◌, ◌/◌, ◌%◌, [], ◌∷◌, ltb, if◌then◌else◌}
use xmlrpc_extended.Python.Text.{Text}

-- The digits of `n` in front of `rest`; the fuel bounds the number of digits.
unfoldable pub digits_onto : ℕ → ℕ → Text → Text
digits_onto zero n rest = rest
digits_onto (suc fuel) n rest =
    let more = digits_onto fuel (n / 10) ((b'0' + n % 10) ∷ rest) in
    if ltb n 10 then (b'0' + n) ∷ rest else more

-- A number has at most as many digits as one more than itself.
unfoldable pub str : ℕ → Text
str n = digits_onto (suc n) n []
