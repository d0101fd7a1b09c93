-- ===== src/Python/Number/Laws.antt =====
-- `int(str(n))` is `n`.
use xmlrpc_extended.Prelude.{
  ℕ, zero, suc, ◌+◌, ◌-◌, ◌*◌, ◌/◌, ◌%◌, ◌<◌, ◌≡◌, ap, sym, ◌∙◌, inl, inr, Bool, true, false, [],
  ◌∷◌, some, arith, length, ltb, ◌==◌, if◌then◌else◌, Bool-cases,
}
use native.Mathlib.Nat.{add-zero}
use xmlrpc_extended.Prelude.Int.{pos}
use xmlrpc_extended.Python.Text.{Text}
use xmlrpc_extended.Python.Number.Digits.{digits_onto, str}
use xmlrpc_extended.Python.Number.Parse.{
  is_space, is_digit, strip_left, read_digits, magnitude, plain, within, int,
}

-- The number of digits that are written.
digit_count : ℕ → ℕ → ℕ
digit_count zero n = 0
digit_count (suc fuel) n =
    let more = suc (digit_count fuel (n / 10)) in if ltb n 10 then 1 else more

length-digits_onto :
    (fuel n : ℕ) (rest : Text) → length (digits_onto fuel n rest) ≡ digit_count fuel n + length rest
unfolding digits_onto digit_count
length-digits_onto zero n rest = omega arith
length-digits_onto (suc fuel) n rest =
    ground (arith, length-digits_onto fuel (n / 10) ((b'0' + n % 10) ∷ rest))

digit_is_digit : (d : ℕ) → d < 10 → is_digit (b'0' + d) ≡ true
unfolding is_digit
digit_is_digit d h = ground arith

digit_is_solid : (d : ℕ) → d < 10 → is_space (b'0' + d) ≡ false
unfolding is_space
digit_is_solid d h = ground arith

read_one :
    (wanted : Bool) (v k d w : ℕ) (rest : Text)
    → d < 10
    → v * 10 + d ≡ w
    → read_digits wanted v k ((b'0' + d) ∷ rest) ≡ read_digits false w (suc k) rest
unfolding read_digits
read_one wanted v k d w rest h e =
    let digit : is_digit (b'0' + d) ≡ true = digit_is_digit d h in
    let other : (b'0' + d == b'_') ≡ false = ground arith in
    let amount : v * 10 + (b'0' + d - b'0') ≡ w = omega arith in rw (digit, other, amount)

-- Reading the written digits gives the number.
read_digits-digits_onto :
    (fuel n : ℕ) (rest : Text)
    → n < fuel
    → read_digits true 0 0 (digits_onto fuel n rest) ≡ read_digits false n (digit_count fuel n) rest
unfolding digits_onto digit_count
read_digits-digits_onto zero n rest h = elim h [ ]
read_digits-digits_onto (suc fuel) n rest h = elim (Bool-cases (ltb n 10)) [
  | inl small ↦ rw small (read_one true 0 0 n n rest (ground arith) (omega arith))
  | inr large ↦ rw large (
      read_digits-digits_onto fuel (n / 10) ((b'0' + n % 10) ∷ rest) (ground arith)
      ∙ read_one false (n / 10) (digit_count fuel (n / 10)) (n % 10) n rest (omega arith)
          (omega arith))
]

-- What is written begins with a digit.
head-digits_onto :
    (fuel n : ℕ) (rest : Text)
    → n < fuel
    → (d : ℕ) × (s : Text) × (d < 10) × (digits_onto fuel n rest ≡ (b'0' + d) ∷ s)
unfolding digits_onto
head-digits_onto zero n rest h = elim h [ ]
head-digits_onto (suc fuel) n rest h = elim (Bool-cases (ltb n 10)) [
  | inl small ↦ (n, rest, ground arith, rw small)
  | inr large ↦ rw large (head-digits_onto fuel (n / 10) ((b'0' + n % 10) ∷ rest) (ground arith))
]

digit_is_plain :
    (limit d : ℕ) (s : Text)
    → d < 10
    → int limit ((b'0' + d) ∷ s) ≡ plain (magnitude limit (read_digits true 0 0 ((b'0' + d) ∷ s)))
unfolding int
digit_is_plain limit d s h =
    let solid : is_space (b'0' + d) ≡ false = digit_is_solid d h in
    let minus : (b'0' + d == b'-') ≡ false = ground arith in
    let plus : (b'0' + d == b'+') ≡ false = ground arith in
    rw (solid, strip_left) (rw (minus, plus))

within_is_read :
    (limit n k : ℕ)
    → within limit k ≡ true
    → plain (magnitude limit (read_digits false n k [])) ≡ some (pos n)
unfolding read_digits
within_is_read limit n k h = rw h

-- What `str` writes of a natural number, `int` reads back, as long as its digits are within the
-- interpreter's limit.
pub int-str :
    (limit n : ℕ) → within limit (length (str n)) ≡ true → int limit (str n) ≡ some (pos n)
unfolding str
int-str limit n h =
    let (d, s, small, e) = head-digits_onto (suc n) n [] (omega arith) in
    let size : length (digits_onto (suc n) n []) ≡ digit_count (suc n) n =
      length-digits_onto (suc n) n [] ∙ add-zero _ in
    let read = read_digits-digits_onto (suc n) n [] (omega arith) in
    ap (int limit) e
    ∙ digit_is_plain limit d s small
    ∙ ap (λ t. plain (magnitude limit (read_digits true 0 0 t))) (sym e)
    ∙ ap (λ r. plain (magnitude limit r)) read
    ∙ within_is_read limit n (digit_count (suc n) n) (rw (← size) h)
