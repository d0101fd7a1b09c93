-- ===== src/Server/Reject/Parse.antt =====
-- How a client reads a response: lines that end in CR LF up to an empty one, then the body. This is
-- the independent reading against which the responses are held.
use xmlrpc_extended.Prelude.{
  ℕ, zero, suc, ◌≡◌, refl, true, [], ◌∷◌, ◌++◌, Option, none, some, arith, ◌==◌, if◌then◌else◌,
}
use xmlrpc_extended.Python.Text.{Text, Bytes}
use xmlrpc_extended.Python.Headers.{Headers}
use xmlrpc_extended.Python.Number.{is_digit}

abbrev prepend {ℓ} : {A : Type ℓ} → ℕ → Option (Text × A) → Option (Text × A)
prepend c none = none
prepend c (some (line, rest)) = some (c ∷ line, rest)

-- A line may hold no other CR than the one that ends it.
line_feed : Bytes → Option (Text × Bytes)
line_feed [] = none
line_feed (d ∷ s) = if d == 10 then some ([], s) else none

-- The first line, and what follows it.
unfoldable pub read_line : Bytes → Option (Text × Bytes)
unfolding line_feed
read_line [] = none
read_line (c ∷ s) = if c == 13 then line_feed s else prepend c (read_line s)

after_colon : Text → Option (Text × Text)
after_colon [] = none
after_colon (c ∷ s) = if c == 32 then some ([], s) else none

-- `name: value`
unfoldable pub split_header : Text → Option (Text × Text)
unfolding after_colon
split_header [] = none
split_header (c ∷ s) = if c == b':' then after_colon s else prepend c (split_header s)

abbrev add_header : Option (Text × Text) → Option (Headers × Bytes) → Option (Headers × Bytes)
add_header (some h) (some (hs, body)) = some (h ∷ hs, body)
add_header _ _ = none

-- The header lines, at most as many as the fuel, and the body.
unfoldable pub read_headers : ℕ → Option (Text × Bytes) → Option (Headers × Bytes)
unfolding read_line split_header
read_headers fuel none = none
read_headers fuel (some ([], body)) = some ([], body)
read_headers zero (some (c ∷ line, rest)) = none
read_headers (suc fuel) (some (c ∷ line, rest)) =
    add_header (split_header (c ∷ line)) (read_headers fuel (read_line rest))

pub record Response : Type 0 where
  pub status_line : Text
  pub headers : Headers
  pub body : Bytes

abbrev respond : Text → Option (Headers × Bytes) → Option Response
respond status none = none
respond status (some (headers, body)) =
    some (record { status_line = status; headers = headers; body = body })

abbrev response_lines : ℕ → Option (Text × Bytes) → Option Response
response_lines fuel none = none
response_lines fuel (some (status, rest)) = respond status (read_headers fuel (read_line rest))

unfoldable pub parse_response : ℕ → Bytes → Option Response
unfolding read_line read_headers
parse_response fuel s = response_lines fuel (read_line s)

abbrev pub IsDigits : Text → Type 0
IsDigits [] = Unit {0}
IsDigits (c ∷ s) = (is_digit c ≡ true) × IsDigits s

-- A number at the end of a line is read up to the end of the line.
pub read_line-IsDigits :
    (s rest : Text) → IsDigits s → read_line (s ++ 13 ∷ 10 ∷ rest) ≡ some (s, rest)
unfolding read_line is_digit
read_line-IsDigits [] rest h = refl
read_line-IsDigits (c ∷ s) rest h = ground (arith, read_line-IsDigits s rest h.1)
