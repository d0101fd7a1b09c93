-- ===== src/Server/Handler/Laws.antt =====
-- Which requests reach the standard library's `do_POST`, and how the others are answered.
use xmlrpc_extended.Prelude.{
  ℕ, ◌≡◌, refl, ◌↔◌, inl, inr, true, false, length, Option, none, some, arith, Bool-cases,
  if◌then◌else◌,
}
use mathlib.Core.Option.{some-injective}
use xmlrpc_extended.Prelude.Int.{ℤ, pos, negsuc, ◌≤ℤ◌, ltb_ℤ}
use xmlrpc_extended.Python.Headers.{Headers, get}
use xmlrpc_extended.Python.Number.{int, str, within}
use xmlrpc_extended.Python.Number.Laws.{int-str}
use xmlrpc_extended.Python.Text.{Text, codes}
use xmlrpc_extended.Server.Handler.{
  Reply, super_do_post, chunked_unsupported, length_required, length_invalid, too_large, is_chunked,
  check_size, check_length, do_post,
}

check_size_iff :
    (limit : ℤ) (r : Option ℤ)
    → (check_size limit r ≡ super_do_post) ↔ ((n : ℕ) × (r ≡ some (pos n)) × (pos n ≤ℤ limit))
unfolding check_size
check_size_iff limit none = (λ e. cc, λ (n, e, h). cc)
check_size_iff limit (some (negsuc n)) = (λ e. absurd (ground arith), λ (m, e, h). cc)
check_size_iff limit (some (pos n)) = (λ e. (n, refl, ground arith), λ (m, e, h). ground arith)

module _ (digits : ℕ) (limit : ℤ) where
  -- The header holds the text of the integer `n`.
  abbrev pub IsLength : Option Text → ℤ → Type 0
  IsLength header n = (t : Text) × (header ≡ some t) × (int digits t ≡ some n)

  check_length_iff :
      (header : Option Text)
      → (check_length digits limit header ≡ super_do_post)
        ↔ ((n : ℕ) × IsLength header (pos n) × (pos n ≤ℤ limit))
  unfolding check_length
  check_length_iff none = (λ e. cc, λ (n, (t, e, p), h). cc)
  check_length_iff (some t) = (
    λ e. let (n, p, h) = (check_size_iff limit (int digits t)).0 e in (n, (t, refl, p), h),
    λ (n, (u, e, p), h).
        let same : t ≡ u = some-injective _ _ e in
        (check_size_iff limit (int digits t)).1 (n, rw same p, h),
  )

  -- A request goes on to the standard library exactly when it is not chunked and announces a length
  -- from 0 up to the limit.
  pub do_post-super_iff :
      (headers : Headers)
      → (do_post digits limit headers ≡ super_do_post) ↔ (
          (is_chunked headers ≡ false)
          × ((n : ℕ) × IsLength (get headers (codes "content-length")) (pos n) × (pos n ≤ℤ limit)))
  unfolding do_post
  do_post-super_iff headers = elim (Bool-cases (is_chunked headers)) [
    | inl chunked ↦ rw chunked (λ e. cc, λ (e, h). cc)
    | inr whole ↦ rw whole (
      λ e. (refl, (check_length_iff (get headers (codes "content-length"))).0 e),
      λ (e, h). (check_length_iff (get headers (codes "content-length"))).1 h,
    )
  ]

  -- The documented answers: what is asked of the request, and the reply to it.
  pub data Answers (headers : Headers) (reply : Reply) : Type 0 where
    chunked : is_chunked headers ≡ true → reply ≡ chunked_unsupported → Answers headers reply
    unannounced :
        is_chunked headers ≡ false
        → get headers (codes "content-length") ≡ none
        → reply ≡ length_required
        → Answers headers reply
    unreadable :
        (t : Text)
        → is_chunked headers ≡ false
        → get headers (codes "content-length") ≡ some t
        → int digits t ≡ none
        → reply ≡ length_invalid
        → Answers headers reply
    negative :
        (n : ℕ)
        → is_chunked headers ≡ false
        → IsLength (get headers (codes "content-length")) (negsuc n)
        → reply ≡ length_invalid
        → Answers headers reply
    oversized :
        (n : ℕ)
        → is_chunked headers ≡ false
        → IsLength (get headers (codes "content-length")) (pos n)
        → ¬ (pos n ≤ℤ limit)
        → reply ≡ too_large
        → Answers headers reply
    admitted :
        (n : ℕ)
        → is_chunked headers ≡ false
        → IsLength (get headers (codes "content-length")) (pos n)
        → pos n ≤ℤ limit
        → reply ≡ super_do_post
        → Answers headers reply

  sized :
      (headers : Headers) (t : Text) (r : Option ℤ)
      → is_chunked headers ≡ false
      → get headers (codes "content-length") ≡ some t
      → int digits t ≡ r
      → Answers headers (check_size limit r)
  unfolding check_size
  sized headers t none whole given e = unreadable t whole given e refl
  sized headers t (some (negsuc n)) whole given e = negative n whole (t, given, e) (ground arith)
  sized headers t (some (pos n)) whole given e = elim (Bool-cases (ltb_ℤ limit (pos n))) [
    | inl over ↦ oversized n whole (t, given, e) (ground arith) (ground arith)
    | inr fits ↦ admitted n whole (t, given, e) (ground arith) (ground arith)
  ]

  announced :
      (headers : Headers) (header : Option Text)
      → is_chunked headers ≡ false
      → get headers (codes "content-length") ≡ header
      → Answers headers (check_length digits limit header)
  unfolding check_length
  announced headers none whole given = unannounced whole given refl
  announced headers (some t) whole given = sized headers t _ whole given refl

  -- Every request gets the first of these replies that applies: 501 if it is chunked, 411 if it
  -- announces no length, 400 if the announced length is no integer or is negative, 413 if it is
  -- above the limit, and else the standard library serves it.
  pub do_post-Answers : (headers : Headers) → Answers headers (do_post digits limit headers)
  unfolding do_post
  do_post-Answers headers = elim (Bool-cases (is_chunked headers)) [
    | inl parts ↦ rw parts (chunked parts refl)
    | inr whole ↦ rw whole (announced headers _ whole refl)
  ]

check_size-pos :
    (limit : ℤ) (n : ℕ)
    → check_size limit (some (pos n)) ≡ (if ltb_ℤ limit (pos n) then too_large else super_do_post)
unfolding check_size
check_size-pos limit n = ground arith

-- A client that announces the size `n` of its body in decimal is served if `n` is within the limit,
-- and otherwise answered with 413, for all sizes with no more digits than the interpreter reads.
pub do_post-str :
    (digits n : ℕ) (limit : ℤ) (headers : Headers)
    → is_chunked headers ≡ false
    → get headers (codes "content-length") ≡ some (str n)
    → within digits (length (str n)) ≡ true
    → do_post digits limit headers ≡ (if ltb_ℤ limit (pos n) then too_large else super_do_post)
unfolding do_post
do_post-str digits n limit headers whole given small =
    rw (whole, given) (rw (check_length, int-str digits n small) (check_size-pos limit n))
