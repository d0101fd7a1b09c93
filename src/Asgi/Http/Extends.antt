-- ===== src/Asgi/Http/Extends.antt =====
-- `_handle_http` with more events in its channel than it takes.
use xmlrpc_extended.Prelude.{
  ℕ, ◌≡◌, ◌≢◌, refl, ap, ◌∙◌, inl, inr, Bool-cases, not, List, [], ◌∷◌, ◌++◌, Option, none, some,
  length,
}
use mathlib.Core.Option.{some-injective}
use xmlrpc_extended.Prelude.Int.{pos, ltb_ℤ}
use xmlrpc_extended.Python.Headers.{or_default}
use xmlrpc_extended.Python.Text.{Bytes, codes, text_eq}
use xmlrpc_extended.Asgi.Host.{Host}
use xmlrpc_extended.Asgi.App.{App}
use xmlrpc_extended.Asgi.Body.{Event, body_chunk, has_more, append_chunk, read_from, read_body}
use xmlrpc_extended.Asgi.Http.{Scope, Done, handle_http, with_body, read_and_dispatch, upper}

read_from-nothing :
    (chunks : List Bytes) (got : Bytes × List Event) → read_from chunks [] ≢ some got
unfolding read_from
read_from-nothing chunks got e = cc

pub read_from-append :
    (chunks : List Bytes) (es rest left : List Event) (body : Bytes)
    → read_from chunks es ≡ some (body, left)
    → read_from chunks (es ++ rest) ≡ some (body, left ++ rest)
unfolding read_from
read_from-append chunks [] rest left body h = absurd (read_from-nothing chunks (body, left) h)
read_from-append chunks (e ∷ es) rest left body h = elim (Bool-cases (has_more e)) [
  | inl more ↦
      rw (more, read_from)
        (read_from-append (append_chunk chunks (body_chunk e)) es rest left body (rw more at h))
  | inr last ↦
      let same = some-injective _ _ (rw last at h) in
      rw (last, read_from)
        (ap {B = Option (Bytes × List Event)} (λ r. some (r.0, r.1 ++ rest)) same)
]

module _ (host : Host) (k : ℕ) (a : App host.Object) where
  with_body-sent :
      (body : Bytes) (left left' : List Event)
      → (with_body host k a (body, left)).sent ≡ (with_body host k a (body, left')).sent
  unfolding with_body
  with_body-sent body left left' =
      elim (Bool-cases (ltb_ℤ a.max_request_size (pos (length body)))) [
        | inl large ↦ rw large refl
        | inr fits ↦ rw fits refl
      ]

  -- The same answer, with more events in the channel.
  abbrev pub AnswersAs : Done host.Object → Option (Done host.Object) → Type 0
  AnswersAs d r = (d' : Done host.Object) × (r ≡ some d') × (d'.sent ≡ d.sent)

  dispatch-append :
      (es rest : List Event) (d : Done host.Object) (r : Option (Bytes × List Event))
      → read_from [] es ≡ r
      → read_and_dispatch host k a r ≡ some d
      → AnswersAs d (read_and_dispatch host k a (read_from [] (es ++ rest)))
  dispatch-append es rest d none e h = cc
  dispatch-append es rest d (some (body, left)) e h = (
    with_body host k a (body, left ++ rest),
    ap (read_and_dispatch host k a) (read_from-append [] es rest left body e),
    with_body-sent body (left ++ rest) left ∙ ap (λ x. x.sent) (some-injective _ _ h),
  )

  -- A request that is answered is answered the same whatever its channel brings besides.
  pub handle_http-append :
      (scope : Scope) (es rest : List Event) (d : Done host.Object)
      → handle_http host k a scope es ≡ some d
      → AnswersAs d (handle_http host k a scope (es ++ rest))
  unfolding handle_http read_body
  handle_http-append scope es rest d h =
      elim (Bool-cases (not (text_eq (or_default scope.path (codes "/")) a.rpc_path))) [
        | inl elsewhere ↦
            rw (elsewhere, handle_http)
              (_, refl, ap (λ x. x.sent) (some-injective _ _ (rw elsewhere at h)))
        | inr here ↦
            elim (Bool-cases
              (not (text_eq (upper (or_default scope.method (codes "GET"))) (codes "POST")))) [
                | inl other ↦
                    rw (here, other, handle_http)
                      (_, refl, ap (λ x. x.sent) (some-injective _ _ (rw (here, other) at h)))
                | inr post ↦
                    rw (here, post, handle_http)
                      (dispatch-append es rest d (read_from [] es) refl (rw (here, post) at h))
              ]
      ]
