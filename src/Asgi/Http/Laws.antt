-- ===== src/Asgi/Http/Laws.antt =====
-- How each request over HTTP is answered.
use xmlrpc_extended.Prelude.{
  ℕ, ◌≡◌, ◌≢◌, refl, sym, subst, ap, ◌∙◌, inl, inr, true, false, List, [], ◌∷◌, ◌++◌, Option, none,
  some, arith, length, Bool-cases,
}
use mathlib.Core.Option.{some-injective}
use xmlrpc_extended.Prelude.Int.{pos, ◌≤ℤ◌, ltb_ℤ}
use xmlrpc_extended.Python.Headers.{Headers, get, or_default}
use xmlrpc_extended.Python.Number.{str}
use xmlrpc_extended.Python.Text.{Text, Bytes, codes, text_eq, text_eq_sound, text_eq_refl}
use xmlrpc_extended.Asgi.Host.{Outcome, value, fault, exception, Host}
use xmlrpc_extended.Asgi.App.{App}
use xmlrpc_extended.Asgi.Body.{Event, read_body}
use xmlrpc_extended.Asgi.Body.Laws.{IsRequest, bodies, read_body-IsRequest}
use xmlrpc_extended.Asgi.Dispatch.{async_marshaled_dispatch}
use xmlrpc_extended.Asgi.Http.{
  Message, response_start, response_body, Scope, Done, upper, send_http_response, not_found,
  method_not_allowed, payload_too_large, sent_response, handle_http, with_body, read_and_dispatch,
}

text_eq-ne : (s t : Text) → text_eq s t ≡ false → s ≢ t
text_eq-ne s t h e =
    let same : text_eq s t ≡ true = subst (λ u. text_eq s u ≡ true) e (text_eq_refl s) in
    ground arith

abbrev pub request_path : Scope → Text
request_path scope = or_default scope.path (codes "/")

abbrev pub request_method : Scope → Text
request_method scope = upper (or_default scope.method (codes "GET"))

module _ (host : Host) (k : ℕ) (a : App host.Object) (scope : Scope) (events : List Event) where
  open host use {Object}

  -- The answers: what is asked of the request, what is sent, and what becomes of the application.
  pub data Answers (d : Done Object) : Type 0 where
    elsewhere :
        request_path scope ≢ a.rpc_path
        → d ≡ record { app = a; sent = value not_found; left = events }
        → Answers d
    no_post :
        request_path scope ≡ a.rpc_path
        → request_method scope ≢ codes "POST"
        → d ≡ record { app = a; sent = value method_not_allowed; left = events }
        → Answers d
    oversized :
        (body : Bytes) (left : List Event)
        → request_path scope ≡ a.rpc_path
        → request_method scope ≡ codes "POST"
        → read_body events ≡ some (body, left)
        → ¬ (pos (length body) ≤ℤ a.max_request_size)
        → d ≡ record { app = a; sent = value payload_too_large; left = left }
        → Answers d
    answered :
        (body : Bytes) (left : List Event)
        → request_path scope ≡ a.rpc_path
        → request_method scope ≡ codes "POST"
        → read_body events ≡ some (body, left)
        → pos (length body) ≤ℤ a.max_request_size
        → d.app ≡ (async_marshaled_dispatch host k a body).0
        → d.sent ≡ sent_response (async_marshaled_dispatch host k a body).1
        → Answers d

  with_body-Answers :
      (body : Bytes) (left : List Event)
      → request_path scope ≡ a.rpc_path
      → request_method scope ≡ codes "POST"
      → read_body events ≡ some (body, left)
      → Answers (with_body host k a (body, left))
  unfolding with_body
  with_body-Answers body left here post got =
      elim (Bool-cases (ltb_ℤ a.max_request_size (pos (length body)))) [
        | inl over ↦ rw over (oversized body left here post got (ground arith) refl)
        | inr fits ↦ rw fits (answered body left here post got (ground arith) refl refl)
      ]

  read-Answers :
      (got : Option (Bytes × List Event)) (d : Done Object)
      → request_path scope ≡ a.rpc_path
      → request_method scope ≡ codes "POST"
      → read_body events ≡ got
      → read_and_dispatch host k a got ≡ some d
      → Answers d
  read-Answers none d here post e h = cc
  read-Answers (some (body, left)) d here post e h =
      subst Answers (some-injective _ _ h) (with_body-Answers body left here post e)

  -- Every request that is answered is answered so: 404 for another path; 405 for another method
  -- than POST; 413 for a body above the limit, which is not dispatched; and else the dispatch of
  -- the body, with status 200 unless it ends in an exception.
  pub handle_http-Answers :
      (d : Done Object) → handle_http host k a scope events ≡ some d → Answers d
  unfolding handle_http
  handle_http-Answers d h = elim (Bool-cases (text_eq (request_path scope) a.rpc_path)) [
    | inr other ↦ elsewhere (text_eq-ne _ _ other) (sym (some-injective _ _ (rw other at h)))
    | inl here ↦ elim (Bool-cases (text_eq (request_method scope) (codes "POST"))) [
      | inr no_post' ↦
          no_post (text_eq_sound _ _ here) (text_eq-ne _ _ no_post')
            (sym (some-injective _ _ (rw (here, no_post') at h)))
      | inl post ↦
          read-Answers _ d (text_eq_sound _ _ here) (text_eq_sound _ _ post) refl
            (rw (here, post) at h)
    ]
  ]

-- A whole response: its head, which announces the length of its body, and then that body.
abbrev pub IsResponse : List Message → Type 0
IsResponse sent =
    (status : ℕ) × (headers : Headers) × (body : Bytes) × (get headers (codes "content-length")
      ≡ some (str (length body)))
    × (sent ≡ response_start status headers ∷ response_body body ∷ [])

send_http_response-IsResponse :
    (status : ℕ) (body : Bytes) (content_type : Text) (extra_headers : Headers)
    → IsResponse (send_http_response status body content_type extra_headers)
unfolding send_http_response get
send_http_response-IsResponse status body content_type extra_headers = (status, _, body, refl, refl)

value-injective : {A : Type 0} {x y : A} → Outcome.value x ≡ value y → x ≡ y
value-injective e = cc

sent_response-IsResponse :
    (r : Outcome Bytes) (sent : List Message) → sent_response r ≡ value sent → IsResponse sent
sent_response-IsResponse (value body) sent e =
    subst IsResponse (value-injective e)
      (send_http_response-IsResponse 200 body (codes "text/xml; charset=utf-8") [])
sent_response-IsResponse (fault c m) sent e = absurd (ground arith)
sent_response-IsResponse (exception n m) sent e = absurd (ground arith)

-- Whatever the request, a call that does not end in an exception sends one whole response: a head
-- with the length of the body, then the body, and nothing else.
pub handle_http-IsResponse :
    (host : Host) (k : ℕ) (a : App host.Object) (scope : Scope) (events : List Event)
    (d : Done host.Object) (sent : List Message)
    → handle_http host k a scope events ≡ some d
    → d.sent ≡ value sent
    → IsResponse sent
handle_http-IsResponse host k a scope events d sent h e =
    from (handle_http-Answers host k a scope events d h)
  where
    fixed : (ms : List Message) → d.sent ≡ value ms → IsResponse ms → IsResponse sent
    fixed ms q r = subst IsResponse (value-injective (sym q ∙ e)) r

    from : Answers host k a scope events d → IsResponse sent
    from (elsewhere p q) =
        fixed not_found (ap (λ x. x.sent) q) (send_http_response-IsResponse 404 _ _ _)
    from (no_post p m q) =
        fixed method_not_allowed (ap (λ x. x.sent) q) (send_http_response-IsResponse 405 _ _ _)
    from (oversized body left p m g big q) =
        fixed payload_too_large (ap (λ x. x.sent) q) (send_http_response-IsResponse 413 _ _ _)
    from (answered body left p m g fits q r) = sent_response-IsResponse _ sent (sym r ∙ e)

-- What a call does, apart from the events that it leaves in the channel.
abbrev pub effect :
    {Object : Type 0} → Option (Done Object) → Option (App Object × Outcome (List Message))
effect none = none
effect (some d) = some (d.app, d.sent)

-- The answer depends on the body alone: events that are cut otherwise but make up the same body get
-- the same answer, and leave the application the same.
pub handle_http_chunks :
    (host : Host) (k : ℕ) (a : App host.Object) (scope : Scope) (es fs rest : List Event)
    → IsRequest es
    → IsRequest fs
    → bodies es ≡ bodies fs
    → effect (handle_http host k a scope (es ++ rest))
      ≡ effect (handle_http host k a scope (fs ++ rest))
unfolding handle_http
handle_http_chunks host k a scope es fs rest he hf same =
    elim (Bool-cases (text_eq (request_path scope) a.rpc_path)) [
      | inr other ↦ rw other
      | inl here ↦ elim (Bool-cases (text_eq (request_method scope) (codes "POST"))) [
        | inr other ↦ rw (here, other)
        | inl post ↦
            rw (here, post)
              (rw (read_body-IsRequest es rest he, read_body-IsRequest fs rest hf)
                (ap (λ b. effect (some (with_body host k a (b, rest)))) same))
      ]
    ]
