-- ===== src/Asgi/Body/Laws.antt =====
-- A body that comes in pieces is put together again.
use xmlrpc_extended.Prelude.{
  ◌≡◌, refl, sym, ap, ◌∙◌, true, false, List, [], ◌∷◌, ◌++◌, append-nil, append_assoc, Option, none,
  some,
}
use xmlrpc_extended.Python.Text.{Bytes, codes}
use xmlrpc_extended.Asgi.Body.{
  Event, body_chunk, has_more, join, append_chunk, read_from, read_body,
}

join-append_chunk :
    (chunks : List Bytes) (b : Bytes) → join (append_chunk chunks b) ≡ join chunks ++ b
unfolding join
join-append_chunk [] [] = refl
join-append_chunk [] (c ∷ b) = append-nil _
join-append_chunk (x ∷ chunks) [] = sym (append-nil _)
join-append_chunk (x ∷ chunks) (c ∷ b) =
    ap (◌++◌ x) (join-append_chunk chunks (c ∷ b)) ∙ sym (append_assoc x (join chunks) (c ∷ b))

-- The events of one request: all but the last announce more.
abbrev pub IsRequest : List Event → Type 0
IsRequest [] = ⊥
IsRequest (e ∷ []) = has_more e ≡ false
IsRequest (e ∷ f ∷ es) = (has_more e ≡ true) × IsRequest (f ∷ es)

abbrev pub bodies : List Event → Bytes
bodies [] = []
bodies (e ∷ es) = body_chunk e ++ bodies es

read_from_lem :
    (chunks : List Bytes) (es rest : List Event)
    → IsRequest es
    → read_from chunks (es ++ rest) ≡ some (join chunks ++ bodies es, rest)
unfolding read_from
read_from_lem chunks [] rest h = absurd h
read_from_lem chunks (e ∷ []) rest h = rw h (
    ap {B = Option (Bytes × List Event)} (λ b. some (b, rest))
      (join-append_chunk chunks (body_chunk e)
        ∙ ap (◌++◌ (join chunks)) (sym (append-nil (body_chunk e)))))
read_from_lem chunks (e ∷ f ∷ es) rest h = rw h.0 (
    read_from_lem (append_chunk chunks (body_chunk e)) (f ∷ es) rest h.1
    ∙ ap {B = Option (Bytes × List Event)} (λ b. some (b, rest))
        (ap (λ b. b ++ bodies (f ∷ es)) (join-append_chunk chunks (body_chunk e))
          ∙ append_assoc (join chunks) (body_chunk e) (bodies (f ∷ es))))

-- However a request's body is cut into events, with empty pieces and missing keys among them, the
-- pieces are put together in their order, and no event behind the last one is taken.
pub read_body-IsRequest :
    (es rest : List Event) → IsRequest es → read_body (es ++ rest) ≡ some (bodies es, rest)
unfolding read_body join
read_body-IsRequest es rest h = read_from_lem [] es rest h

-- Events that all announce more.
abbrev pub AllMore : List Event → Type 0
AllMore [] = Unit {0}
AllMore (e ∷ es) = (has_more e ≡ true) × AllMore es

abbrev pub disconnect : Event
disconnect = record { type = codes "http.disconnect"; body = none; more_body = none }

IsRequest-disconnect : (es : List Event) → AllMore es → IsRequest (es ++ disconnect ∷ [])
IsRequest-disconnect [] h = refl
IsRequest-disconnect (e ∷ []) h = (h.0, refl)
IsRequest-disconnect (e ∷ f ∷ es) h = (h.0, IsRequest-disconnect (f ∷ es) h.1)

bodies-disconnect : (es : List Event) → bodies (es ++ disconnect ∷ []) ≡ bodies es
bodies-disconnect [] = refl
bodies-disconnect (e ∷ es) = ap (◌++◌ (body_chunk e)) (bodies-disconnect es)

-- When the client goes away in the middle of its body, the pieces that have come are taken for the
-- whole body.
pub read_body-disconnect :
    (es rest : List Event)
    → AllMore es
    → read_body (es ++ disconnect ∷ rest) ≡ some (bodies es, rest)
read_body-disconnect es rest h =
    ap read_body (sym (append_assoc es (disconnect ∷ []) rest))
    ∙ read_body-IsRequest (es ++ disconnect ∷ []) rest (IsRequest-disconnect es h)
    ∙ ap {B = Option (Bytes × List Event)} (λ b. some (b, rest)) (bodies-disconnect es)
