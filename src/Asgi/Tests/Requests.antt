-- ===== src/Asgi/Tests/Requests.antt =====
-- Requests over HTTP, and a lifespan, of the calculator's application.
use xmlrpc_extended.Prelude.{◌≡◌, refl, Bool, true, false, List, [], ◌∷◌, ◌++◌, none, some, arith}
use xmlrpc_extended.Prelude.Int.{pos}
use xmlrpc_extended.Python.Number.{str, digits_onto}
use xmlrpc_extended.Python.Text.{Text, Bytes, codes, text_eq}
use xmlrpc_extended.Asgi.Host.{value, fault, exception, Host}
use xmlrpc_extended.Asgi.App.{make_executor, close, get_executor, executor_or_made}
use xmlrpc_extended.Asgi.Body.{Event, read_body, read_from, join}
use xmlrpc_extended.Asgi.Body.Laws.{IsRequest}
use xmlrpc_extended.Asgi.Dispatch.{
  find, walk, resolve_dotted_attribute, target, async_dispatch, async_marshaled_dispatch,
}
use xmlrpc_extended.Asgi.Http.{
  startup_complete, shutdown_complete, Scope, Done, handle_http, with_body, upper, success,
}
use xmlrpc_extended.Asgi.Http.Laws.{
  request_method, Answers, effect, handle_http-Answers, handle_http_chunks,
}
use xmlrpc_extended.Asgi.Lifespan.{handle_lifespan}
use xmlrpc_extended.Asgi.Lifespan.Laws.{
  handle_lifespan-answers, handle_lifespan-waits, repeat, startups,
}
use xmlrpc_extended.Asgi.Http.Escapes.{fault_escapes}
use xmlrpc_extended.Asgi.Tests.{Thing, host_of, host, app, started}

abbrev piece : Bytes → Bool → Event
piece body more = record { type = codes "http.request"; body = some body; more_body = some more }

abbrev two_pieces : List Event
two_pieces = piece (codes "a") true ∷ piece [] true ∷ piece (codes "dd") false ∷ []

abbrev one_piece : List Event
one_piece = record { type = codes "http.request"; body = some (codes "add"); more_body = none } ∷ []

two_pieces-IsRequest : IsRequest two_pieces
two_pieces-IsRequest = (refl, (refl, refl))

abbrev post : Scope
post = record {
  type = some (codes "http");
  path = some (codes "/RPC2");
  method = some (codes "post");
}

abbrev added : Done Thing
added = record { app = started; sent = value (success (codes "5")); left = [] }

added_now : handle_http host 0 app post two_pieces ≡ some added
unfolding handle_http upper read_body read_from join with_body async_marshaled_dispatch
    async_dispatch target find get_executor executor_or_made make_executor resolve_dotted_attribute
    walk digits_onto str
added_now = refl

handle_http-Answers_example : Answers host 0 app post two_pieces added
handle_http-Answers_example = handle_http-Answers host 0 app post two_pieces added added_now

handle_http_chunks_example :
    effect (handle_http host 0 app post (two_pieces ++ []))
    ≡ effect (handle_http host 0 app post (one_piece ++ []))
handle_http_chunks_example =
    handle_http_chunks host 0 app post two_pieces one_piece [] two_pieces-IsRequest refl refl

abbrev event : Text → Event
event type = record { type = type; body = none; more_body = none }

abbrev startup_event : Event
startup_event = event (codes "lifespan.startup")

abbrev shutdown_event : Event
shutdown_event = event (codes "lifespan.shutdown")

abbrev before : List Event
before = event (codes "lifespan.unknown") ∷ startup_event ∷ []

handle_lifespan-answers_example :
    handle_lifespan (before ++ shutdown_event ∷ before) app
    ≡ some (close (make_executor app), startup_complete ∷ shutdown_complete ∷ [], before)
unfolding startups repeat text_eq
handle_lifespan-answers_example =
    handle_lifespan-answers before before shutdown_event app (refl, (refl, tt)) refl

handle_lifespan-waits_example : handle_lifespan before app ≡ none
unfolding text_eq
handle_lifespan-waits_example = handle_lifespan-waits before app (refl, (refl, tt))

-- Every function raises a fault whose code is above 2 ^ 31.
abbrev failing : Host
failing = host_of (λ f params. fault (pos 4_294_967_296) (codes "no"))

failing_raises :
    (async_dispatch failing 0 app (codes "add") (2 ∷ 3 ∷ [])).outcome
    ≡ fault (pos 4_294_967_296) (codes "no")
unfolding async_dispatch target find resolve_dotted_attribute walk
failing_raises = refl

two_pieces_read : read_body two_pieces ≡ some (codes "add", [])
unfolding read_body read_from join
two_pieces_read = refl

post_method : request_method post ≡ codes "POST"
unfolding upper
post_method = refl

fault_escapes_example :
    handle_http failing 0 app post two_pieces
    ≡ some (record {
      app = (async_marshaled_dispatch failing 0 app (codes "add")).0;
      sent = exception (codes "OverflowError") (codes "int exceeds XML-RPC limits");
      left = [];
    })
fault_escapes_example =
    fault_escapes failing 0 app post two_pieces [] (codes "add")
      (record { params = 2 ∷ 3 ∷ []; method = some (codes "add") }) (pos 4_294_967_296) (codes "no")
      _ _ refl post_method two_pieces_read (ground arith) refl failing_raises refl
