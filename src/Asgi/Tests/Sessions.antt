-- ===== src/Asgi/Tests/Sessions.antt =====
-- A session of the calculator's application.
use xmlrpc_extended.Prelude.{◌≡◌, ◌≢◌, refl, false, List, [], ◌∷◌, some, none}
use xmlrpc_extended.Python.Text.{codes, text_eq}
use xmlrpc_extended.Asgi.App.{get_executor}
use xmlrpc_extended.Asgi.Dispatch.{async_marshaled_dispatch}
use xmlrpc_extended.Asgi.Body.{Event, read_body}
use xmlrpc_extended.Asgi.Http.{Scope, upper}
use xmlrpc_extended.Asgi.Session.{run_turns, request as answer}
use xmlrpc_extended.Asgi.Tests.{host, app}

abbrev start : Event
start = record { type = codes "lifespan.startup"; body = none; more_body = none }

abbrev stop : Event
stop = record { type = codes "lifespan.shutdown"; body = none; more_body = none }

abbrev plus : List Event
plus = record { type = codes "http.request"; body = some (codes "plus"); more_body = none } ∷ []

abbrev post : Scope
post = record {
  type = some (codes "http");
  path = some (codes "/RPC2");
  method = some (codes "POST");
}

plus_whole : read_body plus ≢ none
unfolding read_body
plus_whole e = cc

-- A request after the session makes a pool.
late_request :
    run_turns host (answer 0 post plus ∷ []) (record { app = app; lifespan = false })
    ≡ some (record {
      app = record app { executor = some 0; pools = record { made = 1; live = 0 ∷ [] } };
      lifespan = false;
    })
unfolding run_turns text_eq upper read_body async_marshaled_dispatch get_executor
late_request = refl
