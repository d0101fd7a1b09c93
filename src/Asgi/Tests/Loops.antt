-- ===== src/Asgi/Tests/Loops.antt =====
-- Requests of the calculator's application that run at once.
use xmlrpc_extended.Prelude.{
  ◌≡◌, refl, true, false, List, [], ◌∷◌, ◌++◌, some, none, ◌⊎◌, get_elem?,
}
use xmlrpc_extended.Python.Number.{str, digits_onto}
use xmlrpc_extended.Python.Text.{codes, text_eq}
use xmlrpc_extended.Asgi.Host.{value, Host}
use xmlrpc_extended.Asgi.App.{make_executor, get_executor, executor_or_made}
use xmlrpc_extended.Asgi.Dispatch.{in_pool, async_dispatch, find, target}
use xmlrpc_extended.Asgi.Body.{Event, read_body, join}
use xmlrpc_extended.Asgi.Http.{
  Done, startup_complete, shutdown_complete, Scope, upper, success, send_http_response,
}
use xmlrpc_extended.Asgi.Session.{lifespan_round}
use xmlrpc_extended.Asgi.Loop.{
  Wake, lifespan_event, arrival, received, completed, taken, interrupted, thread_ended, receiving,
  calling, finished, Task, Loop, new_loop, wake, run_loop,
}
use xmlrpc_extended.Asgi.Loop.Keeps.{StartsIn}
use xmlrpc_extended.Asgi.Loop.Answers.{Answers, run_loop-Answers}
use xmlrpc_extended.Asgi.Loop.Sessions.{started, shut_down, session_interleaved}
use xmlrpc_extended.Asgi.Loop.Pools.{handler_gets_live_pool}
use xmlrpc_extended.Asgi.Loop.Drain.{AreDefault}
use xmlrpc_extended.Asgi.Loop.Shutdown.{shutdown_waits}
use xmlrpc_extended.Asgi.Http.Laws.{IsResponse}
use xmlrpc_extended.Asgi.Loop.Responses.{IsPart, requests_respond}
use xmlrpc_extended.Asgi.Tests.{Thing, host as calculating, app, app-IsTidy}

-- Each call answers the number of its request, as a function that counts its calls.
abbrev host : Host
host = record calculating { call = λ k f params. value k }

abbrev start : Event
start = record { type = codes "lifespan.startup"; body = none; more_body = none }

abbrev stop : Event
stop = record { type = codes "lifespan.shutdown"; body = none; more_body = none }

abbrev plus : Event
plus = record { type = codes "http.request"; body = some (codes "plus"); more_body = none }

abbrev post : Scope
post = record {
  type = some (codes "http");
  path = some (codes "/RPC2");
  method = some (codes "POST");
}

abbrev begin : Loop host
begin = new_loop host app true

-- Two requests, the second of which is answered first; the first is cut off at its handler.
abbrev two_requests : List Wake
two_requests =
    arrival post
    ∷ arrival post
    ∷ received 1 plus
    ∷ received 0 plus
    ∷ thread_ended 1
    ∷ completed 1
    ∷ taken 1
    ∷ interrupted 0
    ∷ thread_ended 0
    ∷ taken 1
    ∷ []

simulate : List Wake → Loop host → Loop host
unfolding run_loop text_eq upper read_body async_dispatch get_executor lifespan_round make_executor
    find target executor_or_made join digits_onto str send_http_response
simulate ws l = elim (run_loop host ws l) [ none ↦ l | some u ↦ u ]

abbrev after : Loop host
after = simulate two_requests begin

after_run : run_loop host two_requests begin ≡ some after
unfolding simulate
after_run = refl

abbrev answered : Task host
answered = record { scope = post; events = plus ∷ []; sent = success (codes "1"); await = finished }

after_sent : get_elem? after.tasks 1 ≡ some answered
unfolding simulate
after_sent = refl

run_loop-Answers_example : Answers host 1 app answered
run_loop-Answers_example =
    run_loop-Answers host app true two_requests after 1 answered after_run after_sent

abbrev served : Loop host
served = simulate two_requests (started host begin)

served_run : run_loop host two_requests (started host begin) ≡ some served
unfolding simulate
served_run = refl

session_interleaved_example :
    (served.app ≡ make_executor app)
    × (served.lifespan_sent ≡ startup_complete ∷ [])
    × (run_loop host (lifespan_event start ∷ (two_requests ++ lifespan_event stop ∷ [])) begin
        ≡ some (record served {
          app = record app { executor = none; pools = record { made = 1; live = [] } };
          lifespan = false;
          lifespan_sent = startup_complete ∷ shutdown_complete ∷ [];
        }))
unfolding text_eq simulate
session_interleaved_example =
    session_interleaved host begin served start stop two_requests refl refl refl refl tt served_run
      refl

-- A request whose handler runs in the first pool.
abbrev at_receive : Loop host
at_receive = simulate (arrival post ∷ []) begin

at_receive_run : run_loop host (arrival post ∷ []) begin ≡ some at_receive
unfolding simulate
at_receive_run = refl

abbrev waiting : Task host
waiting = record { scope = post; events = []; sent = []; await = receiving [] }

waiting_lem : get_elem? at_receive.tasks 0 ≡ some waiting
unfolding simulate
waiting_lem = refl

abbrev at_handler : Loop host
at_handler = simulate (received 0 plus ∷ []) at_receive

at_handler_run : wake host (received 0 plus) at_receive ≡ some at_handler
unfolding simulate
at_handler_run = refl

abbrev called : Task host
called = record {
  scope = post;
  events = plus ∷ [];
  sent = [];
  await = calling (in_pool 0) (value 0);
}

called_lem : get_elem? at_handler.tasks 0 ≡ some called
unfolding simulate
called_lem = refl

waiting-not_StartsIn : ¬ StartsIn host 0 waiting.await
waiting-not_StartsIn (result, e) = cc

handler_gets_live_pool_example :
    (at_handler.app.executor ≡ some 0) × (at_handler.app.pools.live ≡ 0 ∷ [])
handler_gets_live_pool_example =
    handler_gets_live_pool host app true (arrival post ∷ []) at_receive (received 0 plus) at_handler
      0 0 waiting called app-IsTidy (tt, λ u e. tt) at_receive_run tt at_handler_run waiting_lem
      called_lem waiting-not_StartsIn (value 0, refl)

abbrev half_sent : Loop host
half_sent = simulate (thread_ended 0 ∷ completed 0 ∷ arrival post ∷ taken 0 ∷ []) at_handler

-- The request is interrupted while its function runs: a shutdown is held, until the thread has
-- ended.
abbrev cut_request : List Wake
cut_request = arrival post ∷ received 0 plus ∷ interrupted 0 ∷ []

abbrev cut : Loop host
cut = simulate cut_request begin

cut_run : run_loop host cut_request begin ≡ some cut
unfolding simulate
cut_run = refl

shutdown_waits_example :
    (AreDefault cut.jobs × (wake host (lifespan_event stop) cut ≡ some (shut_down host cut)))
    ⊎ ((¬ AreDefault cut.jobs) × (wake host (lifespan_event stop) cut ≡ none))
unfolding simulate
shutdown_waits_example =
    shutdown_waits host app true cut_request cut stop (tt, λ u e. (tt, λ v e'. (tt, λ x e2. tt)))
      cut_run refl refl

cut_held : wake host (lifespan_event stop) cut ≡ none
unfolding simulate wake
cut_held = refl

requests_respond_example :
    ((answered.sent ≡ []) ⊎ IsPart answered.sent)
    × (answered.await ≡ finished → IsResponse answered.sent)
requests_respond_example =
    requests_respond host app true two_requests after 1 answered after_run after_sent

abbrev alone : Done Thing
alone = record { app = make_executor app; sent = value (success (codes "1")); left = [] }
