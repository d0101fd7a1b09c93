-- ===== src/Asgi/Session.antt =====
-- A run of the application by a server: the lifespan call waits for its events, and the server
-- answers requests in the meantime. A turn is what the event loop does from one `receive` of the
-- lifespan call to the next, or for one request: of what the turns share, a request changes only the
-- executor, by `_get_executor`, between two awaits.
pub mod Laws
use xmlrpc_extended.Prelude.{ℕ, Bool, true, false, List, [], ◌∷◌, Option, none, some, if◌then◌else◌}
use xmlrpc_extended.Python.Text.{codes, text_eq}
use xmlrpc_extended.Asgi.Host.{Host}
use xmlrpc_extended.Asgi.App.{App, make_executor, close}
use xmlrpc_extended.Asgi.Body.{Event}
use xmlrpc_extended.Asgi.Http.{
  Message, startup_complete, shutdown_complete, Scope, Done, handle_http,
}

-- One round of the loop of `_handle_lifespan`: the application, what is sent, and whether the loop
-- goes on.
unfoldable pub lifespan_round :
    {Object : Type 0} → Event → App Object → App Object × List Message × Bool
unfolding make_executor close
lifespan_round e a =
    if text_eq e.type (codes "lifespan.startup")
    then (make_executor a, startup_complete ∷ [], true)
    else if text_eq e.type (codes "lifespan.shutdown")
    then (close a, shutdown_complete ∷ [], false)
    else (a, [], true)

pub record Session (Object : Type 0) : Type 0 where
  pub app : App Object
  pub lifespan : Bool  -- whether the lifespan call waits for an event

pub data Turn : Type 0 where
  lifespan_event : Event → Turn
  request : ℕ → Scope → List Event → Turn  -- with its number, and the events that its channel will bring

module _ (host : Host) where
  open host use {Object}

  abbrev resumed : App Object × List Message × Bool → Session Object
  resumed (a, sent, goes_on) = record { app = a; lifespan = goes_on }

  abbrev answered : Session Object → Option (Done Object) → Option (Session Object)
  answered s none = none
  answered s (some d) = some (record s { app = d.app })

  -- `none` is an event without a lifespan call, or a request whose body does not end.
  unfoldable pub turn : Turn → Session Object → Option (Session Object)
  unfolding lifespan_round handle_http
  turn (lifespan_event e) s = if s.lifespan then some (resumed (lifespan_round e s.app)) else none
  turn (request k scope events) s = answered s (handle_http host k s.app scope events)

  abbrev and_then :
      (Session Object → Option (Session Object)) → Option (Session Object) → Option (Session Object)
  and_then f none = none
  and_then f (some s) = f s

  unfoldable pub run_turns : List Turn → Session Object → Option (Session Object)
  unfolding turn
  run_turns [] s = some s
  run_turns (t ∷ ts) s = and_then (run_turns ts) (turn t s)
