-- ===== src/Asgi/Loop/Served.antt =====
-- A request that is answered alone is answered among others, from its arrival on.
use xmlrpc_extended.Prelude.{◌≡◌, Bool, List, [], ◌∷◌, ◌++◌}
use xmlrpc_extended.Asgi.Host.{Host, Outcome, value}
use xmlrpc_extended.Asgi.App.{App}
use xmlrpc_extended.Asgi.Http.{Message, Scope}
use xmlrpc_extended.Asgi.Loop.{Wake, Await, finished, raised, Task, Loop, start_http}
use xmlrpc_extended.Asgi.Loop.Follows.{Follows}

module _ (host : Host) where
  open host use {Value, Object}

  -- How the request stands at its end, where alone it sends `o` or ends by the exception `o`.
  abbrev pub EndsAs : Outcome (List Message) → List Message → Await host → Type 0
  EndsAs (value messages) sent at = (at ≡ finished) × (sent ≡ messages)
  EndsAs _ sent at = (at ≡ raised) × (sent ≡ [])

  module _ (a : App Object) (scope : Scope) where
    module _ (lifespan : Bool) (ws : List Wake) (l : Loop host) where
      -- The new request, and the loop with it.
      abbrev newcomer : Task host
      newcomer = record {
        scope = scope;
        events = [];
        sent = [];
        await = start_http host l.app scope;
      }

      abbrev joined : Loop host
      joined = record l { tasks = l.tasks ++ newcomer ∷ [] }
