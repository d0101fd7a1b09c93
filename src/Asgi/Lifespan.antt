-- ===== src/Asgi/Lifespan.antt =====
-- `_handle_lifespan`, and the entry point `__call__`.
pub mod Laws
use xmlrpc_extended.Prelude.{ℕ, List, [], ◌∷◌, Option, none, some, if◌then◌else◌}
use xmlrpc_extended.Python.Text.{Text, codes, text_eq}
use xmlrpc_extended.Asgi.Host.{value, Host}
use xmlrpc_extended.Asgi.App.{App, make_executor, close}
use xmlrpc_extended.Asgi.Body.{Event}
use xmlrpc_extended.Asgi.Http.{
  Message, startup_complete, shutdown_complete, Scope, Done, handle_http,
}

module _ {Object : Type 0} where
  abbrev pub announce :
      Message
      → Option (App Object × List Message × List Event)
      → Option (App Object × List Message × List Event)
  announce m none = none
  announce m (some (a, sent, left)) = some (a, m ∷ sent, left)

  -- The loop, on the events that the channel will bring; `none` means that it waits for more. The
  -- shutdown of the executor is that of `close`.
  unfoldable pub handle_lifespan :
      List Event → App Object → Option (App Object × List Message × List Event)
  unfolding make_executor close
  handle_lifespan [] a = none
  handle_lifespan (e ∷ es) a =
      let started = announce startup_complete (handle_lifespan es (make_executor a)) in
      let ignored = handle_lifespan es a in
      if text_eq e.type (codes "lifespan.startup")
      then started
      else if text_eq e.type (codes "lifespan.shutdown")
      then some (close a, shutdown_complete ∷ [], es)
      else ignored

abbrev lifespan_done :
    {Object : Type 0} → Option (App Object × List Message × List Event) → Option (Done Object)
lifespan_done none = none
lifespan_done (some (a, sent, left)) = some (record { app = a; sent = value sent; left = left })

module _ (host : Host) where
  open host use {Object}

  abbrev call_type : ℕ → Option Text → App Object → Scope → List Event → Option (Done Object)
  call_type k none a scope events = some (record { app = a; sent = value []; left = events })
  call_type k (some t) a scope events =
      if text_eq t (codes "lifespan")
      then lifespan_done (handle_lifespan events a)
      else if text_eq t (codes "http")
      then handle_http host k a scope events
      else some (record { app = a; sent = value []; left = events })

  -- `__call__`
  unfoldable pub call : ℕ → App Object → Scope → List Event → Option (Done Object)
  unfolding handle_lifespan handle_http
  call k a scope events = call_type k scope.type a scope events
