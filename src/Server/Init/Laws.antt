-- ===== src/Server/Init/Laws.antt =====
-- What is there after `__init__`: a pool in its first state with a guarded handler class, or an
-- executor that is shut.
use xmlrpc_extended.Prelude.{
  ℕ, ◌+◌, ◌≤◌, ◌≡◌, ◌==◌, refl, ◌∙◌, subst, ◌⊎◌, true, false, some, List, [], ◌∷◌, ◌++◌, Option,
  arith,
}
use mathlib.Core.Option.{some-injective}
use xmlrpc_extended.Prelude.Int.{pos}
use xmlrpc_extended.Python.Class.{Class, occurs, attribute}
use xmlrpc_extended.Python.Class.Laws.{IsDistinct}
use xmlrpc_extended.Python.Text.{Text}
use xmlrpc_extended.Server.Config.{
  ServerOverloadPolicy, XmlrpcServerConfig, Args, effective_pending, to_policy, ok,
}
use xmlrpc_extended.Server.Config.Laws.{
  IsAllowed, IsPending, effective-IsPending, requested, configure_of_IsAllowed, configure-capacity,
}
use xmlrpc_extended.Server.HandlerClass.{
  Attribute, HandlerClass, limited, limited_do_post, do_post_name, build_request_handler,
}
use xmlrpc_extended.Server.HandlerClass.Laws.{
  Enforces, built-Enforces, build_request_handler-IsGuarded,
}
use xmlrpc_extended.Server.Pool.State.{Server, new_server, Io, close_socket}
use xmlrpc_extended.Server.Pool.System.{init}
use xmlrpc_extended.Server.Init.{
  BaseInit, returned, raised_early, raised_at_bind, failed, constructed, with_handler, construct,
  base_init,
}

-- The numbers of an accepted configuration, and the construction that goes on with them.
record Accepted (simple handler : HandlerClass) (id : ℕ) (a : Args) (given : Option (List Text))
    (p : ServerOverloadPolicy) (workers pending : ℕ) : Type 0 where
  some_worker : 1 ≤ workers
  workers_are : a.max_workers ≡ pos workers
  pending_are : IsPending a.max_pending a.max_workers (pos pending)
  goes_on :
      (base : BaseInit)
      → construct simple id a handler given base
        ≡ with_handler base
            (new_server (requested a p (pos pending)) (workers + pending))
            (build_request_handler simple id handler a.max_request_size given)

accepted :
    (simple handler : HandlerClass) (id : ℕ) (a : Args) (given : Option (List Text))
    (p : ServerOverloadPolicy)
    → to_policy a.overload_policy ≡ ok p
    → IsAllowed a
    → (workers pending : ℕ) × Accepted simple handler id a given p workers pending
unfolding construct
accepted simple handler id a given p known allowed =
    let e = configure_of_IsAllowed a p known allowed in
    let (workers, pending, some_worker, w, q, n) =
      configure-capacity a (requested a p (effective_pending a)) _ e in
    let same = some-injective _ _ q in
    (
      workers,
      pending,
      record {
        some_worker = some_worker;
        workers_are = w;
        pending_are =
            subst (IsPending a.max_pending a.max_workers) same
              (effective-IsPending a.max_pending a.max_workers);
        goes_on = λ base. rw (e, n, same) refl;
      },
    )

-- Whether the base class raises an `Exception`, and the calls on the socket until it does.
abbrev pub RaisesException : BaseInit → Type 0
RaisesException returned = ⊥
RaisesException (raised_early is_exception) = is_exception ≡ true
RaisesException (raised_at_bind is_exception) = is_exception ≡ true

abbrev pub calls_of : BaseInit → List Io
calls_of (raised_at_bind _) = close_socket ∷ []
calls_of _ = []

-- A server that is left behind: its executor is shut, and marked so that no one shuts it again.
abbrev pub IsLeftShut : List Io → Server → Type 0
IsLeftShut calls s =
    (s.executor.is_shutdown ≡ true)
    × (s.executor_closed ≡ true)
    × (s.executor.work_queue ≡ [])
    × (s.history.io ≡ calls)

base_init-IsLeftShut :
    (base : BaseInit) (c : XmlrpcServerConfig) (n : ℕ) (handler : HandlerClass)
    → RaisesException base
    → (s : Server) × (base_init base (new_server c n) handler ≡ failed s)
      × IsLeftShut (calls_of base) s
unfolding base_init
base_init-IsLeftShut returned c n handler h = absurd h
base_init-IsLeftShut (raised_early true) c n handler h = (_, refl, (refl, refl, refl, refl))
base_init-IsLeftShut (raised_early false) c n handler h = absurd (ground arith)
base_init-IsLeftShut (raised_at_bind true) c n handler h = (_, refl, (refl, refl, refl, refl))
base_init-IsLeftShut (raised_at_bind false) c n handler h = absurd (ground arith)

module _ (id : ℕ) (a : Args) (given : Option (List Text)) (p : ServerOverloadPolicy)
    (x : Class Attribute) (own simple rest : HandlerClass)
    (known : to_policy a.overload_policy ≡ ok p) (allowed : IsAllowed a)
    (nonempty : own ++ simple ≡ x ∷ rest) (distinct : IsDistinct (own ++ simple))
    (other : occurs limited.id (own ++ simple) ≡ false) (fresh : (id == limited.id) ≡ false) where
  -- From allowed arguments and a handler class that is derived from the library's but not from
  -- `LimitedXMLRPCRequestHandler`, where the base class raises an `Exception`: the executor is left
  -- shut, and the socket is closed once if binding it failed, although the base class closes the
  -- server itself before `__init__` does.
  pub construct-fails :
      (base : BaseInit)
      → RaisesException base
      → (s : Server) × (construct simple id a (own ++ simple) given base ≡ failed s)
        × IsLeftShut (calls_of base) s
  construct-fails base raises =
      let (workers, pending, go) = accepted simple (own ++ simple) id a given p known allowed in
      let (built, made, guarded) =
        build_request_handler-IsGuarded id a.max_request_size given x own simple rest nonempty
          distinct other fresh in
      let (s, e, left) =
        base_init-IsLeftShut base (requested a p (pos pending)) (workers + pending) built raises in
      (s, go.goes_on base ∙ rw made e, left)

-- From allowed arguments and a handler class that is derived from the library's, where the base
-- class returns: the server is in the first state of the pool with `max_workers` threads, at least
-- one, and a slot for each of them and for each pending request, of which there are `max_pending`,
-- or `max_workers` where that is absent; and its handler class enforces the configured limit on the
-- size. Of a class that is derived from `LimitedXMLRPCRequestHandler`, as the default one, it is
-- assumed that it has no `do_POST` of its own.
pub construct-starts :
    (id : ℕ) (a : Args) (given : Option (List Text)) (p : ServerOverloadPolicy)
    (x : Class Attribute) (own simple rest : HandlerClass)
    → to_policy a.overload_policy ≡ ok p
    → IsAllowed a
    → own ++ simple ≡ x ∷ rest
    → IsDistinct (own ++ simple)
    → (id == limited.id) ≡ false
    → (occurs limited.id (own ++ simple) ≡ false)
      ⊎ ((occurs limited.id (own ++ simple) ≡ true)
          × (attribute do_post_name (own ++ simple) ≡ some limited_do_post))
    → (workers : ℕ) × (pending : ℕ) × (built : HandlerClass) × (construct simple id a
          (own ++ simple)
          given
          returned
        ≡ constructed (init (requested a p (pos pending)) workers pending).server built)
      × (1 ≤ workers)
      × (a.max_workers ≡ pos workers)
      × IsPending a.max_pending a.max_workers (pos pending)
      × Enforces a.max_request_size built
unfolding base_init
construct-starts id a given p x own simple rest known allowed nonempty distinct fresh which =
    let (workers, pending, go) = accepted simple (own ++ simple) id a given p known allowed in
    let (built, made, enforces) =
      built-Enforces id a.max_request_size given x own simple rest nonempty distinct fresh which in
    (
      workers,
      pending,
      built,
      go.goes_on returned ∙ rw made refl,
      go.some_worker,
      go.workers_are,
      go.pending_are,
      enforces,
    )
