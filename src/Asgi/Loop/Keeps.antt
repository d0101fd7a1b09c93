-- ===== src/Asgi/Loop/Keeps.antt =====
-- What becomes of the application's executor while a request is answered.
use xmlrpc_extended.Prelude.{
  ℕ, ◌≡◌, refl, ap, ◌∙◌, inl, inr, Bool-cases, Bool, true, false, List, Option, none, some, length,
}
use xmlrpc_extended.Prelude.Int.{pos, ltb_ℤ}
use xmlrpc_extended.Python.Text.{Text, Bytes}
use xmlrpc_extended.Asgi.Host.{Outcome, value, fault, exception, Call, Host}
use xmlrpc_extended.Asgi.App.{
  App, Pools, make_executor, close, shut, get_executor, executor_or_made,
}
use xmlrpc_extended.Asgi.Body.{Event, has_more, body_chunk, append_chunk, join}
use xmlrpc_extended.Asgi.Dispatch.{
  Place, Target, function, hook, unsupported, target, run_target, run_function, async_dispatch,
  method_name,
}
use xmlrpc_extended.Asgi.Http.{payload_too_large, Message}
use xmlrpc_extended.Asgi.Lifespan.Laws.{is_startup, is_shutdown}
use xmlrpc_extended.Asgi.Session.{lifespan_round}
use xmlrpc_extended.Asgi.Loop.{
  Await, receiving, calling, sending, on_result, on_call, on_body, on_event,
}
use xmlrpc_extended.Asgi.App.Laws.{IsTidy}
use xmlrpc_extended.Asgi.Dispatch.{Place, in_pool}
use xmlrpc_extended.Asgi.Dispatch.Runs.{executor_kept, executor_used, run_target-IsTidy}
use xmlrpc_extended.Asgi.Loop.{at_dispatch, at_handler, respond}

module _ {Object : Type 0} where
  -- The application with some executor and some pools.
  abbrev pub IsAppOf : App Object → App Object → Type 0
  IsAppOf a b = (e : Option ℕ) × (p : Pools) × (b ≡ record a { executor = e; pools = p })

  pub IsAppOf-trans : (a b c : App Object) → IsAppOf a b → IsAppOf b c → IsAppOf a c
  IsAppOf-trans a b c (e, p, same) (e', p', same') = (
    e',
    p',
    same' ∙ ap {A = App Object} {B = App Object} (λ x. record x { executor = e'; pools = p' }) same,
  )

  shut-IsAppOf : (e : Option ℕ) (a : App Object) → IsAppOf a (shut e a)
  unfolding shut
  shut-IsAppOf none a = (a.executor, a.pools, refl)
  shut-IsAppOf (some p) a = (_, _, refl)

  pub close-IsAppOf : (a : App Object) → IsAppOf a (close a)
  unfolding close
  close-IsAppOf a = shut-IsAppOf a.executor a

  pub lifespan_round-IsAppOf : (e : Event) (a : App Object) → IsAppOf a (lifespan_round e a).0
  unfolding lifespan_round make_executor close
  lifespan_round-IsAppOf e a = elim (Bool-cases (is_startup e)) [
    | inl starts ↦ rw (starts, lifespan_round) (_, _, refl)
    | inr other ↦ elim (Bool-cases (is_shutdown e)) [
      | inl stops ↦ rw (other, stops, lifespan_round) (shut-IsAppOf a.executor a)
      | inr passed ↦ rw (other, passed, lifespan_round) (a.executor, a.pools, refl)
    ]
  ]

  executor_or_made-IsAppOf : (e : Option ℕ) (a : App Object) → IsAppOf a (executor_or_made e a).1
  unfolding executor_or_made make_executor
  executor_or_made-IsAppOf none a = (_, _, refl)
  executor_or_made-IsAppOf (some p) a = (a.executor, a.pools, refl)

module _ (host : Host) where
  open host use {Value, Object}

  abbrev pub StartsIn : ℕ → Await host → Type 0
  StartsIn p w = (result : Outcome Value) × (w ≡ calling (in_pool p) result)

  -- Only the executor and the pools change, and nothing where there is an executor; and a function
  -- that is given to a pool is given to the executor.
  pub record Keeps (a : App Object) (next : App Object × Await host) : Type 0 where
    pub fields : IsAppOf a next.0
    pub tidy : IsTidy a → IsTidy next.0
    pub kept : (p : ℕ) → a.executor ≡ some p → next.0 ≡ a
    pub used : (p : ℕ) → StartsIn p next.1 → next.0.executor ≡ some p

  Keeps-self : (a : App Object) (w : Await host) → ((p : ℕ) → ¬ StartsIn p w) → Keeps a (a, w)
  Keeps-self a w h = record {
    fields = (a.executor, a.pools, refl);
    tidy = λ t. t;
    kept = λ p e. refl;
    used = λ p s. absurd (h p s);
  }

  sending-not_StartsIn : (ms : List Message) (p : ℕ) → ¬ StartsIn p (sending ms)
  sending-not_StartsIn ms p (result, e) = cc

  receiving-not_StartsIn : (chunks : List Bytes) (p : ℕ) → ¬ StartsIn p (receiving chunks)
  receiving-not_StartsIn chunks p (result, e) = cc

  pub respond-not_StartsIn : (r : Outcome Bytes) (p : ℕ) → ¬ StartsIn p (respond host r)
  unfolding respond
  respond-not_StartsIn (value body) p (result, e) = cc
  respond-not_StartsIn (fault c m) p (result, e) = cc
  respond-not_StartsIn (exception n m) p (result, e) = cc

  run_function-IsAppOf :
      (k : ℕ) (a : App Object) (f : Object) (params : List Value) (is_async : Bool)
      → IsAppOf a (run_function host k a f params is_async).app
  unfolding get_executor
  run_function-IsAppOf k a f params true = (a.executor, a.pools, refl)
  run_function-IsAppOf k a f params false = executor_or_made-IsAppOf a.executor a

  run_target-IsAppOf :
      (k : ℕ) (a : App Object) (method : Text) (params : List Value) (g : Target host)
      → IsAppOf a (run_target host k a method params g).app
  run_target-IsAppOf k a method params (function f) = run_function-IsAppOf k a f params _
  run_target-IsAppOf k a method params (hook f) = (a.executor, a.pools, refl)
  run_target-IsAppOf k a method params unsupported = (a.executor, a.pools, refl)

  at_handler-used :
      (result : Outcome Value) (place : Option Place) (p : ℕ)
      → StartsIn p (at_handler host result place)
      → place ≡ some (in_pool p)
  unfolding on_result
  at_handler-used result none p s = absurd (respond-not_StartsIn _ p s)
  at_handler-used result (some place) p (r, e) = cc

  at_dispatch-Keeps :
      (k : ℕ) (a : App Object) (method : Text) (params : List Value) (g : Target host)
      → Keeps a (at_dispatch host (run_target host k a method params g))
  at_dispatch-Keeps k a method params g = record {
    fields = run_target-IsAppOf k a method params g;
    tidy = run_target-IsTidy host k a method params g;
    kept = executor_kept host k a method params g;
    used = λ p s. executor_used host k a method params g p (at_handler-used _ _ p s);
  }

  on_call-Keeps :
      (k : ℕ) (a : App Object) (call : Outcome (Call Value)) → Keeps a (on_call host k a call)
  unfolding on_call async_dispatch
  on_call-Keeps k a (value request) =
      at_dispatch-Keeps k a (method_name host request.method) request.params (target host a _)
  on_call-Keeps k a (fault c m) = Keeps-self a _ (respond-not_StartsIn _)
  on_call-Keeps k a (exception n m) = Keeps-self a _ (respond-not_StartsIn _)

  on_body-Keeps : (k : ℕ) (a : App Object) (body : Bytes) → Keeps a (on_body host k a body)
  unfolding on_body
  on_body-Keeps k a body = elim (Bool-cases (ltb_ℤ a.max_request_size (pos (length body)))) [
    | inl large ↦ rw (large, on_body) (Keeps-self a _ (sending-not_StartsIn payload_too_large))
    | inr fits ↦ rw (fits, on_body) (on_call-Keeps k a (host.loads body))
  ]

  pub on_event-Keeps :
      (k : ℕ) (a : App Object) (chunks : List Bytes) (e : Event)
      → Keeps a (on_event host k a chunks e)
  unfolding on_event
  on_event-Keeps k a chunks e = elim (Bool-cases (has_more e)) [
    | inl more ↦ rw (more, on_event) (Keeps-self a _ (receiving-not_StartsIn _))
    | inr last ↦ rw (last, on_event) (on_body-Keeps k a (join (append_chunk chunks (body_chunk e))))
  ]
