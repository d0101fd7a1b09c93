-- ===== src/Asgi/Dispatch/Runs.antt =====
-- Where the calls run, and what is replied: `_async_dispatch` and `_async_marshaled_dispatch`.
use xmlrpc_extended.Prelude.{
  ℕ, ◌≡◌, refl, sym, ap, ◌∙◌, Bool, true, false, List, [], ◌∷◌, Option, none, some, arith,
  if◌then◌else◌, ◌≢◌,
}
use mathlib.Core.Option.{some-injective}
use xmlrpc_extended.Python.Text.{Text}
use xmlrpc_extended.Asgi.Host.{Host}
use xmlrpc_extended.Asgi.App.{App, executor_or_made, get_executor, make_executor}
use xmlrpc_extended.Asgi.App.Laws.{IsTidy, owned, get_executor-IsTidy}
use xmlrpc_extended.Asgi.Dispatch.{
  Place, event_loop, in_pool, default_pool, Target, function, hook, unsupported, target, run_target,
  run_function, async_dispatch,
}

module _ (host : Host) where
  open host use {Value, Object}

  some_place : (x y : Place) → ◌≡◌ {A = Option Place} (some x) (some y) → x ≡ y
  some_place x y e = some-injective _ _ e

  in_pool-injective : (p q : ℕ) → in_pool p ≡ in_pool q → p ≡ q
  in_pool-injective p q e = cc

  from_executor :
      (e : Option ℕ) (a : App Object)
      → a.executor ≡ e
      → (executor_or_made e a).1.executor ≡ some (executor_or_made e a).0
  unfolding executor_or_made make_executor
  from_executor none a h = refl
  from_executor (some p) a h = h

  function_place :
      (k : ℕ) (a : App Object) (f : Object) (params : List Value) (is_async : Bool) (p : ℕ)
      → (run_function host k a f params is_async).place ≡ some (in_pool p)
      → (run_function host k a f params is_async).app.executor ≡ some p
  unfolding get_executor
  function_place k a f params true p h = absurd (ground arith)
  function_place k a f params false p h =
      from_executor a.executor a refl ∙ ap some (in_pool-injective _ _ (some_place _ _ h))

  hook_place :
      (is_async : Bool) (p : ℕ) → (if is_async then event_loop else default_pool) ≢ in_pool p
  hook_place true p h = ground arith
  hook_place false p h = ground arith

  -- A call in a pool `p` runs in the executor, which is kept afterwards.
  pub executor_used :
      (k : ℕ) (a : App Object) (method : Text) (params : List Value) (t : Target host) (p : ℕ)
      → (run_target host k a method params t).place ≡ some (in_pool p)
      → (run_target host k a method params t).app.executor ≡ some p
  executor_used k a method params (function f) p h = function_place k a f params _ p h
  executor_used k a method params (hook f) p h = absurd (hook_place _ p (some_place _ _ h))
  executor_used k a method params unsupported p h = absurd (ground arith)

  run_function-IsTidy :
      (k : ℕ) (a : App Object) (f : Object) (params : List Value) (is_async : Bool)
      → IsTidy a
      → IsTidy (run_function host k a f params is_async).app
  run_function-IsTidy k a f params true t = t
  run_function-IsTidy k a f params false t = get_executor-IsTidy a t

  pub run_target-IsTidy :
      (k : ℕ) (a : App Object) (method : Text) (params : List Value) (g : Target host)
      → IsTidy a
      → IsTidy (run_target host k a method params g).app
  run_target-IsTidy k a method params (function f) t = run_function-IsTidy k a f params _ t
  run_target-IsTidy k a method params (hook f) t = t
  run_target-IsTidy k a method params unsupported t = t

  executor_kept_function :
      (k : ℕ) (a : App Object) (f : Object) (params : List Value) (is_async : Bool) (p : ℕ)
      → a.executor ≡ some p
      → (run_function host k a f params is_async).app ≡ a
  unfolding get_executor executor_or_made
  executor_kept_function k a f params true p h = refl
  executor_kept_function k a f params false p h = rw h refl

  pub executor_kept :
      (k : ℕ) (a : App Object) (method : Text) (params : List Value) (g : Target host) (p : ℕ)
      → a.executor ≡ some p
      → (run_target host k a method params g).app ≡ a
  executor_kept k a method params (function f) p h = executor_kept_function k a f params _ p h
  executor_kept k a method params (hook f) p h = refl
  executor_kept k a method params unsupported p h = refl

  -- Calls one after another, with their methods and parameters.
  unfoldable pub dispatch_all : List (ℕ × Text × List Value) → App Object → App Object
  dispatch_all [] a = a
  dispatch_all ((k, method, params) ∷ calls) a =
      dispatch_all calls (async_dispatch host k a method params).app

  dispatch_all-executor :
      (calls : List (ℕ × Text × List Value)) (a : App Object) (p : ℕ)
      → a.executor ≡ some p
      → dispatch_all calls a ≡ a
  unfolding dispatch_all async_dispatch
  dispatch_all-executor [] a p h = refl
  dispatch_all-executor ((k, method, params) ∷ calls) a p h =
      ap (dispatch_all calls) (executor_kept k a method params (target host a method) p h)
      ∙ dispatch_all-executor calls a p h

  -- From an application whose live pools are its own executor at most: the calls of sync functions
  -- all run in one pool. It is the only pool that is live after such a call, and a later call,
  -- whatever calls are between, does not run in another pool of the application.
  pub one_pool :
      (k j : ℕ) (a : App Object) (method : Text) (params : List Value)
      (calls : List (ℕ × Text × List Value)) (method' : Text) (params' : List Value) (p q : ℕ)
      → IsTidy a
      → (async_dispatch host k a method params).place ≡ some (in_pool p)
      → (async_dispatch host j
          (dispatch_all calls (async_dispatch host k a method params).app)
          method'
          params').place
        ≡ some (in_pool q)
      → (p ≡ q) × ((async_dispatch host k a method params).app.pools.live ≡ p ∷ [])
  unfolding async_dispatch
  one_pool k j a method params calls method' params' p q t hp hq =
      let used = executor_used k a method params (target host a method) p hp in
      let tidy = run_target-IsTidy k a method params (target host a method) t in
      let same = dispatch_all-executor calls _ p used in
      let used' = executor_used j _ method' params' _ q hq in
      let kept =
        executor_kept j _ method' params'
          (target host (dispatch_all calls (async_dispatch host k a method params).app) method') p
          (ap (λ x. x.executor) same ∙ used) in
      (
        some-injective _ _
            (sym used ∙ ap (λ x. x.executor) (sym same) ∙ ap (λ x. x.executor) (sym kept) ∙ used'),
        tidy.live ∙ ap owned used,
      )
