-- ===== src/Asgi/Dispatch.antt =====
-- `_async_dispatch` and `_async_marshaled_dispatch`.
pub mod Names
pub mod Laws
pub mod Runs
pub mod Replies
use xmlrpc_extended.Prelude.{
  ℕ, Bool, true, false, List, [], ◌∷◌, ◌++◌, Option, none, some, if◌then◌else◌, ◌==◌,
}
use xmlrpc_extended.Prelude.Int.{pos, negsuc}
use xmlrpc_extended.Python.Text.{Text, Bytes, codes, text_eq}
use xmlrpc_extended.Asgi.Host.{Outcome, value, fault, exception, Call, Host}
use xmlrpc_extended.Asgi.App.{App, get_executor}

-- Where a function runs: in the event loop, in a pool of the application, or in the default pool of
-- `asyncio.to_thread`.
pub data Place : Type 0 where
  event_loop : Place
  in_pool : ℕ → Place
  default_pool : Place

-- `self.funcs.get(method)`
unfoldable pub find {ℓ} : {A : Type ℓ} → Text → List (Text × A) → Option A
unfolding text_eq
find method [] = none
find method ((name, f) ∷ rest) = if text_eq name method then some f else find method rest

-- `attr.split(".")`
unfoldable pub onto_first : ℕ → List Text → List Text
onto_first c [] = (c ∷ []) ∷ []
onto_first c (part ∷ parts) = (c ∷ part) ∷ parts

unfoldable pub split_dots : Text → List Text
unfolding onto_first
split_dots [] = [] ∷ []
split_dots (c ∷ s) =
    let parts = split_dots s in if c == b'.' then [] ∷ parts else onto_first c parts

-- `i.startswith("_")`
abbrev pub is_private : Text → Bool
is_private [] = false
is_private (c ∷ s) = c == b'_'

module _ (host : Host) where
  open host use {Value, Object}

  -- The walk of `resolve_dotted_attribute`; `none` is `AttributeError`.
  unfoldable pub walk : Object → List Text → Option Object
  walk object [] = some object
  walk object (name ∷ names) =
      if is_private name
      then none
      else (elim (host.getattr object name) [ none ↦ none | some inner ↦ walk inner names ])

  unfoldable pub resolve_dotted_attribute : Object → Text → Bool → Option Object
  unfolding walk split_dots
  resolve_dotted_attribute object method allow_dotted =
      walk object (if allow_dotted then split_dots method else method ∷ [])

  -- What is to be called.
  pub data Target : Type 0 where
    function : Object → Target
    hook : Object → Target
    unsupported : Target

  -- `if func is None`
  abbrev pub unless_none : Object → Target
  unless_none f = if host.is_none f then unsupported else function f

  abbrev pub resolved : Option Object → Target
  resolved none = unsupported
  resolved (some f) = unless_none f

  -- A hook is an attribute `_dispatch`.
  abbrev pub from_hook : App Object → Object → Text → Option Object → Target
  from_hook a object method (some dispatch_fn) = hook dispatch_fn
  from_hook a object method none =
      resolved (resolve_dotted_attribute object method a.allow_dotted_names)

  abbrev pub from_instance : App Object → Text → Option Object → Target
  from_instance a method none = unsupported
  from_instance a method (some object) =
      from_hook a object method (host.getattr object (codes "_dispatch"))

  -- `if func is None`, for a function of the registry.
  abbrev pub from_funcs : App Object → Text → Option Object → Target
  from_funcs a method (some f) =
      if host.is_none f then from_instance a method a.instance_object else function f
  from_funcs a method none = from_instance a method a.instance_object

  -- The first half of `_async_dispatch`: what the method's name stands for.
  unfoldable pub target : App Object → Text → Target
  unfolding find
  target a method = from_funcs a method (find method a.funcs)

  abbrev pub unsupported_fault : Text → Outcome Value
  unsupported_fault method =
      fault (negsuc 32_600) (codes "Method \"" ++ (method ++ codes "\" is not supported"))

  pub record Dispatched : Type 0 where
    pub app : App Object
    pub place : Option Place
    pub outcome : Outcome Value

  -- The calls of the request with the number `k`.
  abbrev pub run_function : ℕ → App Object → Object → List Value → Bool → Dispatched
  run_function k a f params true = record {
    app = a;
    place = some event_loop;
    outcome = host.call k f params;
  }
  run_function k a f params false =
      let (executor, a') = get_executor a in
      record { app = a'; place = some (in_pool executor); outcome = host.call k f params }

  abbrev pub run_hook : ℕ → App Object → Object → Text → List Value → Bool → Dispatched
  run_hook k a f method params is_async = record {
    app = a;
    place = some (if is_async then event_loop else default_pool);
    outcome = host.call_dispatch k f method params;
  }

  abbrev pub run_target : ℕ → App Object → Text → List Value → Target → Dispatched
  run_target k a method params (function f) = run_function k a f params (host.is_coroutine f)
  run_target k a method params (hook f) = run_hook k a f method params (host.is_coroutine f)
  run_target k a method params unsupported = record {
    app = a;
    place = none;
    outcome = unsupported_fault method;
  }

  unfoldable pub async_dispatch : ℕ → App Object → Text → List Value → Dispatched
  unfolding target
  async_dispatch k a method params = run_target k a method params (target a method)

  -- `.encode(...)` of what `dumps` returns; what `dumps` raises goes on.
  abbrev pub encoded : Outcome Text → Outcome Bytes
  encoded (value response) = value (host.encode response)
  encoded (fault c m) = fault c m
  encoded (exception n m) = exception n m

  -- The two `except` clauses.
  abbrev pub answer_fault : Outcome Text → Outcome Text
  answer_fault (value response) = value response
  answer_fault (fault c m) = host.dumps_fault c m
  answer_fault (exception n m) = host.dumps_fault (pos 1) (n ++ (codes ": " ++ m))

  abbrev pub marshal : Outcome Value → Outcome Text
  marshal (value result) = host.dumps_response result
  marshal (fault c m) = fault c m
  marshal (exception n m) = exception n m

  -- `str(method)`
  abbrev pub method_name : Option Text → Text
  method_name none = codes "None"
  method_name (some m) = m

  abbrev pub marshaled : ℕ → App Object → Outcome (Call Value) → App Object × Outcome Bytes
  marshaled k a (value request) =
      let d = async_dispatch k a (method_name request.method) request.params in
      (d.app, encoded (answer_fault (marshal d.outcome)))
  marshaled k a failed = (
    a,
    encoded
        (host.dumps_fault (negsuc 32_699) (codes "Parse error: " ++ host.exception_text failed)),
  )

  unfoldable pub async_marshaled_dispatch : ℕ → App Object → Bytes → App Object × Outcome Bytes
  unfolding async_dispatch
  async_marshaled_dispatch k a body = marshaled k a (host.loads body)
