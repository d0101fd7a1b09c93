-- ===== src/Asgi/App.antt =====
-- The fields of the application, and its executor: `__init__`, `_get_executor`, `close`.
pub mod Laws
use xmlrpc_extended.Prelude.{
  ℕ, suc, Bool, false, List, [], ◌∷◌, Option, none, some, ◌==◌, if◌then◌else◌,
}
use xmlrpc_extended.Prelude.Int.{ℤ, pos, ltb_ℤ}
use xmlrpc_extended.Python.Text.{Text}

-- The thread pools of the process: how many were made, and those that are not shut down.
pub record Pools : Type 0 where
  pub made : ℕ
  pub live : List ℕ

unfoldable pub remove : ℕ → List ℕ → List ℕ
remove p [] = []
remove p (q ∷ qs) = if p == q then remove p qs else q ∷ remove p qs

pub record App (Object : Type 0) : Type 0 where
  pub max_request_size : ℤ
  pub rpc_path : Text
  pub max_workers : ℤ
  pub executor : Option ℕ
  -- the registry of `SimpleXMLRPCDispatcher`
  pub funcs : List (Text × Object)
  pub instance_object : Option Object
  pub allow_dotted_names : Bool
  pub pools : Pools

pub data InitError : Type 0 where
  max_workers_low max_request_size_low : InitError

pub data Init (Object : Type 0) : Type 0 where
  made : App Object → Init Object
  refused : InitError → Init Object

module _ {Object : Type 0} where
  -- `__init__`
  unfoldable pub init : (max_workers max_request_size : ℤ) → Text → Pools → Init Object
  init max_workers max_request_size rpc_path pools =
      if ltb_ℤ max_workers (pos 1)
      then refused max_workers_low
      else if ltb_ℤ max_request_size (pos 1)
      then refused max_request_size_low
      else made (record {
        max_request_size = max_request_size;
        rpc_path = rpc_path;
        max_workers = max_workers;
        executor = none;
        funcs = [];
        instance_object = none;
        allow_dotted_names = false;
        pools = pools;
      })

  -- `self._executor = ThreadPoolExecutor(...)`
  unfoldable pub make_executor : App Object → App Object
  make_executor a = record a {
    executor = some a.pools.made;
    pools = record { made = suc a.pools.made; live = a.pools.made ∷ a.pools.live };
  }

  unfoldable pub executor_or_made : Option ℕ → App Object → ℕ × App Object
  unfolding make_executor
  executor_or_made none a = (a.pools.made, make_executor a)
  executor_or_made (some p) a = (p, a)

  -- `_get_executor`
  unfoldable pub get_executor : App Object → ℕ × App Object
  unfolding executor_or_made
  get_executor a = executor_or_made a.executor a

  unfoldable pub shut : Option ℕ → App Object → App Object
  unfolding remove
  shut none a = a
  shut (some p) a = record a {
    executor = none;
    pools = record a.pools { live = remove p a.pools.live };
  }

  -- `close`
  unfoldable pub close : App Object → App Object
  unfolding shut
  close a = shut a.executor a
