-- ===== src/Server/Init.antt =====
-- server.py: `ThreadPoolXMLRPCServer.__init__` as a whole, from its arguments to a server that can
-- be run, or to an exception and what is left behind.
pub mod Laws
mod Tests
use xmlrpc_extended.Prelude.{ℕ, zero, suc, Bool, true, false, List, Option, none, some}
use xmlrpc_extended.Prelude.Int.{ℤ, pos, negsuc}
use xmlrpc_extended.Python.Text.{Text}
use xmlrpc_extended.Server.Config.{
  XmlrpcServerConfig, Args, ValueError, Result, raised, ok, configure,
}
use xmlrpc_extended.Server.HandlerClass.{HandlerClass, build_request_handler}
use xmlrpc_extended.Server.Pool.State.{Server, new_server}
use xmlrpc_extended.Server.Pool.Close.{ClosePc, entering, close_step}

-- How `SimpleXMLRPCServer.__init__` ends. It may raise before there is a socket to close, or when it
-- binds the socket or listens; then it calls `server_close()` before it raises again. What it raises
-- is an `Exception` or not.
pub data BaseInit : Type 0 where
  returned : BaseInit
  raised_early raised_at_bind : (is_exception : Bool) → BaseInit

-- A caller's statements one after another, with no request at work.
unfoldable pub run_close : ℕ → Server → ClosePc → Server
unfolding close_step
run_close zero s p = s
run_close (suc fuel) s p = elim (close_step true s p) [
  | none ↦ s
  | some (t, q) ↦ run_close fuel t q
]

-- The four statements of `shutdown_executor`.
unfoldable pub shutdown_executor : (wait : Bool) → Server → Server
unfolding run_close
shutdown_executor wait s = run_close 4 s (entering wait false)

unfoldable pub server_close : Server → Server
unfolding run_close
server_close s = run_close 4 s (entering true true)

-- What `__init__` comes to: an error of its checks, a `TypeError` of `type(...)`, an exception of
-- the base class with the server that is left behind, or a server with its handler class.
pub data Construction : Type 0 where
  refused : ValueError → Construction
  semaphore_error : Construction
  type_error : Server → Construction
  failed : Server → Construction
  constructed : Server → HandlerClass → Construction

-- `except Exception: self.shutdown_executor(wait=False); raise`
abbrev pub on_exception : Bool → Server → Server
on_exception true s = shutdown_executor false s
on_exception false s = s

unfoldable pub base_init : BaseInit → Server → HandlerClass → Construction
unfolding shutdown_executor server_close
base_init returned s handler = constructed s handler
base_init (raised_early is_exception) s handler = failed (on_exception is_exception s)
base_init (raised_at_bind is_exception) s handler =
    failed (on_exception is_exception (server_close s))

abbrev pub with_handler : BaseInit → Server → Option HandlerClass → Construction
with_handler base s none = type_error s
with_handler base s (some handler) = base_init base s handler

-- `threading.Semaphore(total_capacity)` refuses a negative value.
abbrev pub with_semaphore : (ℕ → Construction) → ℤ → Construction
with_semaphore rest (pos n) = rest n
with_semaphore rest (negsuc n) = semaphore_error

abbrev pub with_config :
    BaseInit → (ℤ → Option HandlerClass) → Result (XmlrpcServerConfig × ℤ) → Construction
with_config base build (raised e) = refused e
with_config base build (ok (c, total)) =
    with_semaphore (λ n. with_handler base (new_server c n) (build c.max_request_size)) total

-- `__init__` with the handler class `handler` and `rpc_paths`; `id` is the new class's identity, and
-- `simple` the order of the library's handler class.
unfoldable pub construct :
    (simple : HandlerClass) (id : ℕ)
    → Args
    → HandlerClass
    → Option (List Text)
    → BaseInit
    → Construction
unfolding configure build_request_handler base_init
construct simple id a handler given base =
    with_config base (λ limit. build_request_handler simple id handler limit given) (configure a)
