-- ===== src/Asgi/Host.antt =====
-- What the application uses and does not implement: the registered objects, and `xmlrpc.client`.
use xmlrpc_extended.Prelude.{ℕ, Bool, List, Option}
use xmlrpc_extended.Prelude.Int.{ℤ}
use xmlrpc_extended.Python.Text.{Text, Bytes}

-- How a call ends: with a value, by `xmlrpc.client.Fault`, or by another `Exception`, of which the
-- name of its class and its text are kept.
pub data Outcome {ℓ} (A : Type ℓ) : Type ℓ where
  value : A → Outcome A
  fault : (code : ℤ) (message : Text) → Outcome A
  exception : (name message : Text) → Outcome A

-- A call of XML-RPC: its parameters and the name of its method, which may be missing.
pub record Call {ℓ} (Value : Type ℓ) : Type ℓ where
  pub params : List Value
  pub method : Option Text

pub record Host : Type 1 where
  pub Value : Type 0
  pub Object : Type 0
  -- `getattr`; `none` is `AttributeError`.
  pub getattr : Object → Text → Option Object
  pub is_none : Object → Bool
  -- `inspect.iscoroutinefunction`
  pub is_coroutine : Object → Bool
  -- `f(*params)`, awaited where `f` is a coroutine function. A request calls at most one function;
  -- how the call ends may be another thing for each request, by its number, as it is where a
  -- function keeps a state, or depends on the time or on other threads.
  pub call : (request : ℕ) → Object → List Value → Outcome Value
  -- `dispatch_fn(method, params)`, awaited in the same way.
  pub call_dispatch : (request : ℕ) → Object → Text → List Value → Outcome Value
  -- `xmlrpc.client.loads`; the text is that of the exception.
  pub loads : Bytes → Outcome (Call Value)
  pub exception_text : Outcome (Call Value) → Text
  -- `xmlrpc.client.dumps` of a result, and of a fault.
  pub dumps_response : Value → Outcome Text
  pub dumps_fault : ℤ → Text → Outcome Text
  -- `.encode(encoding, "xmlcharrefreplace")`
  pub encode : Text → Bytes
