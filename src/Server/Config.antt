-- ===== src/Server/Config.antt =====
-- server.py: `ServerOverloadPolicy`, `XMLRPCServerConfig`, and the argument checks of
-- `ThreadPoolXMLRPCServer.__init__`. Python's integers are ℤ, its floats are `Float`.
pub mod Laws
mod Tests
use xmlrpc_extended.Prelude.{Bool, true, false, Option, none, some, if◌then◌else◌}
use xmlrpc_extended.Prelude.Int.{ℤ, pos, negsuc, ◌+ℤ◌, ltb_ℤ}
use xmlrpc_extended.Python.Float.{Float, le_zero}
use xmlrpc_extended.Python.Text.{Text, codes, text_eq}

pub data ServerOverloadPolicy : Type 0 where
  block close fault http_503 : ServerOverloadPolicy

-- The member's string.
unfoldable pub value : ServerOverloadPolicy → Text
value block = codes "block"
value close = codes "close"
value fault = codes "fault"
value http_503 = codes "http_503"

-- What a caller may pass as `overload_policy`.
pub data PolicyArg : Type 0 where
  member : ServerOverloadPolicy → PolicyArg
  text : Text → PolicyArg

pub data ValueError : Type 0 where
  invalid_policy max_workers_low max_pending_low request_queue_size_low : ValueError
  max_request_size_low connection_timeout_low : ValueError

-- What a call of the constructor comes to.
pub data Result {ℓ} (A : Type ℓ) : Type ℓ where
  raised : ValueError → Result A
  ok : A → Result A

infixl 5 ◌>>◌ ◌>>=◌
abbrev pub ◌>>◌ {ℓ} : {B : Type ℓ} → Result (Unit {0}) → Result B → Result B
raised e >> rest = raised e
ok _ >> rest = rest

abbrev pub ◌>>=◌ {ℓ κ} : {A : Type ℓ} {B : Type κ} → Result A → (A → Result B) → Result B
raised e >>= rest = raised e
ok a >>= rest = rest a

-- `if test: raise ValueError(...)`
abbrev pub raise_if : Bool → ValueError → Result (Unit {0})
raise_if true e = raised e
raise_if false e = ok tt

-- `ServerOverloadPolicy(x)`: a member is itself, a string is looked up among the values.
unfoldable pub to_policy : PolicyArg → Result ServerOverloadPolicy
unfolding value text_eq
to_policy (member p) = ok p
to_policy (text s) =
    if text_eq s (value block)
    then ok block
    else if text_eq s (value close)
    then ok close
    else if text_eq s (value fault)
    then ok fault
    else if text_eq s (value http_503)
    then ok http_503
    else raised invalid_policy

pub record XmlrpcServerConfig : Type 0 where
  pub max_workers : ℤ
  pub max_pending : Option ℤ
  pub request_queue_size : ℤ
  pub overload_policy : ServerOverloadPolicy
  pub max_request_size : ℤ
  pub overload_fault_code : ℤ
  pub overload_fault_string : Text
  pub connection_timeout : Option Float

abbrev pub default_config : XmlrpcServerConfig
default_config = record {
  max_workers = pos 8;
  max_pending = none;
  request_queue_size = pos 64;
  overload_policy = block;
  max_request_size = pos 1_048_576;
  overload_fault_code = negsuc 32_499;
  overload_fault_string = codes "Server overloaded";
  connection_timeout = none;
}

-- The keyword-only arguments of `__init__`, but for `rpc_paths`.
pub record Args : Type 0 where
  pub max_workers : ℤ
  pub max_pending : Option ℤ
  pub request_queue_size : ℤ
  pub overload_policy : PolicyArg
  pub max_request_size : ℤ
  pub overload_fault_code : ℤ
  pub overload_fault_string : Text
  pub connection_timeout : Option Float

abbrev pub default_args : Args
default_args = record {
  max_workers = default_config.max_workers;
  max_pending = default_config.max_pending;
  request_queue_size = default_config.request_queue_size;
  overload_policy = member block;
  max_request_size = default_config.max_request_size;
  overload_fault_code = default_config.overload_fault_code;
  overload_fault_string = default_config.overload_fault_string;
  connection_timeout = none;
}

abbrev pub or_else : Option ℤ → ℤ → ℤ
or_else none d = d
or_else (some n) d = n

-- `max_workers if max_pending is None else max_pending`
abbrev pub effective_pending : Args → ℤ
effective_pending a = or_else a.max_pending a.max_workers

abbrev pub total_capacity : Args → ℤ
total_capacity a = a.max_workers +ℤ effective_pending a

unfoldable pub timeout_low : Option Float → Bool
unfolding le_zero
timeout_low none = false
timeout_low (some t) = le_zero t

-- The checks, in the source's order, and the configuration that is kept. The second part is the
-- value that the semaphore starts with.
unfoldable pub configure : Args → Result (XmlrpcServerConfig × ℤ)
unfolding to_policy timeout_low ◌+ℤ◌
configure a = do
  normalized_policy ← to_policy a.overload_policy
  raise_if (ltb_ℤ a.max_workers (pos 1)) max_workers_low
  raise_if (ltb_ℤ (effective_pending a) (pos 0)) max_pending_low
  raise_if (ltb_ℤ a.request_queue_size (pos 1)) request_queue_size_low
  raise_if (ltb_ℤ a.max_request_size (pos 1)) max_request_size_low
  raise_if (timeout_low a.connection_timeout) connection_timeout_low
  ok (
    record {
      max_workers = a.max_workers;
      max_pending = some (effective_pending a);
      request_queue_size = a.request_queue_size;
      overload_policy = normalized_policy;
      max_request_size = a.max_request_size;
      overload_fault_code = a.overload_fault_code;
      overload_fault_string = a.overload_fault_string;
      connection_timeout = a.connection_timeout;
    },
    total_capacity a,
  )
