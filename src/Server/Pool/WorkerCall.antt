-- ===== src/Server/Pool/WorkerCall.antt =====
-- One whole call of `_process_request_worker`, and what it has done then.
pub mod Laws
use xmlrpc_extended.Prelude.{ℕ, ◌+◌, ◌<◌, ◌≡◌, ◌≢◌, ◌⊎◌, Bool, true, false, Option}
use xmlrpc_extended.Server.Stats.{record_started, record_completed, record_errored}
use xmlrpc_extended.Server.Pool.State.{Connection, Outcome, returns, raises, exits, Server}
use xmlrpc_extended.Server.Pool.Worker.{WorkerPc, idle, worker_step}
use xmlrpc_extended.Server.Pool.Calls.{closes, run_call}

abbrev pub is_idle : WorkerPc → Bool
is_idle idle = true
is_idle _ = false

-- The call from a statement to its end, of at most `fuel` statements.
abbrev pub process_request_worker :
    ℕ → (ℕ → Outcome) → Server → WorkerPc → Option (Server × WorkerPc)
process_request_worker = run_call worker_step is_idle

-- How the `try` ends, by the outcomes of its two calls.
abbrev pub try_outcome : (finish shutdown : Outcome) → Outcome
try_outcome returns shutdown = shutdown
try_outcome raises shutdown = raises
try_outcome exits shutdown = exits

-- How the `except` ends, by the outcomes of the call in the `try` that comes first, and of the three
-- that come next: where the first one failed, the two behind it are the calls of the `except`.
abbrev pub except_outcome : (finish second third fourth : Outcome) → Outcome
except_outcome returns second third fourth = try_outcome third fourth
except_outcome _ second third fourth = try_outcome second third

-- How the request was counted, where the `try` ends by `tried` and the `except` by `excepted`. An
-- exception that gets out, of the `try` or of the `except`, leaves it among the active ones, and
-- says nothing of its connection.
pub data Count (tried excepted : Outcome) (k : Connection) (s t : Server) : Type 0 where
  completed :
      tried ≡ returns
      → t.stats ≡ record_completed (record_started s.stats)
      → t.history.escaped ≡ s.history.escaped
      → closes k s.history.io < closes k t.history.io
      → Count tried excepted k s t
  errored :
      tried ≡ raises
      → excepted ≡ returns
      → t.stats ≡ record_errored (record_started s.stats)
      → t.history.escaped ≡ s.history.escaped
      → closes k s.history.io < closes k t.history.io
      → Count tried excepted k s t
  escaped :
      (tried ≡ exits) ⊎ ((tried ≡ raises) × (excepted ≢ returns))
      → t.stats ≡ record_started s.stats
      → t.history.escaped ≡ s.history.escaped + 1
      → Count tried excepted k s t

pub record IsDone (tried excepted : Outcome) (k : Connection) (s t : Server) : Type 0 where
  pub capacity : t.capacity ≡ s.capacity + 1
  pub executor : t.executor ≡ s.executor
  pub count : Count tried excepted k s t
