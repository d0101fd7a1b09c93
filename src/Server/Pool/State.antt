-- ===== src/Server/Pool/State.antt =====
-- The fields of the server that its threads share, and the calls that they make on them.
use xmlrpc_extended.Prelude.{
  ℕ, ◌+◌, ◌-◌, Bool, true, false, List, [], ◌∷◌, ◌++◌, Option, none, some, ◌==◌, if◌then◌else◌,
}
use xmlrpc_extended.Server.Config.{
  ServerOverloadPolicy, block, close, fault, http_503, XmlrpcServerConfig,
}
use xmlrpc_extended.Server.Stats.{ServerStats, StatsTracker, new_tracker, snapshot}

-- A connection, by the number of its `accept()`.
abbrev pub Connection : Type 0
Connection = ℕ

-- How a call ends: it returns, raises an `Exception`, or raises something else
-- (`SystemExit`, `KeyboardInterrupt`).
pub data Outcome : Type 0 where
  returns raises exits : Outcome

-- The calls whose effect is outside the server's own fields.
pub data Io : Type 0 where
  settimeout finish_request shutdown_request handle_error : Connection → Io
  send_fault_response send_503_response : Connection → Io
  close_socket : Io

-- `ThreadPoolExecutor`: its work queue, oldest first, and `_shutdown`.
pub record Executor : Type 0 where
  pub work_queue : List Connection
  pub is_shutdown : Bool

-- What has happened, for the statements; no method reads it. The end of a shutdown that waits
-- depends on whether a thread failed to start.
pub record History : Type 0 where
  pub opened : ℕ  -- connections handed to `process_request`
  pub aborted : ℕ  -- connections whose `settimeout` raised
  pub refused : ℕ  -- connections that `submit` refused after a shutdown
  pub unstarted : ℕ  -- `submit` queued the connection, then could not start a thread and raised
  pub escaped : ℕ  -- workers that left by an exception that their handler did not record
  pub enqueued : List Connection
  pub picked : List Connection
  pub joined : Bool  -- a shutdown with `wait=True` has come back from `_executor.shutdown`
  pub io : List Io  -- newest first

pub record Server : Type 0 where
  pub config : XmlrpcServerConfig
  pub capacity : ℕ  -- the value of the semaphore `_capacity`
  pub executor : Executor
  pub executor_closed : Bool
  pub stats : StatsTracker
  pub history : History

abbrev pub new_history : History
new_history = record {
  opened = 0;
  aborted = 0;
  refused = 0;
  unstarted = 0;
  escaped = 0;
  enqueued = [];
  picked = [];
  joined = false;
  io = [];
}

-- The fields that `__init__` sets, with the checked configuration and the semaphore's first value.
abbrev pub new_server : XmlrpcServerConfig → ℕ → Server
new_server c total = record {
  config = c;
  capacity = total;
  executor = record { work_queue = []; is_shutdown = false };
  executor_closed = false;
  stats = new_tracker;
  history = new_history;
}

abbrev pub call : Io → Server → Server
call c s = record s { history = record s.history { io = c ∷ s.history.io } }

-- The method `stats()`, which any thread may call.
unfoldable pub stats : Server → ServerStats
unfolding snapshot
stats s = snapshot s.stats

-- `_capacity.release()`
unfoldable pub release : Server → Server
release s = record s { capacity = s.capacity + 1 }

-- `_capacity.acquire(blocking=False)`
unfoldable pub try_acquire : Server → Bool × Server
try_acquire s =
    if s.capacity == 0 then (false, s) else (true, record s { capacity = s.capacity - 1 })

-- `policy is ServerOverloadPolicy.BLOCK`
abbrev pub is_block : ServerOverloadPolicy → Bool
is_block block = true
is_block close = false
is_block fault = false
is_block http_503 = false

-- `_acquire_capacity`; `none` means that the call waits.
unfoldable pub acquire_capacity : Server → Option (Bool × Server)
unfolding try_acquire
acquire_capacity s =
    if is_block s.config.overload_policy
    then (if s.capacity == 0 then none else some (try_acquire s))
    else some (try_acquire s)

-- `_executor.submit` once the pool is open: the connection joins the queue.
abbrev pub enqueue : Connection → Server → Server
enqueue r s = record s {
  executor = record s.executor { work_queue = s.executor.work_queue ++ r ∷ [] };
  history = record s.history { enqueued = s.history.enqueued ++ r ∷ [] };
}
