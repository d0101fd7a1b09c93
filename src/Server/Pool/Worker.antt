-- ===== src/Server/Pool/Worker.antt =====
-- server.py: `_process_request_worker`, run by a thread of the executor.
use xmlrpc_extended.Prelude.{◌+◌, List, [], ◌∷◌, ◌++◌, Option, none, some}
use xmlrpc_extended.Server.Stats.{record_started, record_completed, record_errored}
use xmlrpc_extended.Server.Pool.State.{
  Connection, Outcome, returns, raises, exits, finish_request, shutdown_request, handle_error,
  Server, call, release,
}

-- The statement that a worker is about to execute.
pub data WorkerPc : Type 0 where
  idle : WorkerPc
  picked : Connection → WorkerPc  -- `_stats.record_started()`
  started : Connection → WorkerPc  -- `finish_request`
  served : Connection → WorkerPc  -- `shutdown_request` of the `try`
  finished : Connection → WorkerPc  -- `_stats.record_completed()`
  caught : Connection → WorkerPc  -- `handle_error` of the `except Exception`
  handled : Connection → WorkerPc  -- `shutdown_request` of the `except`
  failed : Connection → WorkerPc  -- `_stats.record_errored()`
  leaving : Connection → WorkerPc  -- `_capacity.release()` of the `finally`

-- The executor hands the oldest connection of its queue to an idle thread.
pick : List Connection → Server → Option (Server × WorkerPc)
pick [] s = none
pick (r ∷ rest) s = some (
  record s {
    executor = record s.executor { work_queue = rest };
    history = record s.history { picked = s.history.picked ++ r ∷ [] };
  },
  picked r,
)

-- The exception goes on past the `except`, and no counter is recorded.
unfoldable pub escape : Connection → Server → Server × WorkerPc
escape r s =
    (record s { history = record s.history { escaped = s.history.escaped + 1 } }, leaving r)

-- A call in the `try`: an `Exception` is caught, another one is not.
unfoldable pub in_try : Outcome → Connection → WorkerPc → Server → Server × WorkerPc
in_try returns r next s = (s, next)
in_try raises r next s = (s, caught r)
in_try exits r next s = escape r s

-- A call in the `except`: what it raises leaves the method.
unfoldable pub in_except : Outcome → Connection → WorkerPc → Server → Server × WorkerPc
in_except returns r next s = (s, next)
in_except raises r next s = escape r s
in_except exits r next s = escape r s

-- One statement of a worker; `none` means that it waits for work.
unfoldable pub worker_step : Outcome → Server → WorkerPc → Option (Server × WorkerPc)
unfolding pick escape in_try in_except record_started record_completed record_errored release
worker_step o s idle = pick s.executor.work_queue s
worker_step o s (picked r) = some (record s { stats = record_started s.stats }, started r)
worker_step o s (started r) = some (in_try o r (served r) (call (finish_request r) s))
worker_step o s (served r) = some (in_try o r (finished r) (call (shutdown_request r) s))
worker_step o s (finished r) = some (record s { stats = record_completed s.stats }, leaving r)
worker_step o s (caught r) = some (in_except o r (handled r) (call (handle_error r) s))
worker_step o s (handled r) = some (in_except o r (failed r) (call (shutdown_request r) s))
worker_step o s (failed r) = some (record s { stats = record_errored s.stats }, leaving r)
worker_step o s (leaving r) = some (release s, idle)
