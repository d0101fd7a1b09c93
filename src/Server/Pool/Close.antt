-- ===== src/Server/Pool/Close.antt =====
-- server.py: `shutdown_executor` and `server_close`. The lock `_executor_lock` lets in one caller at
-- a time, so there is one place for the caller inside; the others wait at the lock.
use xmlrpc_extended.Prelude.{Bool, true, ◌||◌, Option, none, some, not, if◌then◌else◌}
use xmlrpc_extended.Server.Pool.State.{close_socket, Server, call}

-- `wait` is the argument of `shutdown_executor`; `whole` tells `server_close` from a plain call.
pub data ClosePc : Type 0 where
  away : ClosePc
  entering : (wait whole : Bool) → ClosePc  -- `if self._executor_closed`
  joining : (wait whole : Bool) → ClosePc  -- inside `_executor.shutdown`, the pool is shut
  marking : (wait whole : Bool) → ClosePc  -- `self._executor_closed = True`
  leaving : (whole : Bool) → ClosePc  -- after the lock: `super().server_close()`

-- `quiet` says that every thread that was started has ended, which a shutdown with `wait=True` waits
-- for.
unfoldable pub close_step : Bool → Server → ClosePc → Option (Server × ClosePc)
close_step quiet s away = none
close_step quiet s (entering wait whole) =
    if s.executor_closed
    then some (s, leaving whole)
    else some (record s { executor = record s.executor { is_shutdown = true } }, joining wait whole)
close_step quiet s (joining wait whole) =
    if not wait || quiet
    then some (
      record s { history = record s.history { joined = s.history.joined || wait } },
      marking wait whole,
    )
    else none
close_step quiet s (marking wait whole) = some (record s { executor_closed = true }, leaving whole)
close_step quiet s (leaving whole) = some (if whole then call close_socket s else s, away)
