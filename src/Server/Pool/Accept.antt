-- ===== src/Server/Pool/Accept.antt =====
-- server.py: `process_request`, `submit_request`, `_acquire_capacity` and `_reject_request`, with
-- the `except` of `socketserver` around `process_request`.
use xmlrpc_extended.Prelude.{◌+◌, Bool, true, false, Option, none, some}
use xmlrpc_extended.Python.Float.{Float}
use xmlrpc_extended.Server.Config.{ServerOverloadPolicy, fault, http_503}
use xmlrpc_extended.Server.Stats.{
  record_submitted, record_rejected_close, record_rejected_fault, record_rejected_503,
}
use xmlrpc_extended.Server.Pool.State.{
  Connection, Outcome, returns, raises, exits, settimeout, shutdown_request, handle_error,
  send_fault_response, send_503_response, Server, call, release, try_acquire, acquire_capacity,
  enqueue,
}

-- The statement that the accept thread is about to execute.
pub data AcceptPc : Type 0 where
  listening : AcceptPc
  arrived : Connection → AcceptPc  -- the start of `process_request`
  timed : Connection → AcceptPc  -- `_acquire_capacity()`
  acquired : Connection → AcceptPc  -- `_stats.record_submitted()`
  recorded : Connection → AcceptPc  -- `_executor.submit(...)`
  refused : Connection → AcceptPc  -- `_capacity.release()` of the `except RuntimeError`
  released : Connection → AcceptPc  -- `shutdown_request(request)` and `raise`
  rejected : Connection → AcceptPc  -- the start of `_reject_request`
  replying : Connection → AcceptPc  -- `_send_fault_response` or `_send_503_response`
  closing : Connection → AcceptPc  -- the `shutdown_request` of `_reject_request`
  -- the `except Exception` of `socketserver`: `handle_error`, which is taken to return, and
  -- `shutdown_request`
  raised : Connection → AcceptPc
  fatal : Connection → AcceptPc  -- the bare `except` of `socketserver`, which raises again
  stopped : AcceptPc  -- `serve_forever` has ended

-- Where a call leads that may leave `process_request` by an exception.
abbrev pub unless_raised : Outcome → Connection → AcceptPc → AcceptPc
unless_raised returns r next = next
unless_raised raises r next = raised r
unless_raised exits r next = fatal r

-- An exception of a call in an `except` of `socketserver` ends `serve_forever`.
abbrev pub unless_stopped : Outcome → AcceptPc
unless_stopped returns = listening
unless_stopped _ = stopped

-- `if self.config.connection_timeout is not None: request.settimeout(...)`
unfoldable pub set_timeout : Option Float → Outcome → Connection → Server → Server × AcceptPc
set_timeout none o r s = (s, timed r)
set_timeout (some t) returns r s = (call (settimeout r) s, timed r)
set_timeout (some t) o r s =
    let s' = call (settimeout r) s in
    (
      record s' { history = record s'.history { aborted = s'.history.aborted + 1 } },
      unless_raised o r (timed r),
    )

unfoldable pub after_acquire : Connection → Bool × Server → Server × AcceptPc
after_acquire r (true, s) = (s, acquired r)
after_acquire r (false, s) = (s, rejected r)

-- `submit` refuses after a shutdown. Otherwise it queues the connection, and may then still raise,
-- when it cannot start a thread. Either exception is a `RuntimeError`, the only one of `submit`.
unfoldable pub submit : Bool → Outcome → Connection → Server → Server × AcceptPc
submit true o r s =
    (record s { history = record s.history { refused = s.history.refused + 1 } }, refused r)
submit false returns r s = (enqueue r s, listening)
submit false _ r s =
    let s' = enqueue r s in
    (record s' { history = record s'.history { unstarted = s'.history.unstarted + 1 } }, refused r)

-- The counter of `_reject_request`, and whether a response follows.
unfoldable pub reject : ServerOverloadPolicy → Connection → Server → Server × AcceptPc
reject fault r s = (record s { stats = record_rejected_fault s.stats }, replying r)
reject http_503 r s = (record s { stats = record_rejected_503 s.stats }, replying r)
reject _ r s = (record s { stats = record_rejected_close s.stats }, closing r)

unfoldable pub reply : ServerOverloadPolicy → Connection → Server → Server
reply fault r s = call (send_fault_response r) s
reply http_503 r s = call (send_503_response r) s
reply _ r s = s

-- One statement of the accept thread; `none` means that it waits.
unfoldable pub accept_step : Outcome → Server → AcceptPc → Option (Server × AcceptPc)
unfolding set_timeout after_acquire submit reject reply release try_acquire acquire_capacity
    record_submitted record_rejected_close record_rejected_fault record_rejected_503
accept_step o s listening = none
accept_step o s (arrived r) = some (set_timeout s.config.connection_timeout o r s)
accept_step o s (timed r) = elim (acquire_capacity s) [
  | none ↦ none
  | some got ↦ some (after_acquire r got)
]
accept_step o s (acquired r) = some (record s { stats = record_submitted s.stats }, recorded r)
accept_step o s (recorded r) = some (submit s.executor.is_shutdown o r s)
accept_step o s (refused r) = some (release s, released r)
accept_step o s (released r) = some (call (shutdown_request r) s, unless_raised o r (raised r))
accept_step o s (rejected r) = some (reject s.config.overload_policy r s)
accept_step o s (replying r) =
    some (reply s.config.overload_policy r s, unless_raised o r (closing r))
accept_step o s (closing r) = some (call (shutdown_request r) s, unless_raised o r listening)
accept_step o s (fatal r) = some (call (shutdown_request r) s, stopped)
accept_step o s stopped = none
accept_step o s (raised r) =
    some (call (shutdown_request r) (call (handle_error r) s), unless_stopped o)
