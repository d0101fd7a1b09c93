-- ===== src/Server/Pool/Tests.antt =====
-- The pool at concrete schedules.
use xmlrpc_extended.Prelude.{
  ℕ, subst, ◌+◌, ◌≤◌, ◌<◌, ◌≡◌, refl, ◌⊎◌, true, false, List, [], ◌∷◌, ◌++◌, some, none, arith,
  length, total,
}
use mathlib.Core.Option.{some-injective}
use xmlrpc_extended.Prelude.Int.{pos, ◌+ℤ◌, ◌-ℤ◌}
use xmlrpc_extended.Server.Config.{
  XmlrpcServerConfig, ServerOverloadPolicy, block, close, fault, default_config,
}
use xmlrpc_extended.Server.Pool.State.{returns, is_block, stats}
use xmlrpc_extended.Server.Pool.Accept.{timed, acquired, recorded, rejected, accept_step}
use xmlrpc_extended.Server.Pool.Worker.{worker_step}
use xmlrpc_extended.Server.Pool.Close.{close_step}
use xmlrpc_extended.Server.Pool.System.{
  System, Event, connect, accept, work, call_close, close as close_event, step, run, init, Reach,
  start, next, all_idle,
}
use xmlrpc_extended.Server.Pool.Liveness.{
  run-cons, work_left, Moves, workers_terminate, blocked_accept_progress, Drained, requests_drain,
}
use xmlrpc_extended.Server.Pool.Weights.{
  announced, undecided, unstarted, running, queue_length, outstanding,
}
use xmlrpc_extended.Server.Pool.Capacity.{
  slots_add_up, gauges_exact, every_connection_counted, rejected_iff_full,
}
use xmlrpc_extended.Server.Pool.Admission.{
  Performs, at_start, arrives, admits, rejects, begins, finishes,
}
use xmlrpc_extended.Server.Pool.View.{view}
use xmlrpc_extended.Server.Pool.Trace.{trace, run-Performs}
use xmlrpc_extended.Server.Pool.Returns.{Returned, shutdown_returns}
use xmlrpc_extended.Server.Pool.Closing.{is_closed, socket_closed_at_rest}

-- One worker and one pending slot.
abbrev small_config : ServerOverloadPolicy → XmlrpcServerConfig
small_config p = record default_config {
  overload_policy = p;
  max_workers = pos 1;
  max_pending = some (pos 1);
}

abbrev small : ServerOverloadPolicy → System
small p = init (small_config p) 1 1

-- A connection is accepted and queued.
abbrev admit : ℕ → List Event
admit k = connect k ∷ accept returns ∷ accept returns ∷ accept returns ∷ accept returns ∷ []

abbrev fill : List Event
fill = admit 1 ++ admit 2

-- A worker takes a request and serves it to the end.
abbrev serve : List Event
serve =
    work 0 returns
    ∷ work 0 returns
    ∷ work 0 returns
    ∷ work 0 returns
    ∷ work 0 returns
    ∷ work 0 returns
    ∷ []

simulate : List Event → System → System
unfolding run step accept_step worker_step close_step all_idle ◌+ℤ◌ ◌-ℤ◌
simulate es s = elim (run es s) [ none ↦ s | some t ↦ t ]

Reach-run :
    {c : XmlrpcServerConfig} {workers pending : ℕ} (es : List Event) (s t : System)
    → Reach c workers pending s
    → run es s ≡ some t
    → Reach c workers pending t
unfolding run
Reach-run [] s t r h = subst (Reach _ _ _) (some-injective _ _ h) r
Reach-run (e ∷ es) s t r h =
    let (u, first, rest) = run-cons e es s t h in Reach-run es u t (next e r first) rest

served : (simulate (fill ++ serve) (small fault)).server.stats.completed ≡ 1
unfolding simulate
served = refl

-- Both slots are taken, and a third connection waits for one.
abbrev full : ServerOverloadPolicy → System
full p = simulate (fill ++ connect 3 ∷ accept returns ∷ []) (small p)

full-Reach : (p : ServerOverloadPolicy) → Reach (small_config p) 1 1 (full p)
unfolding simulate
full-Reach block =
    Reach-run (fill ++ connect 3 ∷ accept returns ∷ []) (small block) (full block) start refl
full-Reach p = Reach-run (fill ++ connect 3 ∷ accept returns ∷ []) (small p) (full p) start refl

slots_add_up_example :
    (full fault).server.capacity + outstanding (full fault)
    ≡ 1 + 1 + (full fault).server.history.unstarted
slots_add_up_example = slots_add_up (full-Reach fault)

all_threads_started : (full fault).server.history.unstarted ≡ 0
unfolding simulate
all_threads_started = refl

-- A third request is rejected, and the first one is served.
abbrev busy_day : List Event
busy_day = fill ++ connect 3 ∷ accept returns ∷ accept returns ∷ accept returns ∷ serve

after_day : run busy_day (small fault) ≡ some (simulate busy_day (small fault))
unfolding simulate
after_day = refl

all_started : (simulate busy_day (small fault)).server.history.unstarted ≡ 0
unfolding simulate
all_started = refl

run-Performs_example :
    Performs (small_config fault) (1 + 1) (view (simulate busy_day (small fault))) at_start (
      arrives 1
      ∷ admits 1
      ∷ arrives 2
      ∷ admits 2
      ∷ arrives 3
      ∷ rejects 3
      ∷ begins 1
      ∷ finishes 1
      ∷ [])
unfolding simulate trace
run-Performs_example =
    run-Performs (small_config fault) 1 1 busy_day (simulate busy_day (small fault)) after_day
      all_started

abbrev refusing : System
refusing =
    simulate (call_close true true ∷ close_event ∷ admit 1 ++ accept returns ∷ []) (small fault)

refusing-Reach : Reach (small_config fault) 1 1 refusing
unfolding simulate
refusing-Reach =
    Reach-run (call_close true true ∷ close_event ∷ admit 1 ++ accept returns ∷ []) (small fault)
      refusing start refl

-- A request that `submit` refused stays in the gauge.
refused_stays_queued : (stats refusing.server).queued ≡ pos 1
unfolding simulate stats
refused_stays_queued = refl

gauges_exact_example :
    ((stats refusing.server).queued
      ≡ pos (
          announced refusing.accept
          + queue_length refusing.server
          + total unstarted refusing.workers
          + refusing.server.history.refused))
    × ((stats refusing.server).active
        ≡ pos (total running refusing.workers + refusing.server.history.escaped))
gauges_exact_example = gauges_exact refusing-Reach

every_connection_counted_example :
    let s = full close in
    let n = stats s.server in
    s.server.history.opened
    ≡ undecided s.accept
      + queue_length s.server
      + total unstarted s.workers
      + total running s.workers
      + (n.completed
          + n.errored
          + s.server.history.escaped
          + (n.rejected_close + n.rejected_fault + n.rejected_503)
          + s.server.history.refused
          + s.server.history.aborted)
every_connection_counted_example = every_connection_counted (full-Reach close)

full_at : (p : ServerOverloadPolicy) → (full p).accept ≡ timed 3
unfolding simulate
full_at block = refl
full_at p = refl

abbrev turned_down : System
turned_down = record (full fault) { accept = rejected 3 }

full_rejects : step (accept returns) (full fault) ≡ some turned_down
unfolding simulate
full_rejects = refl

rejected_iff_full_example :
    ((turned_down.accept ≡ rejected 3)
      × (is_block fault ≡ false)
      × (outstanding (full fault) ≡ 1 + 1 + (full fault).server.history.unstarted))
    ⊎ ((turned_down.accept ≡ acquired 3)
        × (turned_down.server.capacity + 1 ≡ (full fault).server.capacity))
rejected_iff_full_example =
    rejected_iff_full (full-Reach fault) returns turned_down 3 (full_at fault) full_rejects

full_serves : run serve (full block) ≡ some (simulate serve (full block))
unfolding simulate
full_serves = refl

workers_terminate_example :
    work_left (simulate serve (full block)) + length serve ≤ work_left (full block)
workers_terminate_example =
    workers_terminate serve (full block) (simulate serve (full block)) tt full_serves

full_waits : step (accept returns) (full block) ≡ none
unfolding simulate
full_waits = refl

blocked_accept_progress_example : Moves (full block) returns
blocked_accept_progress_example =
    blocked_accept_progress (full-Reach block) (omega arith) 3 (full_at block) returns full_waits

full_threads : 0 < length (full block).workers
unfolding simulate
full_threads = omega arith

requests_drain_example : Drained (full block)
requests_drain_example = requests_drain (full block) full_threads

-- `server_close()` is called when every slot is taken, and waits inside `_executor.shutdown`.
abbrev busy_close : System
busy_close = simulate (call_close true true ∷ close_event ∷ []) (full block)

busy_threads : 0 < length busy_close.workers
unfolding simulate
busy_threads = omega arith

shutdown_returns_example : Returned busy_close true
unfolding simulate
shutdown_returns_example = shutdown_returns busy_close busy_threads

-- One request is served, then `server_close()` runs to its end.
abbrev served_and_closed : List Event
served_and_closed =
    admit 1
    ++ serve
    ++ call_close true true ∷ close_event ∷ close_event ∷ close_event ∷ close_event ∷ []

abbrev closed : System
closed = simulate served_and_closed (small fault)

closed-Reach : Reach (small_config fault) 1 1 closed
unfolding simulate
closed-Reach = Reach-run served_and_closed (small fault) closed start refl

socket_closed_at_rest_example :
    (closed.server.executor.is_shutdown ≡ true)
    × (closed.server.executor.work_queue ≡ [])
    × (all_idle closed.workers ≡ true)
unfolding simulate is_closed
socket_closed_at_rest_example =
    socket_closed_at_rest (small_config fault) 1 1 served_and_closed closed (refl, tt) refl refl
      refl

closed_shut : closed.server.executor.is_shutdown ≡ true
unfolding simulate
closed_shut = refl

late : run (admit 2) closed ≡ some (simulate (admit 2) closed)
unfolding simulate
late = refl

abbrev late_request : System
late_request = record closed { accept = recorded 5 }
