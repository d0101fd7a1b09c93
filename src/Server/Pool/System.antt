-- ===== src/Server/Pool/System.antt =====
-- The whole server: one accept thread, the threads of the executor, and one caller that shuts it
-- down, interleaved in any order.
use xmlrpc_extended.Prelude.{
  ℕ, ◌+◌, ◌≡◌, Bool, true, false, ◌&&◌, ◌||◌, ◌==◌, not, List, [], ◌∷◌, Option, none, some,
  get_elem?, set, replicate,
}
use xmlrpc_extended.Server.Config.{XmlrpcServerConfig}
use xmlrpc_extended.Server.Pool.State.{Connection, Outcome, Server, new_server}
use xmlrpc_extended.Server.Pool.Accept.{AcceptPc, listening, arrived, accept_step}
use xmlrpc_extended.Server.Pool.Worker.{WorkerPc, idle, worker_step}
use xmlrpc_extended.Server.Pool.Close.{ClosePc, away, entering, close_step}

pub record System : Type 0 where
  pub server : Server
  pub accept : AcceptPc
  pub workers : List WorkerPc
  pub closer : ClosePc

pub data Event : Type 0 where
  connect : Connection → Event  -- `accept()` returns a connection
  accept : Outcome → Event  -- the accept thread executes a statement
  work : (i : ℕ) → Outcome → Event  -- the thread with number `i` executes a statement
  call_close : (wait whole : Bool) → Event  -- `shutdown_executor(wait=...)` or `server_close()`
  close : Event  -- the caller inside executes a statement

unfoldable pub is_idle : WorkerPc → Bool
is_idle idle = true
is_idle _ = false

unfoldable pub all_idle : List WorkerPc → Bool
unfolding is_idle
all_idle [] = true
all_idle (p ∷ ps) = is_idle p && all_idle ps

abbrev pub is_empty : List Connection → Bool
is_empty [] = true
is_empty (_ ∷ _) = false

-- Nothing is queued and no thread is at work.
abbrev pub is_at_rest : System → Bool
is_at_rest s = is_empty s.server.executor.work_queue && all_idle s.workers

-- Every thread that was started has ended: the threads take work until the queue is empty. Where a
-- thread failed to start, there may be none, and what is queued stays.
abbrev pub is_quiet : System → Bool
is_quiet s =
    (is_empty s.server.executor.work_queue || not (s.server.history.unstarted == 0))
    && all_idle s.workers

unfoldable pub on_connect : Connection → System → AcceptPc → Option System
on_connect r s listening = some (record s {
  server = record s.server {
    history = record s.server.history { opened = s.server.history.opened + 1 };
  };
  accept = arrived r;
})
on_connect r s _ = none

unfoldable pub on_call_close : (wait whole : Bool) → System → ClosePc → Option System
on_call_close wait whole s away = some (record s { closer = entering wait whole })
on_call_close wait whole s _ = none

abbrev pub on_accept : System → Option (Server × AcceptPc) → Option System
on_accept s none = none
on_accept s (some (v, p)) = some (record s { server = v; accept = p })

abbrev pub on_work : System → ℕ → Option (Server × WorkerPc) → Option System
on_work s i none = none
on_work s i (some (v, p)) = some (record s { server = v; workers = set s.workers i p })

abbrev pub on_worker : System → ℕ → Outcome → Option WorkerPc → Option System
on_worker s i o none = none
on_worker s i o (some p) = on_work s i (worker_step o s.server p)

abbrev pub on_close : System → Option (Server × ClosePc) → Option System
on_close s none = none
on_close s (some (v, p)) = some (record s { server = v; closer = p })

-- `none` means that the thread has nothing to execute or waits.
unfoldable pub step : Event → System → Option System
unfolding on_connect on_call_close
step (connect r) s = on_connect r s s.accept
step (accept o) s = on_accept s (accept_step o s.server s.accept)
step (work i o) s = on_worker s i o (get_elem? s.workers i)
step (call_close wait whole) s = on_call_close wait whole s s.closer
step close s = on_close s (close_step (is_quiet s) s.server s.closer)

unfoldable pub run : List Event → System → Option System
run [] s = some s
run (e ∷ es) s = elim (step e s) [ none ↦ none | some t ↦ run es t ]

-- The server after `__init__`, with `workers` threads to its pool and `workers + pending` slots.
abbrev pub init : XmlrpcServerConfig → (workers pending : ℕ) → System
init c workers pending = record {
  server = new_server c (workers + pending);
  accept = listening;
  workers = replicate workers idle;
  closer = away;
}

pub data Reach (c : XmlrpcServerConfig) (workers pending : ℕ) : System → Type 0 where
  start : Reach c workers pending (init c workers pending)
  next :
      {s t : System} (e : Event)
      → Reach c workers pending s
      → step e s ≡ some t
      → Reach c workers pending t
