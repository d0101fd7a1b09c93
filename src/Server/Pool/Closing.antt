-- ===== src/Server/Pool/Closing.antt =====
-- `server_close`: when the listening socket is closed.
use xmlrpc_extended.Prelude.{
  ℕ, ◌∙◌, ◌≡◌, refl, sym, subst, inl, inr, Bool-cases, Bool, true, false, not, ◌||◌, List, [], ◌∷◌,
  Option, some, arith,
}
use mathlib.Core.Option.{some-injective}
use xmlrpc_extended.Server.Config.{XmlrpcServerConfig}
use xmlrpc_extended.Server.Pool.State.{Outcome, Io, close_socket, Server, release}
use xmlrpc_extended.Server.Pool.Accept.{AcceptPc, listening, accept_step}
use xmlrpc_extended.Server.Pool.Worker.{WorkerPc, idle, worker_step}
use xmlrpc_extended.Server.Pool.Close.{
  ClosePc, away, entering, joining, marking, leaving, close_step,
}
use xmlrpc_extended.Server.Pool.System.{
  System, Event, connect, accept, work, call_close, close, run, all_idle, is_quiet, Reach, start,
  next, init,
}
use xmlrpc_extended.Server.Pool.Steps.{
  StepBy, by_connect, by_accept, by_worker, by_call_close, by_close, step-StepBy,
}
use xmlrpc_extended.Server.Pool.WorkerLaws.{work_keeps}
use xmlrpc_extended.Server.Pool.AcceptLaws.{accept_keeps}
use xmlrpc_extended.Server.Pool.Liveness.{run-cons}
use xmlrpc_extended.Server.Pool.Shutdown.{joined_at_rest}

-- Whether `super().server_close()` has closed the listening socket.
unfoldable pub is_closed : List Io → Bool
is_closed [] = false
is_closed (close_socket ∷ io) = true
is_closed (_ ∷ io) = is_closed io

worker-is_closed :
    (o : Outcome) (s v : Server) (p q : WorkerPc)
    → worker_step o s p ≡ some (v, q)
    → is_closed v.history.io ≡ is_closed s.history.io
unfolding worker_step is_closed release
worker-is_closed o s v idle q e = ground arith
worker-is_closed o s v p q e = ground arith

accept-is_closed :
    (o : Outcome) (s v : Server) (p q : AcceptPc)
    → accept_step o s p ≡ some (v, q)
    → is_closed v.history.io ≡ is_closed s.history.io
unfolding accept_step is_closed release
accept-is_closed o s v listening q e = ground arith
accept-is_closed o s v p q e = ground arith

-- Every call of `shutdown_executor` waits.
abbrev pub AreWaiting : List Event → Type 0
AreWaiting [] = Unit {0}
AreWaiting (call_close wait whole ∷ es) = (wait ≡ true) × AreWaiting es
AreWaiting (e ∷ es) = AreWaiting es

-- Where the caller inside may be, when all that come wait.
abbrev IsJoining : Bool → ClosePc → Type 0
IsJoining joined away = Unit {0}
IsJoining joined (entering wait whole) = wait ≡ true
IsJoining joined (joining wait whole) = wait ≡ true
IsJoining joined (marking wait whole) = joined ≡ true
IsJoining joined (leaving whole) = joined ≡ true

-- What is marked as closed, and the socket that is closed, have waited.
record HasWaited (s : Server) (p : ClosePc) : Type 0 where
  closer : IsJoining s.history.joined p
  marked : s.executor_closed ≡ true → s.history.joined ≡ true
  closed : is_closed s.history.io ≡ true → s.history.joined ≡ true

HasWaited-same :
    (s v : Server) (p : ClosePc)
    → v.history.joined ≡ s.history.joined
    → v.executor_closed ≡ s.executor_closed
    → is_closed v.history.io ≡ is_closed s.history.io
    → HasWaited s p
    → HasWaited v p
HasWaited-same s v p joined marked closed h = record {
  closer = rw joined h.closer;
  marked = λ e. joined ∙ h.marked (sym marked ∙ e);
  closed = λ e. joined ∙ h.closed (sym closed ∙ e);
}

-- A step that was made leads where it leads.
lands :
    (s v : Server) (p q : ClosePc)
    → ◌≡◌ {A = Option (Server × ClosePc)} (some (s, p)) (some (v, q))
    → HasWaited s p
    → HasWaited v q
lands s v p q e h = subst (λ r. HasWaited r.0 r.1) (some-injective _ _ e) h

close-HasWaited :
    (quiet : Bool) (s v : Server) (p q : ClosePc)
    → close_step quiet s p ≡ some (v, q)
    → HasWaited s p
    → HasWaited v q
unfolding close_step is_closed
close-HasWaited quiet s v away q e h = cc
close-HasWaited quiet s v (entering wait whole) q e h = elim (Bool-cases s.executor_closed) [
  | inl was_closed ↦ lands _ v (leaving whole) q (rw was_closed at e) (record {
    closer = h.marked was_closed;
    marked = λ m. h.marked was_closed;
    closed = h.closed;
  })
  | inr still_open ↦
      lands _ v (joining wait whole) q (rw still_open at e)
        (record { closer = h.closer; marked = λ m. cc; closed = h.closed })
]
close-HasWaited quiet s v (joining wait whole) q e h = elim (Bool-cases (not wait || quiet)) [
  | inl comes_back ↦
      let waited : (s.history.joined || wait) ≡ true = ground (arith, h.closer) in
      lands _ v (marking wait whole) q (rw comes_back at e)
        (record { closer = waited; marked = λ m. waited; closed = λ m. waited })
  | inr stays ↦ absurd (ground (arith, stays))
]
close-HasWaited quiet s v (marking wait whole) q e h =
    lands _ v (leaving whole) q e
      (record { closer = h.closer; marked = λ m. h.closer; closed = h.closed })
close-HasWaited quiet s v (leaving true) q e h =
    lands _ v away q e (record { closer = tt; marked = h.marked; closed = λ m. h.closer })
close-HasWaited quiet s v (leaving false) q e h =
    lands _ v away q e (record { closer = tt; marked = h.marked; closed = h.closed })

AreWaiting-tail : (e : Event) (es : List Event) → AreWaiting (e ∷ es) → AreWaiting es
AreWaiting-tail (call_close wait whole) es h = h.1
AreWaiting-tail (connect k) es h = h
AreWaiting-tail (accept o) es h = h
AreWaiting-tail (work i o) es h = h
AreWaiting-tail close es h = h

StepBy-HasWaited :
    (s t : System) (e : Event) (es : List Event)
    → AreWaiting (e ∷ es)
    → StepBy s t e
    → HasWaited s.server s.closer
    → HasWaited t.server t.closer
unfolding is_closed
StepBy-HasWaited s t e es waits (by_connect k at same) h =
    rw same (HasWaited-same s.server _ s.closer refl refl refl h)
StepBy-HasWaited s t e es waits (by_call_close wait whole at same) h =
    rw same (record { closer = waits.0; marked = h.marked; closed = h.closed })
StepBy-HasWaited s t e es waits (by_worker i o p q v at made same) h =
    let kept = work_keeps o s.server v p q made in
    rw same
      (HasWaited-same s.server v s.closer kept.5 kept.7 (worker-is_closed o s.server v p q made) h)
StepBy-HasWaited s t e es waits (by_accept o v q made same) h =
    let kept = accept_keeps o s.server v s.accept q made in
    rw same (
      HasWaited-same s.server v s.closer kept.5 kept.7
        (accept-is_closed o s.server v s.accept q made) h)
StepBy-HasWaited s t e es waits (by_close v q made same) h =
    rw same (close-HasWaited (is_quiet s) s.server v s.closer q made h)

run-HasWaited :
    {c : XmlrpcServerConfig} {workers pending : ℕ} (es : List Event) (s t : System)
    → AreWaiting es
    → Reach c workers pending s
    → run es s ≡ some t
    → HasWaited s.server s.closer
    → Reach c workers pending t × HasWaited t.server t.closer
unfolding run
run-HasWaited {c} {workers} {pending} [] s t waits r e h =
    subst (λ u. Reach c workers pending u × HasWaited u.server u.closer) (some-injective _ _ e)
      (r, h)
run-HasWaited (e ∷ es) s t waits r done h =
    let (u, first, rest) = run-cons e es s t done in
    run-HasWaited es u t (AreWaiting-tail e es waits) (next e r first) rest
      (StepBy-HasWaited s u e es waits (step-StepBy s u e first) h)

-- In a run in which every call of `shutdown_executor` waits (as `server_close` does) and no thread
-- failed to start, in any order of the threads and with any other outcomes of their calls: when the
-- listening socket is closed, and ever after, the pool is shut, its queue is empty, and every worker
-- is idle. So no request is in flight.
pub socket_closed_at_rest :
    (c : XmlrpcServerConfig) (workers pending : ℕ) (es : List Event) (t : System)
    → AreWaiting es
    → run es (init c workers pending) ≡ some t
    → is_closed t.server.history.io ≡ true
    → t.server.history.unstarted ≡ 0
    → (t.server.executor.is_shutdown ≡ true)
      × (t.server.executor.work_queue ≡ [])
      × (all_idle t.workers ≡ true)
unfolding is_closed
socket_closed_at_rest c workers pending es t waits e closed started =
    let (r, h) =
      run-HasWaited es (init c workers pending) t waits start e
        (record { closer = tt; marked = λ m. cc; closed = λ m. cc }) in
    joined_at_rest r (h.closed closed) started
