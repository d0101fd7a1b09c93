-- ===== src/Server/Pool/Returns.antt =====
-- `shutdown_executor` and `server_close` come back.
use xmlrpc_extended.Prelude.{
  ◌∙◌, ◌<◌, ◌≡◌, refl, sym, ap, inl, inr, Bool, true, false, ◌||◌, Bool-cases, if◌then◌else◌, List,
  [], ◌∷◌, ◌++◌, some, arith, length, total,
}
use mathlib.Core.Option.{some-injective}
use xmlrpc_extended.Server.Pool.State.{Connection, Server, close_socket, call}
use xmlrpc_extended.Server.Pool.Worker.{WorkerPc, idle}
use xmlrpc_extended.Server.Pool.Close.{
  ClosePc, away, entering, joining, marking, leaving, close_step,
}
use xmlrpc_extended.Server.Pool.Closing.{is_closed}
use xmlrpc_extended.Server.Pool.System.{
  System, Event, work, close, step, run, all_idle, is_empty, is_quiet,
}
use xmlrpc_extended.Server.Pool.Steps.{StepBy, by_worker, step-StepBy}
use xmlrpc_extended.Server.Pool.Weights.{busy, queue_length}
use xmlrpc_extended.Server.Pool.Liveness.{run-cons, AllWork, requests_drain}

all_idle_lem : (ps : List WorkerPc) → total busy ps ≡ 0 → all_idle ps ≡ true
unfolding all_idle total
all_idle_lem [] h = refl
all_idle_lem (idle ∷ ps) h = all_idle_lem ps (omega arith)
all_idle_lem (p ∷ ps) h = absurd (omega arith)

is_empty_lem : (queue : List Connection) → length queue ≡ 0 → is_empty queue ≡ true
is_empty_lem [] h = refl
is_empty_lem (k ∷ queue) h = absurd (omega arith)

quiet_lem : (s : System) → queue_length s.server ≡ 0 → total busy s.workers ≡ 0 → is_quiet s ≡ true
quiet_lem s queue workers =
    rw (is_empty_lem s.server.executor.work_queue queue, all_idle_lem s.workers workers) refl

-- Workers leave the caller of a shutdown where it is.
work_step-closer :
    (s t : System) (e : Event) → AllWork (e ∷ []) → StepBy s t e → t.closer ≡ s.closer
work_step-closer s t e h (by_worker i o p q v at made same) = ap (λ u. u.closer) same
work_step-closer s t e h _ = absurd h

AllWork-head : (e : Event) (es : List Event) → AllWork (e ∷ es) → AllWork (e ∷ []) × AllWork es
AllWork-head (work i o) es h = (tt, h)
AllWork-head e es h = absurd h

work_run-closer :
    (es : List Event) (s t : System) → AllWork es → run es s ≡ some t → t.closer ≡ s.closer
unfolding run
work_run-closer [] s t h e = ap (λ u. u.closer) (sym (some-injective _ _ e))
work_run-closer (e ∷ es) s t h done =
    let (u, first, rest) = run-cons e es s t done in
    let (one, more) = AllWork-head e es h in
    work_run-closer es u t more rest ∙ work_step-closer s u e one (step-StepBy s u e first)

run_append : (es fs : List Event) (s t : System) → run es s ≡ some t → run (es ++ fs) s ≡ run fs t
unfolding run
run_append [] fs s t e = ap (run fs) (some-injective _ _ e)
run_append (e ∷ es) fs s t done =
    let (u, first, rest) = run-cons e es s t done in rw (first, run) (run_append es fs u t rest)

-- Whether the caller inside is in `server_close`.
abbrev pub is_whole : ClosePc → Bool
is_whole away = false
is_whole (entering wait whole) = whole
is_whole (joining wait whole) = whole
is_whole (marking wait whole) = whole
is_whole (leaving whole) = whole

-- Events of the workers and of the caller of a shutdown.
abbrev pub AreInside : List Event → Type 0
AreInside [] = Unit {0}
AreInside (work i o ∷ es) = AreInside es
AreInside (close ∷ es) = AreInside es
AreInside (_ ∷ es) = ⊥

-- By such events the call comes back, with the listening socket closed if it is `server_close`.
pub record Returned (s : System) (whole : Bool) : Type 0 where
  pub events : List Event
  pub last : System
  pub inside : AreInside events
  pub path : run events s ≡ some last
  pub back : last.closer ≡ away
  pub closed : whole ≡ true → is_closed last.server.history.io ≡ true

away-Returned : (s : System) → s.closer ≡ away → Returned s false
unfolding run
away-Returned s at = record {
  events = [];
  last = s;
  inside = tt;
  path = refl;
  back = at;
  closed = λ e. cc;
}

-- One statement of the caller, and then the rest.
close_step-Returned :
    (s : System) (whole : Bool) (v : Server) (q : ClosePc)
    → close_step (is_quiet s) s.server s.closer ≡ some (v, q)
    → Returned (record s { server = v; closer = q }) whole
    → Returned s whole
unfolding run step
close_step-Returned s whole v q e r = record {
  events = close ∷ r.events;
  last = r.last;
  inside = r.inside;
  path = rw (e, run, step) r.path;
  back = r.back;
  closed = r.closed;
}

leaving_returns : (s : System) (whole : Bool) → s.closer ≡ leaving whole → Returned s whole
unfolding run step close_step is_closed
leaving_returns s whole at =
    let v = if whole then call close_socket s.server else s.server in
    record {
      events = close ∷ [];
      last = record s { server = v; closer = away };
      inside = tt;
      path = rw at refl;
      back = refl;
      closed = λ e. rw e refl;
    }

marking_returns :
    (s : System) (wait whole : Bool) → s.closer ≡ marking wait whole → Returned s whole
unfolding close_step
marking_returns s wait whole at =
    close_step-Returned s whole (record s.server { executor_closed = true }) (leaving whole)
      (rw at refl) (leaving_returns _ whole refl)

joining_returns :
    (s : System) (wait whole : Bool)
    → s.closer ≡ joining wait whole
    → is_quiet s ≡ true
    → Returned s whole
unfolding close_step
joining_returns s wait whole at quiet =
    close_step-Returned s whole
      (record s.server {
        history = record s.server.history { joined = s.server.history.joined || wait };
      })
      (marking wait whole) (rw (at, quiet) (ground arith)) (marking_returns _ wait whole refl)

entering_returns :
    (s : System) (wait whole : Bool)
    → s.closer ≡ entering wait whole
    → is_quiet s ≡ true
    → Returned s whole
unfolding close_step
entering_returns s wait whole at quiet = elim (Bool-cases s.server.executor_closed) [
  | inl was_closed ↦
      close_step-Returned s whole s.server (leaving whole) (rw (at, was_closed, close_step) refl)
        (leaving_returns _ whole refl)
  | inr still_open ↦
      close_step-Returned s whole
        (record s.server { executor = record s.server.executor { is_shutdown = true } })
        (joining wait whole) (rw (at, still_open, close_step) refl)
        (joining_returns _ wait whole refl quiet)
]

quiet_returns :
    (s : System) (p : ClosePc) → s.closer ≡ p → is_quiet s ≡ true → Returned s (is_whole p)
quiet_returns s away at quiet = away-Returned s at
quiet_returns s (entering wait whole) at quiet = entering_returns s wait whole at quiet
quiet_returns s (joining wait whole) at quiet = joining_returns s wait whole at quiet
quiet_returns s (marking wait whole) at quiet = marking_returns s wait whole at
quiet_returns s (leaving whole) at quiet = leaving_returns s whole at

AreInside-append : (es fs : List Event) → AllWork es → AreInside fs → AreInside (es ++ fs)
AreInside-append [] fs h k = k
AreInside-append (work i o ∷ es) fs h k = AreInside-append es fs h k
AreInside-append (e ∷ es) fs h k = absurd h

-- In every state with a worker thread, whatever is queued or at work and wherever a caller of
-- `shutdown_executor` or `server_close` is: there is a run of the workers and of this caller alone
-- after which the call has come back, and the listening socket is closed if it was `server_close`.
-- So a shutdown that waits is not deadlocked, also while the accept thread waits for capacity.
pub shutdown_returns : (s : System) → 0 < length s.workers → Returned s (is_whole s.closer)
shutdown_returns s threads =
    let d = requests_drain s threads in
    let r =
      quiet_returns d.last s.closer (work_run-closer d.events s d.last d.by_workers d.path)
        (quiet_lem d.last d.queue d.workers) in
    record {
      events = d.events ++ r.events;
      last = r.last;
      inside = AreInside-append d.events r.events d.by_workers r.inside;
      path = run_append d.events r.events s d.last d.path ∙ r.path;
      back = r.back;
      closed = r.closed;
    }
