-- ===== src/Server/Pool/Invariant.antt =====
-- What holds of the server in every state that its threads can reach.
use xmlrpc_extended.Prelude.{
  ℕ, ◌+◌, ◌≡◌, refl, sym, Bool, true, subst, ◌∙◌, ◌-◌, ◌++◌, ap, some, arith, length, length-set,
  le-total, length-replicate, get_elem?, set, total, total-set, total-replicate,
}
use xmlrpc_extended.Prelude.Int.{pos}
use xmlrpc_extended.Server.Config.{XmlrpcServerConfig, ServerOverloadPolicy, block}
use xmlrpc_extended.Server.Stats.{new_tracker}
use xmlrpc_extended.Server.Pool.State.{Connection, Outcome, Server}
use xmlrpc_extended.Server.Pool.Accept.{AcceptPc, listening, arrived, accept_step}
use xmlrpc_extended.Server.Pool.Worker.{WorkerPc, idle, worker_step}
use xmlrpc_extended.Server.Pool.Close.{ClosePc, away, entering, joining, marking, close_step}
use xmlrpc_extended.Server.Pool.System.{System, Event, step, init, Reach, start, next, is_quiet}
use xmlrpc_extended.Server.Pool.Steps.{
  StepBy, by_connect, by_accept, by_worker, by_call_close, by_close, step-StepBy,
}
use xmlrpc_extended.Server.Pool.Weights.{
  announced, undecided, busy, unstarted, running, queue_length, outstanding, counted, IsUnder,
}
use xmlrpc_extended.Server.Pool.WorkerLaws.{
  work-slots, work-queued, work-active, work-settled, work-order, work-IsUnder, work_keeps,
}
use xmlrpc_extended.Server.Pool.AcceptLaws.{
  MayReject, accept-slots, accept-queued, accept-settled, accept-order, accept-MayReject,
  accept-IsUnder, accept_keeps,
}

-- The caller inside `shutdown_executor` has shut the pool.
abbrev pub HasShut : Server → ClosePc → Type 0
HasShut s (joining _ _) = s.executor.is_shutdown ≡ true
HasShut s (marking _ _) = s.executor.is_shutdown ≡ true
HasShut s _ = Unit

pub record Inv (c : XmlrpcServerConfig) (workers pending : ℕ) (s : System) : Type 0 where
  pub config : s.server.config ≡ c
  pub threads : length s.workers ≡ workers
  pub slots : s.server.capacity + outstanding s ≡ workers + pending + s.server.history.unstarted
  pub queued :
      s.server.stats.submitted
      ≡ pos (
          announced s.accept
          + queue_length s.server
          + total unstarted s.workers
          + s.server.history.refused)
  pub active : s.server.stats.active ≡ pos (total running s.workers + s.server.history.escaped)
  pub settled :
      s.server.history.opened
      ≡ undecided s.accept
        + queue_length s.server
        + total unstarted s.workers
        + total running s.workers
        + counted s.server
  pub order : s.server.history.enqueued ≡ s.server.history.picked ++ s.server.executor.work_queue
  pub may_reject : MayReject s.server s.accept
  pub under : IsUnder s.server.config.overload_policy s.server.stats
  pub shut : HasShut s.server s.closer

HasShut-kept :
    (p : ClosePc) (s v : Server)
    → v.executor.is_shutdown ≡ s.executor.is_shutdown
    → HasShut s p
    → HasShut v p
HasShut-kept away s v e h = tt
HasShut-kept p s v e h = ground arith

module _ {c : XmlrpcServerConfig} {workers pending : ℕ} {s : System} where
  work-Inv :
      (i : ℕ) (o : Outcome) (p q : WorkerPc) (v : Server)
      → get_elem? s.workers i ≡ some p
      → worker_step o s.server p ≡ some (v, q)
      → Inv c workers pending s
      → Inv c workers pending (record s { server = v; workers = set s.workers i q })
  work-Inv i o p q v at e inv =
      let kept = work_keeps o s.server v p q e in
      let slots = total-set busy s.workers i p q at in
      let waits = total-set unstarted s.workers i p q at in
      let runs = total-set running s.workers i p q at in
      let some_wait = le-total unstarted s.workers i p at in
      let some_run = le-total running s.workers i p at in
      let others_wait =
        announced s.accept + (total unstarted s.workers - unstarted p) + s.server.history.refused in
      let others_run = total running s.workers - running p in
      record {
        config = kept.0 ∙ inv.config;
        threads = omega (arith, length-set s.workers i q, inv.threads);
        slots = ground (arith, work-slots o s.server v p q e);
        queued = ground (arith, work-queued o s.server v others_wait p q e);
        active = ground (arith, work-active o s.server v others_run p q e);
        settled = ground (arith, work-settled o s.server v p q e);
        order = work-order o s.server v p q e inv.order;
        may_reject = rw kept.0 inv.may_reject;
        under = work-IsUnder o s.server v p q e inv.under;
        shut = HasShut-kept s.closer s.server v kept.6 inv.shut;
      }

  accept-Inv :
      (o : Outcome) (q : AcceptPc) (v : Server)
      → accept_step o s.server s.accept ≡ some (v, q)
      → Inv c workers pending s
      → Inv c workers pending (record s { server = v; accept = q })
  accept-Inv o q v e inv =
      let kept = accept_keeps o s.server v s.accept q e in
      let others = total unstarted s.workers in
      record {
        config = kept.0 ∙ inv.config;
        threads = inv.threads;
        slots = omega (arith, accept-slots o s.server v s.accept q e, inv.slots);
        queued = ground (arith, accept-queued o s.server v others s.accept q e);
        active = ground arith;
        settled = omega (arith, accept-settled o s.server v s.accept q e, inv.settled, kept.3);
        order = accept-order o s.server v s.accept q e inv.order;
        may_reject = accept-MayReject o s.server v s.accept q e inv.may_reject;
        under = accept-IsUnder o s.server v s.accept q e inv.may_reject inv.under;
        shut = HasShut-kept s.closer s.server v kept.6 inv.shut;
      }

  close-Inv :
      (quiet : Bool) (p q : ClosePc) (v : Server)
      → s.closer ≡ p
      → close_step quiet s.server p ≡ some (v, q)
      → Inv c workers pending s
      → Inv c workers pending (record s { server = v; closer = q })
  unfolding close_step
  close-Inv quiet away q v at e inv = ground arith
  close-Inv quiet p q v at e inv = record {
    config = ground arith;
    threads = inv.threads;
    slots = ground arith;
    queued = ground arith;
    active = ground arith;
    settled = ground arith;
    order = ground arith;
    may_reject = ground arith;
    under = ground arith;
    shut = ground arith;
  }

  connect-Inv :
      (k : Connection)
      → s.accept ≡ listening
      → Inv c workers pending s
      → Inv c workers pending (record s {
        server = record s.server {
          history = record s.server.history { opened = s.server.history.opened + 1 };
        };
        accept = arrived k;
      })
  connect-Inv k at inv = record {
    config = inv.config;
    threads = inv.threads;
    slots = ground arith;
    queued = ground arith;
    active = inv.active;
    settled = ground arith;
    order = inv.order;
    may_reject = ground arith;
    under = inv.under;
    shut = HasShut-kept s.closer s.server s.server refl inv.shut;
  }

  call_close-Inv :
      (wait whole : Bool)
      → Inv c workers pending s
      → Inv c workers pending (record s { closer = entering wait whole })
  call_close-Inv wait whole inv = record {
    config = inv.config;
    threads = inv.threads;
    slots = inv.slots;
    queued = inv.queued;
    active = inv.active;
    settled = inv.settled;
    order = inv.order;
    may_reject = inv.may_reject;
    under = inv.under;
    shut = tt;
  }

  StepBy-Inv :
      (t : System) (e : Event) → StepBy s t e → Inv c workers pending s → Inv c workers pending t
  StepBy-Inv t e (by_connect k at h) inv =
      subst (Inv c workers pending) (sym h) (connect-Inv k at inv)
  StepBy-Inv t e (by_accept o v q made h) inv =
      subst (Inv c workers pending) (sym h) (accept-Inv o q v made inv)
  StepBy-Inv t e (by_worker i o p q v at made h) inv =
      subst (Inv c workers pending) (sym h) (work-Inv i o p q v at made inv)
  StepBy-Inv t e (by_call_close wait whole at h) inv =
      subst (Inv c workers pending) (sym h) (call_close-Inv wait whole inv)
  StepBy-Inv t e (by_close v q made h) inv =
      subst (Inv c workers pending) (sym h) (close-Inv (is_quiet s) s.closer q v refl made inv)

-- Every step of every thread keeps the invariant.
pub step-Inv :
    {c : XmlrpcServerConfig} {workers pending : ℕ} (s t : System) (e : Event)
    → step e s ≡ some t
    → Inv c workers pending s
    → Inv c workers pending t
step-Inv s t e h inv = StepBy-Inv t e (step-StepBy s t e h) inv

init-IsUnder : (p : ServerOverloadPolicy) → IsUnder p new_tracker
init-IsUnder block = omega arith
init-IsUnder p = omega arith

init-Inv :
    (c : XmlrpcServerConfig) (workers pending : ℕ) → Inv c workers pending (init c workers pending)
init-Inv c workers pending = record {
  config = refl;
  threads = length-replicate workers idle;
  slots = omega (arith, total-replicate busy workers idle refl);
  queued = ap pos (omega (arith, total-replicate unstarted workers idle refl));
  active = ap pos (omega (arith, total-replicate running workers idle refl));
  settled = omega (
    arith,
    total-replicate unstarted workers idle refl,
    total-replicate running workers idle refl,
  );
  order = refl;
  may_reject = λ e. cc;
  under = init-IsUnder c.overload_policy;
  shut = tt;
}

pub Reach-Inv :
    {c : XmlrpcServerConfig} {workers pending : ℕ} {s : System}
    → Reach c workers pending s
    → Inv c workers pending s
Reach-Inv {c} {workers} {pending} start = init-Inv c workers pending
Reach-Inv (next e r h) = step-Inv _ _ e h (Reach-Inv r)
