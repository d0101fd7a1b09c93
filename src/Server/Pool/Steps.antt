-- ===== src/Server/Pool/Steps.antt =====
-- The kinds of step of the whole server: from a step that was made to the statement behind it.
use xmlrpc_extended.Prelude.{ℕ, ◌+◌, ◌≡◌, refl, sym, Bool, Option, none, some, get_elem?, set}
use mathlib.Core.Option.{some-injective}
use xmlrpc_extended.Server.Pool.State.{Connection, Outcome, Server}
use xmlrpc_extended.Server.Pool.Accept.{AcceptPc, listening, arrived, accept_step}
use xmlrpc_extended.Server.Pool.Worker.{WorkerPc, worker_step}
use xmlrpc_extended.Server.Pool.Close.{ClosePc, away, entering, close_step}
use xmlrpc_extended.Server.Pool.System.{
  System, Event, connect, accept, work, call_close, close as close_event, step, on_connect,
  on_call_close, on_accept, on_work, on_worker, on_close, is_quiet,
}

pub data StepBy (s t : System) : Event → Type 0 where
  by_connect :
      (k : Connection)
      → s.accept ≡ listening
      → t ≡ record s {
        server = record s.server {
          history = record s.server.history { opened = s.server.history.opened + 1 };
        };
        accept = arrived k;
      }
      → StepBy s t (connect k)
  by_accept :
      (o : Outcome) (v : Server) (q : AcceptPc)
      → accept_step o s.server s.accept ≡ some (v, q)
      → t ≡ record s { server = v; accept = q }
      → StepBy s t (accept o)
  by_worker :
      (i : ℕ) (o : Outcome) (p q : WorkerPc) (v : Server)
      → get_elem? s.workers i ≡ some p
      → worker_step o s.server p ≡ some (v, q)
      → t ≡ record s { server = v; workers = set s.workers i q }
      → StepBy s t (work i o)
  by_call_close :
      (wait whole : Bool)
      → s.closer ≡ away
      → t ≡ record s { closer = entering wait whole }
      → StepBy s t (call_close wait whole)
  by_close :
      (v : Server) (q : ClosePc)
      → close_step (is_quiet s) s.server s.closer ≡ some (v, q)
      → t ≡ record s { server = v; closer = q }
      → StepBy s t close_event

module _ (s t : System) where
  of_connect :
      (k : Connection) (p : AcceptPc)
      → s.accept ≡ p
      → on_connect k s p ≡ some t
      → StepBy s t (connect k)
  unfolding on_connect
  of_connect k listening at h = by_connect k at (sym (some-injective _ _ h))
  of_connect k p at h = cc

  of_accept :
      (o : Outcome) (r : Option (Server × AcceptPc))
      → accept_step o s.server s.accept ≡ r
      → on_accept s r ≡ some t
      → StepBy s t (accept o)
  of_accept o none e h = cc
  of_accept o (some (v, q)) e h = by_accept o v q e (sym (some-injective _ _ h))

  of_work :
      (i : ℕ) (o : Outcome) (p : WorkerPc) (r : Option (Server × WorkerPc))
      → get_elem? s.workers i ≡ some p
      → worker_step o s.server p ≡ r
      → on_work s i r ≡ some t
      → StepBy s t (work i o)
  of_work i o p none at e h = cc
  of_work i o p (some (v, q)) at e h = by_worker i o p q v at e (sym (some-injective _ _ h))

  of_worker :
      (i : ℕ) (o : Outcome) (r : Option WorkerPc)
      → get_elem? s.workers i ≡ r
      → on_worker s i o r ≡ some t
      → StepBy s t (work i o)
  of_worker i o none at h = cc
  of_worker i o (some p) at h = of_work i o p _ at refl h

  of_call_close :
      (wait whole : Bool) (p : ClosePc)
      → s.closer ≡ p
      → on_call_close wait whole s p ≡ some t
      → StepBy s t (call_close wait whole)
  unfolding on_call_close
  of_call_close wait whole away at h = by_call_close wait whole at (sym (some-injective _ _ h))
  of_call_close wait whole p at h = cc

  of_close :
      (r : Option (Server × ClosePc))
      → close_step (is_quiet s) s.server s.closer ≡ r
      → on_close s r ≡ some t
      → StepBy s t close_event
  of_close none e h = cc
  of_close (some (v, q)) e h = by_close v q e (sym (some-injective _ _ h))

  pub step-StepBy : (e : Event) → step e s ≡ some t → StepBy s t e
  unfolding step
  step-StepBy (connect k) h = of_connect k s.accept refl h
  step-StepBy (accept o) h = of_accept o _ refl h
  step-StepBy (work i o) h = of_worker i o _ refl h
  step-StepBy (call_close wait whole) h = of_call_close wait whole s.closer refl h
  step-StepBy close_event h = of_close _ refl h
