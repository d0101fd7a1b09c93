-- ===== src/Asgi/Loop/Steps.antt =====
-- From a step that the loop has made back to what was woken.
use xmlrpc_extended.Prelude.{
  ℕ, ◌≡◌, ◌≢◌, ◌&&◌, refl, sym, ap, inl, inr, Bool-cases, arith, Bool, true, false, List, [], ◌∷◌,
  ◌++◌, Option, none, some, get_elem?, set,
}
use mathlib.Core.Option.{some-injective}
use xmlrpc_extended.Python.Text.{Bytes}
use xmlrpc_extended.Asgi.Host.{Outcome, Host}
use xmlrpc_extended.Asgi.App.{App, close}
use xmlrpc_extended.Asgi.Body.{Event}
use xmlrpc_extended.Asgi.Dispatch.{Place}
use xmlrpc_extended.Asgi.Http.{Message, Scope}
use xmlrpc_extended.Asgi.Session.{lifespan_round}
use xmlrpc_extended.Asgi.Jobs.{may_shut, may_take, has_job, end_job}
use xmlrpc_extended.Asgi.Loop.{
  Wake, lifespan_event, arrival, received, completed, taken, interrupted, thread_ended, closing,
  with_job, Await, receiving, calling, sending, finished, raised, cut_off, Task, start_http,
  on_event, on_result, on_sent, Loop, resumed, wake, wake_task, stored, wake_received,
  wake_completed, wake_taken, wake_interrupted,
}

-- The request that is woken.
abbrev pub woken : Wake → Option ℕ
woken (lifespan_event e) = none
woken (arrival scope) = none
woken (received i e) = some i
woken (completed i) = some i
woken (taken i) = some i
woken (interrupted i) = some i
woken (thread_ended i) = none
woken closing = none

module _ (host : Host) where
  open host use {Value, Object}

  abbrev pub is_over : Await host → Bool
  is_over finished = true
  is_over raised = true
  is_over cut_off = true
  is_over _ = false

  -- What the request with the number `k` does, from an await to the next.
  pub data Acts (k : ℕ) (a : App Object) (t : Task host) (a' : App Object) (t' : Task host)
      : Type 0 where
    acts_received :
        (chunks : List Bytes) (e : Event)
        → t.await ≡ receiving chunks
        → a' ≡ (on_event host k a chunks e).0
        → t' ≡ record t { events = t.events ++ e ∷ []; await = (on_event host k a chunks e).1 }
        → Acts k a t a' t'
    acts_completed :
        (place : Place) (result : Outcome Value)
        → t.await ≡ calling place result
        → a' ≡ a
        → t' ≡ record t { await = on_result host result }
        → Acts k a t a' t'
    acts_taken :
        (m : Message) (ms : List Message)
        → t.await ≡ sending (m ∷ ms)
        → a' ≡ a
        → t' ≡ record t { sent = t.sent ++ m ∷ []; await = on_sent host ms }
        → Acts k a t a' t'
    acts_interrupted :
        is_over t.await ≡ false → a' ≡ a → t' ≡ record t { await = cut_off } → Acts k a t a' t'

  pub data WakeBy (l l' : Loop host) (w : Wake) : Type 0 where
    by_lifespan :
        (e : Event)
        → w ≡ lifespan_event e
        → may_take l.app.executor l.jobs e ≡ true
        → l' ≡ resumed host l (lifespan_round e l.app)
        → WakeBy l l' w
    by_arrival :
        (scope : Scope)
        → woken w ≡ none
        → l' ≡ record l {
          tasks =
              l.tasks
              ++ record {
                scope = scope;
                events = [];
                sent = [];
                await = start_http host l.app scope;
              }
                ∷ [];
        }
        → WakeBy l l' w
    by_request :
        (i : ℕ) (t : Task host) (a' : App Object) (t' : Task host)
        → woken w ≡ some i
        → get_elem? l.tasks i ≡ some t
        → Acts i l.app t a' t'
        → l'
          ≡ record l { app = a'; tasks = set l.tasks i t'; jobs = with_job host i t'.await l.jobs }
        → WakeBy l l' w
    by_thread : (i : ℕ) → woken w ≡ none → l' ≡ record l { jobs = end_job i l.jobs } → WakeBy l l' w
    by_closing :
        w ≡ closing
        → may_shut l.app.executor l.jobs ≡ true
        → l' ≡ record l { app = close l.app }
        → WakeBy l l' w

  module _ (k : ℕ) (a : App Object) (t : Task host) (a' : App Object) (t' : Task host) where
    -- What was done is what was to be done.
    first :
        {b : App Object} {u : Task host}
        → ◌≡◌ {A = Option (App Object × Task host)} (some (b, u)) (some (a', t'))
        → a' ≡ b
    first h = ap (λ r. r.0) (sym (some-injective _ _ h))

    second :
        {b : App Object} {u : Task host}
        → ◌≡◌ {A = Option (App Object × Task host)} (some (b, u)) (some (a', t'))
        → t' ≡ u
    second h = ap (λ r. r.1) (sym (some-injective _ _ h))

    of_received :
        (e : Event) (at : Await host)
        → t.await ≡ at
        → wake_received host k a e t at ≡ some (a', t')
        → Acts k a t a' t'
    of_received e (receiving chunks) at h = acts_received chunks e at (first h) (second h)
    of_received e p at h = cc

    of_completed :
        (at : Await host)
        → t.await ≡ at
        → wake_completed host a t at ≡ some (a', t')
        → Acts k a t a' t'
    of_completed (calling place result) at h = acts_completed place result at (first h) (second h)
    of_completed p at h = cc

    of_taken :
        (at : Await host) → t.await ≡ at → wake_taken host a t at ≡ some (a', t') → Acts k a t a' t'
    of_taken (sending (m ∷ ms)) at h = acts_taken m ms at (first h) (second h)
    of_taken p at h = cc

    of_interrupted :
        (at : Await host)
        → t.await ≡ at
        → wake_interrupted host a t at ≡ some (a', t')
        → Acts k a t a' t'
    of_interrupted (receiving chunks) at h = acts_interrupted (rw at refl) (first h) (second h)
    of_interrupted (calling place result) at h = acts_interrupted (rw at refl) (first h) (second h)
    of_interrupted (sending ms) at h = acts_interrupted (rw at refl) (first h) (second h)
    of_interrupted p at h = cc

  module _ (l l' : Loop host) (w : Wake) (i : ℕ) (at : woken w ≡ some i)
      (act : App Object → Task host → Await host → Option (App Object × Task host))
      (acts : (t : Task host) (a' : App Object) (t' : Task host)
        → act l.app t t.await ≡ some (a', t')
        → Acts i l.app t a' t') where
    of_stored :
        (t : Task host) (r : Option (App Object × Task host))
        → get_elem? l.tasks i ≡ some t
        → act l.app t t.await ≡ r
        → stored host l i r ≡ some l'
        → WakeBy l l' w
    of_stored t none e done h = cc
    of_stored t (some (a', t')) e done h =
        by_request i t a' t' at e (acts t a' t' done) (sym (some-injective _ _ h))

    of_task :
        (r : Option (Task host))
        → get_elem? l.tasks i ≡ r
        → wake_task host l i act r ≡ some l'
        → WakeBy l l' w
    of_task none e h = cc
    of_task (some t) e h = of_stored t (act l.app t t.await) e refl h

  none-ne-some : (l : Loop host) → ◌≢◌ {A = Option (Loop host)} none (some l)
  none-ne-some l e = cc

  pub wake-WakeBy : (l l' : Loop host) (w : Wake) → wake host w l ≡ some l' → WakeBy l l' w
  unfolding wake
  wake-WakeBy l l' (lifespan_event e) h =
      elim (Bool-cases (l.lifespan && may_take l.app.executor l.jobs e)) [
        | inl takes ↦
            by_lifespan e refl (ground (arith, takes)) (sym (some-injective _ _ (rw takes at h)))
        | inr waits ↦ absurd (none-ne-some _ (rw waits at h))
      ]
  wake-WakeBy l l' (arrival scope) h = by_arrival scope refl (sym (some-injective _ _ h))
  wake-WakeBy l l' (received i e) h =
      of_task l l' _ i refl (λ a t w. wake_received host i a e t w)
        (λ t a' t' done. of_received i l.app t a' t' e t.await refl done) _ refl h
  wake-WakeBy l l' (completed i) h = elim (Bool-cases (has_job i l.jobs)) [
    | inl runs ↦ absurd (none-ne-some _ (rw runs at h))
    | inr ended ↦
        of_task l l' _ i refl (wake_completed host)
          (λ t a' t' done. of_completed i l.app t a' t' t.await refl done) _ refl (rw ended at h)
  ]
  wake-WakeBy l l' (taken i) h =
      of_task l l' _ i refl (wake_taken host)
        (λ t a' t' done. of_taken i l.app t a' t' t.await refl done) _ refl h
  wake-WakeBy l l' (interrupted i) h =
      of_task l l' _ i refl (wake_interrupted host)
        (λ t a' t' done. of_interrupted i l.app t a' t' t.await refl done) _ refl h
  wake-WakeBy l l' closing h = elim (Bool-cases (may_shut l.app.executor l.jobs)) [
    | inl drained ↦ by_closing refl drained (sym (some-injective _ _ (rw drained at h)))
    | inr runs ↦ absurd (none-ne-some _ (rw runs at h))
  ]
  wake-WakeBy l l' (thread_ended i) h = elim (Bool-cases (has_job i l.jobs)) [
    | inl runs ↦ by_thread i refl (sym (some-injective _ _ (rw runs at h)))
    | inr ended ↦ absurd (none-ne-some _ (rw ended at h))
  ]
