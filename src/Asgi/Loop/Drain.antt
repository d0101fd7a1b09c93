-- ===== src/Asgi/Loop/Drain.antt =====
-- `self._executor.shutdown(wait=True)`: what a shutdown waits for while requests run.
use xmlrpc_extended.Prelude.{
  ℕ, ◌≡◌, refl, sym, subst, ◌∙◌, ◌⊎◌, inl, inr, Bool-cases, Option-cases, Bool, true, not, ◌&&◌,
  ◌==◌, ==_iff, List, [], ◌∷◌, Option, none, some, arith,
}
use mathlib.Core.Option.{some-injective}
use xmlrpc_extended.Asgi.Host.{Host}
use xmlrpc_extended.Asgi.App.{App}
use xmlrpc_extended.Asgi.Body.{Event}
use xmlrpc_extended.Asgi.Dispatch.{Place, event_loop, in_pool, default_pool}
use xmlrpc_extended.Asgi.Lifespan.Laws.{is_startup, is_shutdown}
use xmlrpc_extended.Asgi.Session.{lifespan_round}
use xmlrpc_extended.Asgi.Jobs.{Jobs, end_job, is_in, is_drained, may_shut, may_take}
use xmlrpc_extended.Asgi.Loop.{
  Wake, with_job, Await, receiving, calling, sending, finished, raised, cut_off, Task, Loop, wake,
  run_loop,
}
use xmlrpc_extended.Asgi.Loop.Steps.{
  Acts, acts_received, acts_completed, acts_taken, acts_interrupted, WakeBy, by_lifespan,
  by_arrival, by_request, by_thread, by_closing, wake-WakeBy,
}
use xmlrpc_extended.Asgi.Loop.Keeps.{StartsIn, on_event-Keeps}
use xmlrpc_extended.Asgi.Loop.Pools.{IsFresh, AreFresh, Acts-used}

-- A function in a pool of the application is in its executor.
abbrev pub IsOurs : Option ℕ → Place → Type 0
IsOurs executor (in_pool p) = executor ≡ some p
IsOurs executor default_pool = Unit {0}
IsOurs executor event_loop = ⊥

abbrev pub AreOurs : Option ℕ → Jobs → Type 0
AreOurs executor [] = Unit {0}
AreOurs executor ((i, place) ∷ jobs) = IsOurs executor place × AreOurs executor jobs

-- Every job is in asyncio's default pool.
abbrev pub AreDefault : Jobs → Type 0
AreDefault [] = Unit {0}
AreDefault ((i, place) ∷ jobs) = (place ≡ default_pool) × AreDefault jobs

IsOurs-none : (executor : Option ℕ) (place : Place) → IsOurs none place → IsOurs executor place
IsOurs-none executor (in_pool p) h = cc
IsOurs-none executor default_pool h = tt
IsOurs-none executor event_loop h = h

AreOurs-none : (executor : Option ℕ) (jobs : Jobs) → AreOurs none jobs → AreOurs executor jobs
AreOurs-none executor [] h = tt
AreOurs-none executor ((i, place) ∷ jobs) h =
    (IsOurs-none executor place h.0, AreOurs-none executor jobs h.1)

AreDefault-AreOurs : (jobs : Jobs) → AreDefault jobs → AreOurs none jobs
AreDefault-AreOurs [] h = tt
AreDefault-AreOurs ((i, place) ∷ jobs) (e, h) =
    (subst (IsOurs none) (sym e) tt, AreDefault-AreOurs jobs h)

is_default : (place : Place) → IsOurs none place → place ≡ default_pool
is_default (in_pool p) h = cc
is_default default_pool h = refl
is_default event_loop h = absurd h

pub AreOurs-AreDefault : (jobs : Jobs) → AreOurs none jobs → AreDefault jobs
AreOurs-AreDefault [] h = tt
AreOurs-AreDefault ((i, place) ∷ jobs) h = (is_default place h.0, AreOurs-AreDefault jobs h.1)

AreOurs-end_job :
    (executor : Option ℕ) (i : ℕ) (jobs : Jobs)
    → AreOurs executor jobs
    → AreOurs executor (end_job i jobs)
AreOurs-end_job executor i [] h = tt
AreOurs-end_job executor i ((j, place) ∷ jobs) h = elim (Bool-cases (j == i)) [
  | inl here ↦ rw here h.1
  | inr elsewhere ↦ rw elsewhere (h.0, AreOurs-end_job executor i jobs h.1)
]

-- When no function runs in the executor any more, none runs in a pool of the application.
drained_place :
    (p : ℕ) (place : Place) (rest : Bool)
    → IsOurs (some p) place
    → not (is_in p place) && rest ≡ true
    → IsOurs none place × (rest ≡ true)
drained_place p (in_pool q) rest h e = absurd (ground (arith, some-injective p q h, ==_iff p q))
drained_place p default_pool rest h e = (tt, e)
drained_place p event_loop rest h e = absurd h

drained-AreOurs :
    (p : ℕ) (jobs : Jobs) → AreOurs (some p) jobs → is_drained p jobs ≡ true → AreOurs none jobs
drained-AreOurs p [] h e = tt
drained-AreOurs p ((i, place) ∷ jobs) h e =
    let (none_here, rest) = drained_place p place _ h.0 e in
    (none_here, drained-AreOurs p jobs h.1 rest)

pub may_shut-AreOurs :
    (executor : Option ℕ) (jobs : Jobs)
    → AreOurs executor jobs
    → may_shut executor jobs ≡ true
    → AreOurs none jobs
may_shut-AreOurs none jobs h e = h
may_shut-AreOurs (some p) jobs h e = drained-AreOurs p jobs h e

AreDefault-drained : (p : ℕ) (jobs : Jobs) → AreDefault jobs → is_drained p jobs ≡ true
AreDefault-drained p [] h = refl
AreDefault-drained p ((i, place) ∷ jobs) (e, h) = rw (e, AreDefault-drained p jobs h) refl

pub AreDefault-may_shut :
    (executor : Option ℕ) (jobs : Jobs) → AreDefault jobs → may_shut executor jobs ≡ true
AreDefault-may_shut none jobs h = refl
AreDefault-may_shut (some p) jobs h = AreDefault-drained p jobs h

module _ (host : Host) where
  open host use {Value, Object}

  lifespan_round-AreOurs :
      (e : Event) (a : App Object) (jobs : Jobs)
      → (is_startup e ≡ true → a.executor ≡ none)
      → may_take a.executor jobs e ≡ true
      → AreOurs a.executor jobs
      → AreOurs (lifespan_round e a).0.executor jobs
  unfolding lifespan_round
  lifespan_round-AreOurs e a jobs fresh takes h = elim (Bool-cases (is_startup e)) [
    | inl starts ↦
        rw (starts, lifespan_round)
          (AreOurs-none _ jobs (subst (λ x. AreOurs x jobs) (fresh starts) h))
    | inr other ↦ elim (Bool-cases (is_shutdown e)) [
      | inl stops ↦
          rw (other, stops, lifespan_round)
            (AreOurs-none _ jobs (may_shut-AreOurs a.executor jobs h (rw stops at takes)))
      | inr passed ↦ rw (other, passed, lifespan_round) h
    ]
  ]

  -- A request that runs leaves the executor, or there was none.
  Acts-executor :
      (k : ℕ) (a a' : App Object) (t t' : Task host)
      → Acts host k a t a' t'
      → (a.executor ≡ none) ⊎ (a' ≡ a)
  Acts-executor k a a' t t' (acts_received chunks e at same next) = elim (Option-cases a.executor) [
    | inl nothing ↦ inl nothing
    | inr (p, h) ↦ inr (same ∙ (on_event-Keeps host k a chunks e).kept p h)
  ]
  Acts-executor k a a' t t' (acts_completed place result at same next) = inr same
  Acts-executor k a a' t t' (acts_taken m ms at same next) = inr same
  Acts-executor k a a' t t' (acts_interrupted at same next) = inr same

  with_job-AreOurs :
      (executor : Option ℕ) (i : ℕ) (w : Await host) (jobs : Jobs)
      → AreOurs executor jobs
      → ((p : ℕ) → StartsIn host p w → executor ≡ some p)
      → AreOurs executor (with_job host i w jobs)
  with_job-AreOurs executor i (calling event_loop result) jobs h used = h
  with_job-AreOurs executor i (calling (in_pool p) result) jobs h used = (used p (result, refl), h)
  with_job-AreOurs executor i (calling default_pool result) jobs h used = (tt, h)
  with_job-AreOurs executor i (receiving chunks) jobs h used = h
  with_job-AreOurs executor i (sending ms) jobs h used = h
  with_job-AreOurs executor i finished jobs h used = h
  with_job-AreOurs executor i raised jobs h used = h
  with_job-AreOurs executor i cut_off jobs h used = h

  WakeBy-AreOurs :
      (l l' : Loop host) (w : Wake)
      → IsFresh host w l
      → AreOurs l.app.executor l.jobs
      → WakeBy host l l' w
      → AreOurs l'.app.executor l'.jobs
  WakeBy-AreOurs l l' w fresh h (by_lifespan e at takes same) =
      subst (λ m. AreOurs m.app.executor m.jobs) (sym same)
        (lifespan_round-AreOurs e l.app l.jobs (subst (λ v. IsFresh host v l) at fresh) takes h)
  WakeBy-AreOurs l l' w fresh h (by_arrival scope at same) =
      subst (λ m. AreOurs m.app.executor m.jobs) (sym same) h
  WakeBy-AreOurs l l' w fresh h (by_request i t a' t' at got acts same) =
      let kept : AreOurs a'.executor l.jobs = elim (Acts-executor i l.app a' t t' acts) [
        | inl nothing ↦ AreOurs-none _ l.jobs (subst (λ x. AreOurs x l.jobs) nothing h)
        | inr unchanged ↦ subst (λ b. AreOurs b.executor l.jobs) (sym unchanged) h
      ] in
      subst (λ m. AreOurs m.app.executor m.jobs) (sym same)
        (with_job-AreOurs a'.executor i t'.await l.jobs kept
          (λ p s. Acts-used host i l.app a' t t' p acts s))
  WakeBy-AreOurs l l' w fresh h (by_closing at drained same) =
      subst (λ m. AreOurs m.app.executor m.jobs) (sym same)
        (AreOurs-none _ l.jobs (may_shut-AreOurs l.app.executor l.jobs h drained))
  WakeBy-AreOurs l l' w fresh h (by_thread i at same) =
      subst (λ m. AreOurs m.app.executor m.jobs) (sym same)
        (AreOurs-end_job l.app.executor i l.jobs h)

  pub run_loop-AreOurs :
      (ws : List Wake) (l l' : Loop host)
      → AreFresh host ws l
      → AreOurs l.app.executor l.jobs
      → run_loop host ws l ≡ some l'
      → AreOurs l'.app.executor l'.jobs
  unfolding run_loop
  run_loop-AreOurs [] l l' fresh h e =
      subst (λ m. AreOurs m.app.executor m.jobs) (some-injective _ _ e) h
  run_loop-AreOurs (w ∷ ws) l l' fresh h e = elim (Option-cases (wake host w l)) [
    | inl waits ↦ absurd (ground arith)
    | inr (u, done) ↦
        run_loop-AreOurs ws u l' (fresh.1 u done)
          (WakeBy-AreOurs l u w fresh.0 h (wake-WakeBy host l u w done)) (rw done at e)
  ]
