-- ===== src/Server/Pool/Liveness.antt =====
-- Accepted requests end, and their slots come back.
use xmlrpc_extended.Prelude.{
  ℕ, zero, suc, ◌+◌, ◌*◌, ◌≤◌, ◌<◌, ◌≡◌, refl, sym, inl, inr, List, [], ◌∷◌, Option, none, some,
  arith, length, length-set, get_elem?, set, total, total-set, total-pos, Option-cases,
}
use mathlib.Core.Option.{some-injective}
use native.Mathlib.Decide.{dec_lt}
use xmlrpc_extended.Server.Config.{XmlrpcServerConfig}
use xmlrpc_extended.Server.Pool.State.{Connection, Outcome, returns, Server}
use xmlrpc_extended.Server.Pool.Accept.{timed, accept_step}
use xmlrpc_extended.Server.Pool.Worker.{
  WorkerPc, idle, picked, started, served, finished, caught, handled, failed, leaving, worker_step,
}
use xmlrpc_extended.Server.Pool.System.{
  System, Event, accept, work, step, on_work, on_worker, run, Reach,
}
use xmlrpc_extended.Server.Pool.Weights.{busy, queue_length}
use xmlrpc_extended.Server.Pool.WorkerLaws.{work-slots}
use xmlrpc_extended.Server.Pool.Invariant.{Reach-Inv}

-- The statements that a worker has before it, at most.
abbrev pub rank : WorkerPc → ℕ
rank idle = 0
rank (leaving _) = 1
rank (finished _) = 2
rank (failed _) = 2
rank (handled _) = 3
rank (caught _) = 4
rank (served _) = 5
rank (started _) = 6
rank (picked _) = 7

-- The statements that all workers have before them, at most, with the requests of the queue.
abbrev pub work_left : System → ℕ
work_left s = 8 * queue_length s.server + total rank s.workers

work-rank :
    (o : Outcome) (s t : Server) (p q : WorkerPc)
    → worker_step o s p ≡ some (t, q)
    → 8 * queue_length t + rank q < 8 * queue_length s + rank p
unfolding worker_step
work-rank o s t idle q e = ground arith
work-rank o s t p q e = ground arith

-- A step of a worker, seen from the system: fewer statements are left, the threads are as many, and
-- slots move between the semaphore, the queue and the workers.
pub record Worked (s t : System) : Type 0 where
  pub less : work_left t < work_left s
  pub threads : length t.workers ≡ length s.workers
  pub slots :
      t.server.capacity + queue_length t.server + total busy t.workers
      ≡ s.server.capacity + queue_length s.server + total busy s.workers

on_work-Worked :
    (s t : System) (i : ℕ) (o : Outcome) (p : WorkerPc) (r : Option (Server × WorkerPc))
    → get_elem? s.workers i ≡ some p
    → worker_step o s.server p ≡ r
    → on_work s i r ≡ some t
    → Worked s t
on_work-Worked s t i o p none at e h = cc
on_work-Worked s t i o p (some (v, q)) at e h =
    let ranks = total-set rank s.workers i p q at in
    let slots = total-set busy s.workers i p q at in
    let less = work-rank o s.server v p q e in
    let moved = work-slots o s.server v p q e in
    rw (sym (some-injective _ _ h))
      (record { less = omega arith; threads = length-set s.workers i q; slots = omega arith })

on_worker-Worked :
    (s t : System) (i : ℕ) (o : Outcome) (r : Option WorkerPc)
    → get_elem? s.workers i ≡ r
    → on_worker s i o r ≡ some t
    → Worked s t
on_worker-Worked s t i o none at h = cc
on_worker-Worked s t i o (some p) at h = on_work-Worked s t i o p _ at refl h

pub work-Worked : (s t : System) (i : ℕ) (o : Outcome) → step (work i o) s ≡ some t → Worked s t
unfolding step
work-Worked s t i o h = on_worker-Worked s t i o _ refl h

pub run-cons :
    (e : Event) (es : List Event) (s t : System)
    → run (e ∷ es) s ≡ some t
    → (u : System) × (step e s ≡ some u) × (run es u ≡ some t)
unfolding run
run-cons e es s t h = elim (Option-cases (step e s)) [
  | inl n ↦ ground arith
  | inr (u, n) ↦ (u, n, ground arith)
]

-- Events of workers alone.
abbrev pub AllWork : List Event → Type 0
AllWork [] = Unit {0}
AllWork (work _ _ ∷ es) = AllWork es
AllWork (_ ∷ _) = ⊥

-- However the workers are scheduled and whatever their calls do, with no new work they execute at
-- most eight statements for each queued request, and seven for each request at hand.
pub workers_terminate :
    (es : List Event) (s t : System)
    → AllWork es
    → run es s ≡ some t
    → work_left t + length es ≤ work_left s
unfolding run
workers_terminate [] s t a h = rw (some-injective _ _ h) (omega arith)
workers_terminate (work i o ∷ es) s t a h =
    let (u, first, rest) = run-cons (work i o) es s t h in
    let w = work-Worked s u i o first in omega (arith, w.less, workers_terminate es u t a rest)
workers_terminate (e ∷ es) s t a h = absurd a

busy_moves :
    (o : Outcome) (s : Server) (p : WorkerPc)
    → 0 < busy p
    → (r : Server × WorkerPc) × (worker_step o s p ≡ some r)
unfolding worker_step
busy_moves o s idle h = absurd (omega arith)
busy_moves o s p h = (_, refl)

idle_picks :
    (o : Outcome) (s : Server) (queue : List Connection)
    → s.executor.work_queue ≡ queue
    → 0 < length queue
    → (r : Server × WorkerPc) × (worker_step o s idle ≡ some r)
unfolding worker_step
idle_picks o s [] e h = absurd (omega arith)
idle_picks o s (k ∷ queue) e h = elim (Option-cases (worker_step o s idle)) [
  | inl n ↦ absurd (ground arith)
  | inr found ↦ found
]

first_idle : (ps : List WorkerPc) → 0 < length ps → total busy ps ≡ 0 → get_elem? ps 0 ≡ some idle
unfolding total
first_idle [] h z = absurd (omega arith)
first_idle (idle ∷ ps) h z = refl
first_idle (p ∷ ps) h z = absurd (omega arith)

-- Some worker can execute a statement, whose call ends as `o` says.
abbrev pub Moves : System → Outcome → Type 0
Moves s o = (i : ℕ) × (t : System) × (step (work i o) s ≡ some t)

Moves-at :
    (s : System) (o : Outcome) (i : ℕ) (p : WorkerPc) (r : Server × WorkerPc)
    → get_elem? s.workers i ≡ some p
    → worker_step o s.server p ≡ some r
    → Moves s o
unfolding step
Moves-at s o i p (v, q) at e = (i, record s { server = v; workers = set s.workers i q }, rw (at, e))

-- While a request is queued or with a worker, some worker can move, whatever its call does.
pub some_worker-Moves :
    (s : System) (o : Outcome)
    → 0 < length s.workers
    → 0 < queue_length s.server + total busy s.workers
    → Moves s o
some_worker-Moves s o threads more = elim (dec_lt 0 (total busy s.workers)) [
  | yes some_busy ↦
      let (i, p, at, b) = total-pos busy s.workers some_busy in
      let (r, e) = busy_moves o s.server p b in Moves-at s o i p r at e
  | no none_busy ↦
      let (r, e) = idle_picks o s.server s.server.executor.work_queue refl (omega arith) in
      Moves-at s o 0 idle r (first_idle s.workers threads (omega arith)) e
]

-- When the accept thread waits for a slot, some worker can move: the server is never deadlocked.
pub blocked_accept_progress :
    {c : XmlrpcServerConfig} {workers pending : ℕ} {s : System}
    → Reach c workers pending s
    → 0 < workers
    → (k : Connection) → s.accept ≡ timed k
    → (o : Outcome) → step (accept o) s ≡ none
    → Moves s o
unfolding step accept_step
blocked_accept_progress {s} r some_worker k at o stuck =
    let inv = Reach-Inv r in
    some_worker-Moves s o (omega (arith, inv.threads)) (ground (arith, inv.slots))

-- The end of all work, reached from `s` by steps of workers.
pub record Drained (s : System) : Type 0 where
  pub events : List Event
  pub last : System
  pub by_workers : AllWork events
  pub path : run events s ≡ some last
  pub queue : queue_length last.server ≡ 0
  pub workers : total busy last.workers ≡ 0
  pub slots :
      last.server.capacity ≡ s.server.capacity + queue_length s.server + total busy s.workers

Drained-now : (s : System) → ¬ (0 < queue_length s.server + total busy s.workers) → Drained s
unfolding run
Drained-now s done = record {
  events = [];
  last = s;
  by_workers = tt;
  path = refl;
  queue = omega arith;
  workers = omega arith;
  slots = omega arith;
}

Drained-later : (s t : System) (i : ℕ) → step (work i returns) s ≡ some t → Drained t → Drained s
unfolding run
Drained-later s t i e d = record {
  events = work i returns ∷ d.events;
  last = d.last;
  by_workers = d.by_workers;
  path = rw (e, run) d.path;
  queue = d.queue;
  workers = d.workers;
  slots = let w = work-Worked s t i returns e in omega (arith, d.slots, w.slots);
}

drain_within : (n : ℕ) (s : System) → work_left s < n → 0 < length s.workers → Drained s
drain_within zero s few threads = absurd (omega arith)
drain_within (suc n) s few threads =
    elim (dec_lt 0 (queue_length s.server + total busy s.workers)) [
      | no done ↦ Drained-now s done
      | yes more ↦
          let (i, t, e) = some_worker-Moves s returns threads more in
          let w = work-Worked s t i returns e in
          Drained-later s t i e
            (drain_within n t (omega (arith, w.less)) (omega (arith, w.threads)))
    ]

-- From every state with a worker thread there is a run of the workers alone after which the queue
-- is empty, no worker is busy, and each request that was queued or with a worker has given its slot
-- back.
pub requests_drain : (s : System) → 0 < length s.workers → Drained s
requests_drain s threads = drain_within (suc (work_left s)) s (omega arith) threads
