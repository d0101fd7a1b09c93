-- ===== src/Asgi/Loop/Moves.antt =====
-- A step that a request whose body has come can make by itself.
use xmlrpc_extended.Prelude.{
  ℕ, ◌+◌, ◌<◌, ◌≡◌, ◌≢◌, refl, sym, ◌∙◌, ◌⊎◌, inl, inr, Bool-cases, true, List, [], ◌∷◌, ◌++◌, some,
  arith, get_elem?, set, get_elem?-set_self, ◌==◌, if◌then◌else◌,
}
use xmlrpc_extended.Python.Text.{Bytes}
use xmlrpc_extended.Asgi.Host.{Host, Outcome, value, fault, exception}
use xmlrpc_extended.Asgi.Dispatch.{Place}
use xmlrpc_extended.Asgi.Http.{Message, send_http_response}
use xmlrpc_extended.Asgi.Jobs.{Jobs, has_job, end_job}
use xmlrpc_extended.Asgi.Loop.{
  Wake, completed, taken, thread_ended, Await, receiving, calling, sending, finished, raised,
  cut_off, Task, Loop, with_job, wake, respond, on_result, on_sent,
}
use xmlrpc_extended.Asgi.Loop.Steps.{is_over}
use xmlrpc_extended.Asgi.Loop.Ends.{awaits_left, IsAnswering, respond-left, on_sent-left}

-- The function of the request ends, its handler is done, or it sends a message.
abbrev pub IsOwn : ℕ → Wake → Type 0
IsOwn i w = (w ≡ thread_ended i) ⊎ ((w ≡ completed i) ⊎ (w ≡ taken i))

abbrev pub AreOwn : ℕ → List Wake → Type 0
AreOwn i [] = Unit {0}
AreOwn i (w ∷ ws) = IsOwn i w × AreOwn i ws

abbrev pub job_count : ℕ → Jobs → ℕ
job_count i [] = 0
job_count i ((j, place) ∷ jobs) = (if j == i then 1 else 0) + job_count i jobs

job_count-end_job :
    (i : ℕ) (jobs : Jobs)
    → has_job i jobs ≡ true
    → job_count i (end_job i jobs) + 1 ≡ job_count i jobs
job_count-end_job i [] h = cc
job_count-end_job i ((j, place) ∷ jobs) h = elim (Bool-cases (j == i)) [
  | inl here ↦ rw here (omega arith)
  | inr elsewhere ↦
      let less = job_count-end_job i jobs (rw elsewhere at h) in
      rw elsewhere (rw elsewhere (omega (arith, less)))
]

module _ (host : Host) where
  open host use {Value, Object}

  respond-with_job :
      (i : ℕ) (r : Outcome Bytes) (jobs : Jobs) → with_job host i (respond host r) jobs ≡ jobs
  unfolding respond send_http_response
  respond-with_job i (value body) jobs = refl
  respond-with_job i (fault c m) jobs = refl
  respond-with_job i (exception n m) jobs = refl

  on_sent-with_job :
      (i : ℕ) (ms : List Message) (jobs : Jobs) → with_job host i (on_sent host ms) jobs ≡ jobs
  on_sent-with_job i [] jobs = refl
  on_sent-with_job i (m ∷ ms) jobs = refl

  calling-uncut :
      (place : Place) (result : Outcome Value)
      → ¬ (◌≡◌ {A = Await host} (calling place result) cut_off)
  calling-uncut place result e = cc

  pub respond-uncut : (r : Outcome Bytes) → respond host r ≢ cut_off
  unfolding respond
  respond-uncut (value body) e = cc
  respond-uncut (fault c m) e = cc
  respond-uncut (exception n m) e = cc

  on_sent-uncut : (ms : List Message) → on_sent host ms ≢ cut_off
  on_sent-uncut [] e = cc
  on_sent-uncut (m ∷ ms) e = cc

  -- What is left to do for the request.
  abbrev pub measure : Loop host → ℕ → Await host → ℕ
  measure l i at = awaits_left host at + job_count i l.jobs

  -- The request can make a step by itself, which leaves less to do.
  pub record Moves (l : Loop host) (i n : ℕ) (t : Task host) : Type 0 where
    pub waker : Wake
    pub next : Loop host
    pub task : Task host
    pub own : IsOwn i waker
    pub done : wake host waker l ≡ some next
    pub got : get_elem? next.tasks i ≡ some task
    pub answering : IsAnswering host task.await
    pub scope : task.scope ≡ t.scope
    pub events : task.events ≡ t.events
    pub uncut : task.await ≢ cut_off
    pub less : measure next i task.await < n

  calling-Moves :
      (l : Loop host) (i : ℕ) (t : Task host) (place : Place) (result : Outcome Value)
      → t.await ≡ calling place result
      → get_elem? l.tasks i ≡ some t
      → Moves l i (measure l i (calling place result)) t
  unfolding wake on_result
  calling-Moves l i t place result at got = elim (Bool-cases (has_job i l.jobs)) [
    | inl runs ↦ record {
      waker = thread_ended i;
      next = record l { jobs = end_job i l.jobs };
      task = t;
      own = inl refl;
      done = rw (runs, wake) refl;
      got = got;
      answering = rw at tt;
      scope = refl;
      events = refl;
      uncut = λ e. calling-uncut place result (sym at ∙ e);
      less = rw at (omega (arith, job_count-end_job i l.jobs runs));
    }
    | inr ended ↦
        let (answering, few) = respond-left host _ in
        record {
          waker = completed i;
          next = record l { tasks = set l.tasks i (record t { await = on_result host result }) };
          task = record t { await = on_result host result };
          own = inr (inl refl);
          done = rw (ended, got, at, wake) (rw (respond-with_job i _ l.jobs) refl);
          got = get_elem?-set_self l.tasks i _ t got;
          answering = answering;
          scope = refl;
          events = refl;
          uncut = respond-uncut _;
          less = omega (arith, few);
        }
  ]

  sending-Moves :
      (l : Loop host) (i : ℕ) (t : Task host) (m : Message) (ms : List Message)
      → t.await ≡ sending (m ∷ ms)
      → get_elem? l.tasks i ≡ some t
      → Moves l i (measure l i (sending (m ∷ ms))) t
  unfolding wake
  sending-Moves l i t m ms at got =
      let (answering, left) = on_sent-left host ms in
      let t' = record t { sent = t.sent ++ m ∷ []; await = on_sent host ms } in
      record {
        waker = taken i;
        next = record l { tasks = set l.tasks i t' };
        task = t';
        own = inr (inr refl);
        done = rw (got, at, wake) (rw (on_sent-with_job i ms l.jobs) refl);
        got = get_elem?-set_self l.tasks i t' t got;
        answering = answering;
        scope = refl;
        events = refl;
        uncut = on_sent-uncut ms;
        less = omega (arith, left);
      }

  pub moves :
      (l : Loop host) (i : ℕ) (t : Task host) (at : Await host)
      → t.await ≡ at
      → get_elem? l.tasks i ≡ some t
      → IsAnswering host at
      → (is_over host at ≡ true) ⊎ Moves l i (measure l i at) t
  moves l i t (receiving chunks) at got h = absurd h
  moves l i t (calling place result) at got h = inr (calling-Moves l i t place result at got)
  moves l i t (sending []) at got h = absurd h
  moves l i t (sending (m ∷ ms)) at got h = inr (sending-Moves l i t m ms at got)
  moves l i t finished at got h = inl refl
  moves l i t raised at got h = inl refl
  moves l i t cut_off at got h = inl refl
