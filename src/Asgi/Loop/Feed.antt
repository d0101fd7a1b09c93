-- ===== src/Asgi/Loop/Feed.antt =====
-- A request takes the events of its channel up to the end of its body.
use xmlrpc_extended.Prelude.{
  ℕ, ◌≡◌, ◌≢◌, refl, sym, ap, ◌∙◌, ◌⊎◌, inl, inr, Bool-cases, Option-cases, List, [], ◌∷◌, ◌++◌,
  append_assoc, append-nil, Option, none, some, arith, length, get_elem?, set, get_elem?-set_self,
}
use mathlib.Core.Option.{some-injective}
use xmlrpc_extended.Prelude.Int.{pos, ltb_ℤ}
use xmlrpc_extended.Python.Text.{Bytes}
use xmlrpc_extended.Asgi.Host.{Host, Outcome, value, fault, exception, Call}
use xmlrpc_extended.Asgi.App.{App}
use xmlrpc_extended.Asgi.Body.{Event, body_chunk, has_more, append_chunk, join, read_from}
use xmlrpc_extended.Asgi.Dispatch.{Place}
use xmlrpc_extended.Asgi.Http.{payload_too_large, send_http_response}
use xmlrpc_extended.Asgi.Loop.{
  Wake, received, Await, receiving, sending, cut_off, Task, Loop, with_job, wake, run_loop,
  on_event, on_body, on_call, on_result, at_handler,
}
use xmlrpc_extended.Asgi.Loop.Ends.{IsAnswering, respond-left}
use xmlrpc_extended.Asgi.Loop.Moves.{IsOwn, AreOwn, respond-uncut}

-- The request takes an event, or makes a step of its own.
abbrev pub IsFor : ℕ → Wake → Type 0
IsFor i w = ((e : Event) × (w ≡ received i e)) ⊎ IsOwn i w

abbrev pub AreFor : ℕ → List Wake → Type 0
AreFor i [] = Unit {0}
AreFor i (w ∷ ws) = IsFor i w × AreFor i ws

pub AreFor-append : (i : ℕ) (ws vs : List Wake) → AreFor i ws → AreFor i vs → AreFor i (ws ++ vs)
AreFor-append i [] vs h k = k
AreFor-append i (w ∷ ws) vs h k = (h.0, AreFor-append i ws vs h.1 k)

pub AreOwn-AreFor : (i : ℕ) (ws : List Wake) → AreOwn i ws → AreFor i ws
AreOwn-AreFor i [] h = tt
AreOwn-AreFor i (w ∷ ws) h = (inr h.0, AreOwn-AreFor i ws h.1)

module _ (host : Host) where
  open host use {Value, Object}

  -- The body has come and nothing has cut the request off.
  abbrev pub IsOn : Await host → Type 0
  IsOn at = IsAnswering host at × (at ≢ cut_off)

  payload_too_large-IsOn : IsOn (sending payload_too_large)
  unfolding send_http_response
  payload_too_large-IsOn = (tt, λ e. cc)

  at_handler-IsOn :
      (result : Outcome Value) (place : Option Place) → IsOn (at_handler host result place)
  unfolding on_result
  at_handler-IsOn result none = ((respond-left host _).0, respond-uncut host _)
  at_handler-IsOn result (some place) = (tt, λ e. cc)

  on_call-IsOn :
      (k : ℕ) (a : App Object) (call : Outcome (Call Value)) → IsOn (on_call host k a call).1
  unfolding on_call
  on_call-IsOn k a (value request) = at_handler-IsOn _ _
  on_call-IsOn k a (fault c m) = ((respond-left host _).0, respond-uncut host _)
  on_call-IsOn k a (exception n m) = ((respond-left host _).0, respond-uncut host _)

  on_body-IsOn : (k : ℕ) (a : App Object) (body : Bytes) → IsOn (on_body host k a body).1
  unfolding on_body
  on_body-IsOn k a body = elim (Bool-cases (ltb_ℤ a.max_request_size (pos (length body)))) [
    | inl large ↦ rw (large, on_body) payload_too_large-IsOn
    | inr fits ↦ rw (fits, on_body) (on_call-IsOn k a (host.loads body))
  ]

  pub run_loop_append :
      (ws vs : List Wake) (l u : Loop host)
      → run_loop host ws l ≡ some u
      → run_loop host (ws ++ vs) l ≡ run_loop host vs u
  unfolding run_loop
  run_loop_append [] vs l u e = ap (run_loop host vs) (some-injective _ _ e)
  run_loop_append (w ∷ ws) vs l u e = elim (Option-cases (wake host w l)) [
    | inl waits ↦ absurd (ground arith)
    | inr (v, done) ↦ rw (done, run_loop) (run_loop_append ws vs v u (rw done at e))
  ]

  -- The request has taken events up to the end of its body.
  pub record Fed (l : Loop host) (i : ℕ) (t : Task host) (events : List Event) : Type 0 where
    pub wakers : List Wake
    pub next : Loop host
    pub task : Task host
    pub taken_events : List Event
    pub left : List Event
    pub for_it : AreFor i wakers
    pub runs : run_loop host wakers l ≡ some next
    pub got : get_elem? next.tasks i ≡ some task
    pub on : IsOn task.await
    pub scope : task.scope ≡ t.scope
    pub with_events : task.events ≡ t.events ++ taken_events
    pub all : events ≡ taken_events ++ left

  -- With one event more before.
  Fed-cons :
      (l u : Loop host) (i : ℕ) (t t' : Task host) (e : Event) (es : List Event)
      → wake host (received i e) l ≡ some u
      → t'.scope ≡ t.scope
      → t'.events ≡ t.events ++ e ∷ []
      → Fed u i t' es
      → Fed l i t (e ∷ es)
  unfolding run_loop
  Fed-cons l u i t t' e es done scope events f = record {
    wakers = received i e ∷ f.wakers;
    next = f.next;
    task = f.task;
    taken_events = e ∷ f.taken_events;
    left = f.left;
    for_it = (inl (e, refl), f.for_it);
    runs = rw (done, run_loop) f.runs;
    got = f.got;
    on = f.on;
    scope = f.scope ∙ scope;
    with_events =
        f.with_events
        ∙ ap (λ x. x ++ f.taken_events) events
        ∙ append_assoc t.events (e ∷ []) f.taken_events;
    all = ap {B = List Event} (λ x. e ∷ x) f.all;
  }

  -- The state behind an event.
  abbrev fed_once : Loop host → ℕ → Task host → App Object × Await host → Event → Loop host
  fed_once l i t (a, at) e = record l {
    app = a;
    tasks = set l.tasks i (record t { events = t.events ++ e ∷ []; await = at });
    jobs = with_job host i at l.jobs;
  }

  wake_received_lem :
      (l : Loop host) (i : ℕ) (t : Task host) (e : Event) (chunks : List Bytes)
      → t.await ≡ receiving chunks
      → get_elem? l.tasks i ≡ some t
      → wake host (received i e) l ≡ some (fed_once l i t (on_event host i l.app chunks e) e)
  unfolding wake
  wake_received_lem l i t e chunks at got = rw (got, at, wake) refl

  pub feed :
      (events : List Event) (chunks : List Bytes) (l : Loop host) (i : ℕ) (t : Task host)
      (got : Bytes × List Event)
      → read_from chunks events ≡ some got
      → t.await ≡ receiving chunks
      → get_elem? l.tasks i ≡ some t
      → Fed l i t events
  unfolding read_from on_event run_loop
  feed [] chunks l i t got h at here = cc
  feed (e ∷ es) chunks l i t got h at here =
      let next = on_event host i l.app chunks e in
      let t' = record t { events = t.events ++ e ∷ []; await = next.1 } in
      let u = fed_once l i t next e in
      Fed-cons l u i t t' e es (wake_received_lem l i t e chunks at here) refl refl
        (elim (Bool-cases (has_more e)) [
          | inl more ↦
              feed es (append_chunk chunks (body_chunk e)) u i t' got (rw more at h) (rw more refl)
                (get_elem?-set_self l.tasks i t' t here)
          | inr last ↦ record {
            wakers = [];
            next = u;
            task = t';
            taken_events = [];
            left = es;
            for_it = tt;
            runs = refl;
            got = get_elem?-set_self l.tasks i t' t here;
            on = rw last (on_body-IsOn i l.app (join (append_chunk chunks (body_chunk e))));
            scope = refl;
            with_events = sym (append-nil (t.events ++ e ∷ []));
            all = refl;
          }
        ])
