-- ===== src/Asgi/Loop.antt =====
-- `__call__` for many requests at once: the tasks of the event loop, each suspended at one of its
-- `await`s, and what a task does when it is woken, up to its next `await`.
pub mod Steps
pub mod Keeps
pub mod Follows
pub mod Answers
pub mod Sessions
pub mod Ends
pub mod Moves
pub mod Finish
pub mod Feed
pub mod Served
pub mod Pools
pub mod Drain
pub mod Shutdown
pub mod Responses
use xmlrpc_extended.Prelude.{
  ℕ, Bool, not, List, [], ◌∷◌, ◌++◌, ◌&&◌, Option, none, some, length, get_elem?, set,
  if◌then◌else◌,
}
use xmlrpc_extended.Prelude.Int.{pos, negsuc, ltb_ℤ}
use xmlrpc_extended.Python.Headers.{or_default}
use xmlrpc_extended.Python.Text.{Bytes, codes, text_eq}
use xmlrpc_extended.Asgi.Jobs.{Jobs, has_job, end_job, may_shut, may_take}
use xmlrpc_extended.Asgi.Host.{Outcome, value, Call, Host}
use xmlrpc_extended.Asgi.App.{App, close}
use xmlrpc_extended.Asgi.Body.{Event, body_chunk, has_more, append_chunk, join}
use xmlrpc_extended.Asgi.Dispatch.{
  Place, event_loop, async_dispatch, Dispatched, encoded, answer_fault, marshal, method_name,
}
use xmlrpc_extended.Asgi.Http.{
  Message, Scope, not_found, method_not_allowed, payload_too_large, success, upper,
}
use xmlrpc_extended.Asgi.Session.{lifespan_round}

-- What wakes the loop: an event for the lifespan call, a new request, and for the request with a
-- number: an event of its channel, the end of its handler, the end of a `send`, or an exception at
-- the `await` at which it stands (its task is cancelled, or `receive` or `send` raises). A thread
-- that ends the function of a request wakes nothing by itself. And a call of `close()` on the loop's
-- thread.
pub data Wake : Type 0 where
  lifespan_event : Event → Wake
  arrival : Scope → Wake
  received : ℕ → Event → Wake
  completed taken interrupted : ℕ → Wake
  thread_ended : ℕ → Wake
  closing : Wake

module _ (host : Host) where
  open host use {Value, Object}

  -- The `await` at which a request stands.
  pub data Await : Type 0 where
    receiving : (chunks : List Bytes) → Await  -- `receive()` in `_read_body`
    calling : Place → Outcome Value → Await  -- the handler, and how it will end
    sending : List Message → Await  -- `send(...)`, with what is still to be sent
    finished : Await
    raised : Await  -- the call has ended by an exception of its own
    cut_off : Await  -- the call was interrupted

  -- A request with the events that it has received and what it has sent.
  pub record Task : Type 0 where
    pub scope : Scope
    pub events : List Event
    pub sent : List Message
    pub await : Await

  -- `_handle_http` up to its first `await`.
  unfoldable pub start_http : App Object → Scope → Await
  start_http a scope =
      if not (text_eq (or_default scope.path (codes "/")) a.rpc_path)
      then sending not_found
      else if not (text_eq (upper (or_default scope.method (codes "GET"))) (codes "POST"))
      then sending method_not_allowed
      else receiving []

  -- The response, or the exception that goes on to the server.
  unfoldable pub respond : Outcome Bytes → Await
  respond (value body) = sending (success body)
  respond _ = raised

  -- The end of `_async_marshaled_dispatch`, behind the handler.
  unfoldable pub on_result : Outcome Value → Await
  unfolding respond
  on_result result = respond (encoded host (answer_fault host (marshal host result)))

  -- A method that is not supported raises before there is anything to await.
  abbrev pub at_handler : Outcome Value → Option Place → Await
  at_handler result none = on_result result
  at_handler result (some place) = calling place result

  abbrev pub at_dispatch : Dispatched host → App Object × Await
  at_dispatch d = (d.app, at_handler d.outcome d.place)

  -- From the parsed body to the handler, or to the response to a body that was not parsed.
  unfoldable pub on_call : ℕ → App Object → Outcome (Call Value) → App Object × Await
  unfolding async_dispatch on_result respond
  on_call k a (value request) =
      at_dispatch (async_dispatch host k a (method_name host request.method) request.params)
  on_call k a failed = (
    a,
    respond (
        encoded host
          (host.dumps_fault (negsuc 32_699) (codes "Parse error: " ++ host.exception_text failed))),
  )

  unfoldable pub on_body : ℕ → App Object → Bytes → App Object × Await
  unfolding on_call
  on_body k a body =
      if ltb_ℤ a.max_request_size (pos (length body))
      then (a, sending payload_too_large)
      else on_call k a (host.loads body)

  -- One round of `_read_body`, and what follows its last one.
  unfoldable pub on_event : ℕ → App Object → List Bytes → Event → App Object × Await
  unfolding on_body join
  on_event k a chunks e =
      let chunks' = append_chunk chunks (body_chunk e) in
      if has_more e then (a, receiving chunks') else on_body k a (join chunks')

  abbrev pub on_sent : List Message → Await
  on_sent [] = finished
  on_sent (m ∷ ms) = sending (m ∷ ms)

  pub record Loop : Type 0 where
    pub app : App Object
    pub lifespan : Bool  -- whether the lifespan call waits for an event
    pub tasks : List Task
    pub jobs : Jobs
    pub lifespan_sent : List Message  -- what the lifespan call has sent

  -- Before the first request.
  abbrev pub new_loop : App Object → Bool → Loop
  new_loop a lifespan = record {
    app = a;
    lifespan = lifespan;
    tasks = [];
    jobs = [];
    lifespan_sent = [];
  }

  -- A handler that starts in a pool of threads is a job there.
  abbrev pub with_job : ℕ → Await → Jobs → Jobs
  with_job i (calling event_loop result) jobs = jobs
  with_job i (calling place result) jobs = (i, place) ∷ jobs
  with_job i _ jobs = jobs

  -- What a request does when it is woken; `none` where it does not wait for that.
  abbrev pub wake_received : ℕ → App Object → Event → Task → Await → Option (App Object × Task)
  wake_received i a e t (receiving chunks) =
      let (a', next) = on_event i a chunks e in
      some (a', record t { events = t.events ++ e ∷ []; await = next })
  wake_received i a e t _ = none

  abbrev pub wake_completed : App Object → Task → Await → Option (App Object × Task)
  wake_completed a t (calling place result) = some (a, record t { await = on_result result })
  wake_completed a t _ = none

  abbrev pub wake_taken : App Object → Task → Await → Option (App Object × Task)
  wake_taken a t (sending (m ∷ ms)) =
      some (a, record t { sent = t.sent ++ m ∷ []; await = on_sent ms })
  wake_taken a t _ = none

  abbrev pub wake_interrupted : App Object → Task → Await → Option (App Object × Task)
  wake_interrupted a t (receiving chunks) = some (a, record t { await = cut_off })
  wake_interrupted a t (calling place result) = some (a, record t { await = cut_off })
  wake_interrupted a t (sending ms) = some (a, record t { await = cut_off })
  wake_interrupted a t _ = none

  abbrev pub stored : Loop → ℕ → Option (App Object × Task) → Option Loop
  stored l i none = none
  stored l i (some (a, t)) =
      some (record l { app = a; tasks = set l.tasks i t; jobs = with_job i t.await l.jobs })

  -- Wakes the request with the number `i`.
  abbrev pub wake_task :
      Loop
      → ℕ
      → (App Object → Task → Await → Option (App Object × Task))
      → Option Task
      → Option Loop
  wake_task l i act none = none
  wake_task l i act (some t) = stored l i (act l.app t t.await)

  abbrev pub resumed : Loop → App Object × List Message × Bool → Loop
  resumed l (a, sent, goes_on) = record l {
    app = a;
    lifespan = goes_on;
    lifespan_sent = l.lifespan_sent ++ sent;
  }

  -- `none` where nothing waits to be woken so.
  unfoldable pub wake : Wake → Loop → Option Loop
  unfolding start_http on_event on_result lifespan_round close
  wake (lifespan_event e) l =
      if l.lifespan && may_take l.app.executor l.jobs e
      then some (resumed l (lifespan_round e l.app))
      else none
  wake (arrival scope) l = some (record l {
    tasks =
        l.tasks
        ++ record { scope = scope; events = []; sent = []; await = start_http l.app scope } ∷ [];
  })
  wake (received i e) l = wake_task l i (λ a t w. wake_received i a e t w) (get_elem? l.tasks i)
  wake (completed i) l =
      if has_job i l.jobs then none else wake_task l i wake_completed (get_elem? l.tasks i)
  wake (taken i) l = wake_task l i wake_taken (get_elem? l.tasks i)
  wake (interrupted i) l = wake_task l i wake_interrupted (get_elem? l.tasks i)
  wake closing l =
      if may_shut l.app.executor l.jobs then some (record l { app = close l.app }) else none
  wake (thread_ended i) l =
      if has_job i l.jobs then some (record l { jobs = end_job i l.jobs }) else none

  abbrev pub and_then : (Loop → Option Loop) → Option Loop → Option Loop
  and_then f none = none
  and_then f (some l) = f l

  unfoldable pub run_loop : List Wake → Loop → Option Loop
  unfolding wake
  run_loop [] l = some l
  run_loop (w ∷ ws) l = and_then (run_loop ws) (wake w l)
