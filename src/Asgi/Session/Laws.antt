-- ===== src/Asgi/Session/Laws.antt =====
-- The thread pool of a session: one from its startup to its shutdown, and none after it.
use xmlrpc_extended.Prelude.{
  ℕ, suc, length, ◌≡◌, ◌≢◌, refl, ap, ◌∙◌, inl, inr, Option-cases, Bool-cases, Bool, true, false,
  List, [], ◌∷◌, ◌++◌, Option, none, some, arith, not,
}
use xmlrpc_extended.Prelude.Int.{ltb_ℤ, pos}
use xmlrpc_extended.Python.Headers.{or_default}
use xmlrpc_extended.Python.Text.{Bytes, codes, text_eq}
use xmlrpc_extended.Asgi.Host.{Host, Outcome, value, fault, exception, Call}
use xmlrpc_extended.Asgi.App.{App, make_executor, close, remove}
use xmlrpc_extended.Asgi.Body.{Event, read_body}
use xmlrpc_extended.Asgi.Dispatch.{target, async_dispatch, async_marshaled_dispatch, marshaled}
use xmlrpc_extended.Asgi.Dispatch.Runs.{executor_kept}
use xmlrpc_extended.Asgi.Http.{
  startup_complete, shutdown_complete, Message, Scope, Done, handle_http, with_body, upper,
  not_found, method_not_allowed,
}
use xmlrpc_extended.Asgi.Lifespan.{handle_lifespan, announce}
use xmlrpc_extended.Asgi.Lifespan.Laws.{is_startup, is_shutdown, shutdown-startup}
use xmlrpc_extended.Asgi.Session.{
  lifespan_round, Session, Turn, lifespan_event, request, turn, run_turns,
}

module _ {Object : Type 0} where
  -- The rest of the loop, behind a round.
  unfoldable pub resume :
      List Event
      → App Object × List Message × Bool
      → Option (App Object × List Message × List Event)
  resume es (a, [], true) = handle_lifespan es a
  resume es (a, m ∷ ms, true) = announce m (resume es (a, ms, true))
  resume es (a, sent, false) = some (a, sent, es)

  -- The loop of `_handle_lifespan` is made of these rounds.
  pub handle_lifespan-round :
      (e : Event) (es : List Event) (a : App Object)
      → handle_lifespan (e ∷ es) a ≡ resume es (lifespan_round e a)
  unfolding handle_lifespan lifespan_round resume
  handle_lifespan-round e es a = elim (Bool-cases (is_startup e)) [
    | inl starts ↦ rw (starts) refl
    | inr other ↦ elim (Bool-cases (is_shutdown e)) [
      | inl stops ↦ rw (other, stops) refl
      | inr passed ↦ rw (other, passed) refl
    ]
  ]

pub remove_only : (n : ℕ) → remove n (n ∷ []) ≡ []
unfolding remove
remove_only n = ground arith

module _ (host : Host) where
  open host use {Object, Value}

  marshaled_keeps :
      (k : ℕ) (a : App Object) (p : ℕ) (call : Outcome (Call Value))
      → a.executor ≡ some p
      → (marshaled host k a call).0 ≡ a
  unfolding async_dispatch
  marshaled_keeps k a p (value c) h = executor_kept host k a _ c.params (target host a _) p h
  marshaled_keeps k a p (fault c m) h = refl
  marshaled_keeps k a p (exception n m) h = refl

  with_body_keeps :
      (k : ℕ) (a : App Object) (p : ℕ) (body : Bytes) (left : List Event)
      → a.executor ≡ some p
      → (with_body host k a (body, left)).app ≡ a
  unfolding with_body async_marshaled_dispatch
  with_body_keeps k a p body left h =
      elim (Bool-cases (ltb_ℤ a.max_request_size (pos (length body)))) [
        | inl large ↦ rw (large, with_body) refl
        | inr fits ↦ rw (fits, with_body) (marshaled_keeps k a p (host.loads body) h)
      ]

  -- A request finds the executor of the startup and leaves it there.
  pub request_keeps :
      (k : ℕ) (a : App Object) (p : ℕ) (scope : Scope) (events : List Event)
      → a.executor ≡ some p
      → read_body events ≢ none
      → (d : Done Object) × (handle_http host k a scope events ≡ some d) × (d.app ≡ a)
  unfolding handle_http
  request_keeps k a p scope events h whole =
      elim (Bool-cases (not (text_eq (or_default scope.path (codes "/")) a.rpc_path))) [
        | inl elsewhere ↦ (
          record { app = a; sent = value not_found; left = events },
          rw (elsewhere, handle_http) refl,
          refl,
        )
        | inr here ↦
            elim (Bool-cases
              (not (text_eq (upper (or_default scope.method (codes "GET"))) (codes "POST")))) [
                | inl other ↦ (
                  record { app = a; sent = value method_not_allowed; left = events },
                  rw (here, other, handle_http) refl,
                  refl,
                )
                | inr post ↦ elim (Option-cases (read_body events)) [
                  | inl cut ↦ absurd (whole cut)
                  | inr ((body, left), got) ↦ (
                    with_body host k a (body, left),
                    rw (here, post, got, handle_http) refl,
                    with_body_keeps k a p body left h,
                  )
                ]
              ]
      ]

  -- Requests whose bodies end.
  abbrev pub requests : List (ℕ × Scope × List Event) → List Turn
  requests [] = []
  requests ((k, scope, events) ∷ rs) = request k scope events ∷ requests rs

  abbrev pub HaveBodies : List (ℕ × Scope × List Event) → Type 0
  HaveBodies [] = Unit {0}
  HaveBodies ((k, scope, events) ∷ rs) = (read_body events ≢ none) × HaveBodies rs

  requests_keep :
      (rs : List (ℕ × Scope × List Event)) (rest : List Turn) (s : Session Object) (p : ℕ)
      → s.app.executor ≡ some p
      → HaveBodies rs
      → run_turns host (requests rs ++ rest) s ≡ run_turns host rest s
  unfolding run_turns turn
  requests_keep [] rest s p h whole = refl
  requests_keep ((k, scope, events) ∷ rs) rest s p h whole =
      let (d, done, same) = request_keeps k s.app p scope events h whole.0 in
      rw (done, same, turn) (requests_keep rs rest s p h whole.1)

  pub round_starts :
      (e : Event) (a : App Object)
      → is_startup e ≡ true
      → lifespan_round e a ≡ (make_executor a, startup_complete ∷ [], true)
  unfolding lifespan_round
  round_starts e a starts = rw (starts) refl

  pub round_stops :
      (e : Event) (a : App Object)
      → is_shutdown e ≡ true
      → lifespan_round e a ≡ (close a, shutdown_complete ∷ [], false)
  unfolding lifespan_round
  round_stops e a stops = rw (shutdown-startup e stops, stops) refl

  -- A server starts an application of which no pool is live, sends it requests whose
  -- bodies end, and shuts it down: the session runs to its end, whatever the requests call, and has
  -- made one pool in all, the startup's, which is shut down then.
  pub session_makes_one_pool :
      (a : App Object) (start stop : Event) (rs : List (ℕ × Scope × List Event))
      → a.pools.live ≡ []
      → is_startup start ≡ true
      → is_shutdown stop ≡ true
      → HaveBodies rs
      → run_turns host
          (lifespan_event start ∷ (requests rs ++ lifespan_event stop ∷ []))
          (record { app = a; lifespan = true })
        ≡ some (record {
          app = record a { executor = none; pools = record { made = suc a.pools.made; live = [] } };
          lifespan = false;
        })
  unfolding run_turns turn make_executor close remove
  session_makes_one_pool a start stop rs dead starts stops whole =
      rw
        (
          round_starts start a starts,
          requests_keep rs (lifespan_event stop ∷ [])
              (record { app = make_executor a; lifespan = true }) a.pools.made refl whole,
          round_stops stop (make_executor a) stops,
        )
        (ap {B = Option (Session Object)}
          (λ l. some (record {
            app = record a {
              executor = none;
              pools = record { made = suc a.pools.made; live = l };
            };
            lifespan = false;
          }))
          (ap (λ l. remove a.pools.made (a.pools.made ∷ l)) dead ∙ remove_only a.pools.made))
