-- ===== src/Asgi/Loop/Sessions.antt =====
-- The thread pool of a session with many requests at once.
use xmlrpc_extended.Prelude.{
  ℕ, suc, ◌≡◌, refl, sym, ap, subst, ◌∙◌, inl, inr, Option-cases, true, false, List, [], ◌∷◌, ◌++◌,
  Option, none, some, arith,
}
use mathlib.Core.Option.{some-injective}
use xmlrpc_extended.Asgi.Host.{Host}
use xmlrpc_extended.Asgi.App.{App, make_executor, close, remove}
use xmlrpc_extended.Asgi.Body.{Event}
use xmlrpc_extended.Asgi.Http.{startup_complete, shutdown_complete}
use xmlrpc_extended.Asgi.Lifespan.Laws.{is_startup, is_shutdown, startup-shutdown, shutdown-startup}
use xmlrpc_extended.Asgi.Session.Laws.{remove_only}
use xmlrpc_extended.Asgi.Jobs.{is_drained, may_shut}
use xmlrpc_extended.Asgi.Loop.{
  Wake, lifespan_event, arrival, received, completed, taken, interrupted, thread_ended, closing,
  Task, Loop, wake, run_loop,
}
use xmlrpc_extended.Asgi.Loop.Steps.{
  Acts, acts_received, acts_completed, acts_taken, acts_interrupted, WakeBy, by_lifespan,
  by_arrival, by_request, by_thread, by_closing, wake-WakeBy,
}
use xmlrpc_extended.Asgi.Loop.Keeps.{on_event-Keeps}

-- No event of the lifespan call and no call of `close()` is among them.
abbrev pub AreRequests : List Wake → Type 0
AreRequests [] = Unit {0}
AreRequests (lifespan_event e ∷ ws) = ⊥
AreRequests (closing ∷ ws) = ⊥
AreRequests (w ∷ ws) = AreRequests ws

module _ (host : Host) where
  open host use {Object}

  Acts-keeps :
      (k : ℕ) (a a' : App Object) (t t' : Task host) (p : ℕ)
      → a.executor ≡ some p
      → Acts host k a t a' t'
      → a' ≡ a
  Acts-keeps k a a' t t' p h (acts_received chunks e at same next) =
      same ∙ (on_event-Keeps host k a chunks e).kept p h
  Acts-keeps k a a' t t' p h (acts_completed place result at same next) = same
  Acts-keeps k a a' t t' p h (acts_taken m ms at same next) = same
  Acts-keeps k a a' t t' p h (acts_interrupted at same next) = same

  WakeBy-keeps :
      (l l' : Loop host) (w : Wake) (ws : List Wake) (p : ℕ)
      → AreRequests (w ∷ ws)
      → l.app.executor ≡ some p
      → WakeBy host l l' w
      → (l'.app ≡ l.app) × (l'.lifespan ≡ l.lifespan) × (l'.lifespan_sent ≡ l.lifespan_sent)
  WakeBy-keeps l l' w ws p calm h (by_lifespan e at takes same) =
      absurd (subst (λ v. AreRequests (v ∷ ws)) at calm)
  WakeBy-keeps l l' w ws p calm h (by_arrival scope at same) =
      (ap (λ m. m.app) same, ap (λ m. m.lifespan) same, ap (λ m. m.lifespan_sent) same)
  WakeBy-keeps l l' w ws p calm h (by_request i t a' t' at got acts same) = (
    ap (λ m. m.app) same ∙ Acts-keeps i l.app a' t t' p h acts,
    ap (λ m. m.lifespan) same,
    ap (λ m. m.lifespan_sent) same,
  )
  WakeBy-keeps l l' w ws p calm h (by_closing at drained same) =
      absurd (subst (λ v. AreRequests (v ∷ ws)) at calm)
  WakeBy-keeps l l' w ws p calm h (by_thread i at same) =
      (ap (λ m. m.app) same, ap (λ m. m.lifespan) same, ap (λ m. m.lifespan_sent) same)

  AreRequests-tail : (w : Wake) (ws : List Wake) → AreRequests (w ∷ ws) → AreRequests ws
  AreRequests-tail (lifespan_event e) ws h = absurd h
  AreRequests-tail (arrival scope) ws h = h
  AreRequests-tail (received i e) ws h = h
  AreRequests-tail (completed i) ws h = h
  AreRequests-tail (taken i) ws h = h
  AreRequests-tail (interrupted i) ws h = h
  AreRequests-tail closing ws h = absurd h
  AreRequests-tail (thread_ended i) ws h = h

  requests_keep :
      (ws rest : List Wake) (l u : Loop host) (p : ℕ)
      → AreRequests ws
      → l.app.executor ≡ some p
      → run_loop host ws l ≡ some u
      → (u.app ≡ l.app)
        × (u.lifespan ≡ l.lifespan)
        × (u.lifespan_sent ≡ l.lifespan_sent)
        × (run_loop host (ws ++ rest) l ≡ run_loop host rest u)
  unfolding run_loop
  requests_keep [] rest l u p calm h e =
      let same = some-injective _ _ e in
      (
        ap (λ m. m.app) (sym same),
        ap (λ m. m.lifespan) (sym same),
        ap (λ m. m.lifespan_sent) (sym same),
        ap (run_loop host rest) same,
      )
  requests_keep (w ∷ ws) rest l u p calm h e = elim (Option-cases (wake host w l)) [
    | inl waits ↦ absurd (ground arith)
    | inr (v, done) ↦
        let (app, lifespan, sent) = WakeBy-keeps l v w ws p calm h (wake-WakeBy host l v w done) in
        let (app', lifespan', sent', runs) =
          requests_keep ws rest v u p (AreRequests-tail w ws calm) (ap (λ a. a.executor) app ∙ h)
            (rw done at e) in
        (app' ∙ app, lifespan' ∙ lifespan, sent' ∙ sent, rw done runs)
  ]

  abbrev pub started : Loop host → Loop host
  started l = record l {
    app = make_executor l.app;
    lifespan = true;
    lifespan_sent = l.lifespan_sent ++ startup_complete ∷ [];
  }

  abbrev pub shut_down : Loop host → Loop host
  shut_down l = record l {
    app = close l.app;
    lifespan = false;
    lifespan_sent = l.lifespan_sent ++ shutdown_complete ∷ [];
  }

  wake_start :
      (l : Loop host) (e : Event)
      → l.lifespan ≡ true
      → is_startup e ≡ true
      → wake host (lifespan_event e) l ≡ some (started l)
  unfolding wake
  wake_start l e waits starts = rw (waits, startup-shutdown e starts, starts) refl

  pub wake_stop :
      (l : Loop host) (e : Event)
      → l.lifespan ≡ true
      → is_shutdown e ≡ true
      → may_shut l.app.executor l.jobs ≡ true
      → wake host (lifespan_event e) l ≡ some (shut_down l)
  unfolding wake
  wake_stop l e waits stops drained = rw (waits, shutdown-startup e stops, stops, drained) refl

  close-make_executor :
      (a : App Object)
      → a.pools.live ≡ []
      → close (make_executor a)
        ≡ record a { executor = none; pools = record { made = suc a.pools.made; live = [] } }
  unfolding close make_executor
  close-make_executor a dead =
      ap {B = App Object}
        (λ l. record a { executor = none; pools = record { made = suc a.pools.made; live = l } })
        (ap (λ l. remove a.pools.made (a.pools.made ∷ l)) dead ∙ remove_only a.pools.made)

  -- When no pool is live, a lifespan call waits, and a startup, any interleaving of requests, until
  -- no function runs in the startup's pool any more, and then a shutdown follow: the startup and the
  -- shutdown are taken and answered, the application does not change while the requests run, and in
  -- all one pool is made, the startup's, and none is live in the end, also if requests are not
  -- finished then.
  pub session_interleaved :
      (l u : Loop host) (start stop : Event) (ws : List Wake)
      → l.app.pools.live ≡ []
      → l.lifespan ≡ true
      → is_startup start ≡ true
      → is_shutdown stop ≡ true
      → AreRequests ws
      → run_loop host ws (started l) ≡ some u
      → is_drained l.app.pools.made u.jobs ≡ true
      → (u.app ≡ make_executor l.app)
        × (u.lifespan_sent ≡ l.lifespan_sent ++ startup_complete ∷ [])
        × (run_loop host (lifespan_event start ∷ (ws ++ lifespan_event stop ∷ [])) l
            ≡ some (record u {
              app = record l.app {
                executor = none;
                pools = record { made = suc l.app.pools.made; live = [] };
              };
              lifespan = false;
              lifespan_sent = u.lifespan_sent ++ shutdown_complete ∷ [];
            }))
  unfolding run_loop
  session_interleaved l u start stop ws dead waits starts stops calm e drained =
      let (app, lifespan, sent, runs) =
        requests_keep ws (lifespan_event stop ∷ []) (started l) u l.app.pools.made calm refl e in
      (
        app,
        sent,
        rw (wake_start l start waits starts) (
            runs
            ∙ rw
                (wake_stop u stop lifespan stops
                  (ap (λ a. may_shut a.executor u.jobs) app ∙ drained))
                (ap {B = Option (Loop host)} (λ a. some (record (shut_down u) { app = a }))
                  (ap close app ∙ close-make_executor l.app dead))),
      )
