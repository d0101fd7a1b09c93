-- ===== src/Asgi/Loop/Shutdown.antt =====
-- The shutdown of an application whose handlers may still run in threads.
use xmlrpc_extended.Prelude.{
  ◌≡◌, refl, ◌∙◌, ◌⊎◌, inl, inr, Bool-cases, Bool, true, false, List, [], ◌∷◌, ◌++◌, ==_iff, none,
  some, arith,
}
use xmlrpc_extended.Asgi.Host.{Host}
use xmlrpc_extended.Asgi.App.{App}
use xmlrpc_extended.Asgi.Body.{Event}
use xmlrpc_extended.Asgi.Lifespan.Laws.{is_shutdown}
use xmlrpc_extended.Asgi.Jobs.{Jobs, may_shut}
use xmlrpc_extended.Asgi.Loop.{Wake, lifespan_event, thread_ended, Loop, wake, run_loop, new_loop}
use xmlrpc_extended.Asgi.Loop.Pools.{AreFresh}
use xmlrpc_extended.Asgi.Loop.Sessions.{shut_down, wake_stop}
use xmlrpc_extended.Asgi.Loop.Drain.{
  AreDefault, AreOurs-AreDefault, AreDefault-may_shut, may_shut-AreOurs, run_loop-AreOurs,
}

-- The threads end, one after the other.
abbrev pub all_end : Jobs → List Wake
all_end [] = []
all_end ((i, place) ∷ jobs) = thread_ended i ∷ all_end jobs

module _ (host : Host) where
  open host use {Object}

  wake_held :
      (l : Loop host) (e : Event)
      → is_shutdown e ≡ true
      → may_shut l.app.executor l.jobs ≡ false
      → wake host (lifespan_event e) l ≡ none
  unfolding wake
  wake_held l e stops runs = elim (Bool-cases l.lifespan) [
    | inl waits ↦ rw (waits, stops, runs, wake) refl
    | inr over ↦ rw (over, wake) refl
  ]

  -- From an application that has served nothing yet, in a run in which each startup finds no
  -- executor, a shutdown comes while the lifespan call waits. Where each function that runs is in
  -- asyncio's default pool, it shuts the executor down and these functions run on. Where a function
  -- of any request, also of one that was interrupted, is in another pool, the shutdown is held.
  pub shutdown_waits :
      (a : App Object) (lifespan : Bool) (ws : List Wake) (l : Loop host) (stop : Event)
      → AreFresh host ws (new_loop host a lifespan)
      → run_loop host ws (new_loop host a lifespan) ≡ some l
      → l.lifespan ≡ true
      → is_shutdown stop ≡ true
      → (AreDefault l.jobs × (wake host (lifespan_event stop) l ≡ some (shut_down host l)))
        ⊎ ((¬ AreDefault l.jobs) × (wake host (lifespan_event stop) l ≡ none))
  shutdown_waits a lifespan ws l stop fresh e waits stops =
      let ours = run_loop-AreOurs host ws _ l fresh tt e in
      elim (Bool-cases (may_shut l.app.executor l.jobs)) [
        | inl drained ↦ inl (
          AreOurs-AreDefault l.jobs (may_shut-AreOurs l.app.executor l.jobs ours drained),
          wake_stop host l stop waits stops drained,
        )
        | inr runs ↦ inr (
          λ h. ground (arith, runs, AreDefault-may_shut l.app.executor l.jobs h),
          wake_held l stop stops runs,
        )
      ]

  run_all_end :
      (jobs : Jobs) (l : Loop host) (rest : List Wake)
      → run_loop host (all_end jobs ++ rest) (record l { jobs = jobs })
        ≡ run_loop host rest (record l { jobs = [] })
  unfolding run_loop
  run_all_end [] l rest = refl
  run_all_end ((i, place) ∷ jobs) l rest = rw ((==_iff i i).1 refl) (run_all_end jobs l rest)

  -- However many functions run, in whatever pools: when a shutdown comes while the lifespan call
  -- waits and their threads end, one after the other, it is taken.
  pub shutdown_comes :
      (l : Loop host) (stop : Event)
      → l.lifespan ≡ true
      → is_shutdown stop ≡ true
      → run_loop host (all_end l.jobs ++ lifespan_event stop ∷ []) l
        ≡ some (record (shut_down host l) { jobs = [] })
  unfolding run_loop
  shutdown_comes l stop waits stops =
      run_all_end l.jobs l _
      ∙ rw
          (wake_stop host (record l { jobs = [] }) stop waits stops
            (AreDefault-may_shut l.app.executor [] tt))
          refl
