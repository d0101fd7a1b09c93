-- ===== src/Asgi/Loop/Pools.antt =====
-- Which pools are live while requests run, and where their handlers start.
use xmlrpc_extended.Prelude.{
  ℕ, ◌≤◌, ◌≡◌, sym, ap, subst, ◌∙◌, inl, inr, Bool-cases, Option-cases, Bool, true, List, [], ◌∷◌,
  none, some, arith, length, get_elem?, get_elem?-set_cases, get_elem?-append_left,
}
use mathlib.Core.Option.{some-injective}
use xmlrpc_extended.Asgi.Host.{Host}
use xmlrpc_extended.Asgi.App.{App, close}
use xmlrpc_extended.Asgi.App.Laws.{IsTidy, owned, startup-IsTidy, close-IsTidy, close_frees}
use xmlrpc_extended.Asgi.Body.{Event}
use xmlrpc_extended.Asgi.Http.{Message}
use xmlrpc_extended.Asgi.Lifespan.Laws.{is_startup, is_shutdown}
use xmlrpc_extended.Asgi.Session.{lifespan_round}
use xmlrpc_extended.Asgi.Loop.{
  Wake, lifespan_event, Task, Loop, new_loop, wake, run_loop, on_result, on_sent,
}
use xmlrpc_extended.Asgi.Loop.Steps.{
  Acts, acts_received, acts_completed, acts_taken, acts_interrupted, WakeBy, by_lifespan,
  by_arrival, by_request, by_thread, by_closing, wake-WakeBy,
}
use xmlrpc_extended.Asgi.Loop.Keeps.{StartsIn, on_event-Keeps, respond-not_StartsIn}

lifespan_round-IsTidy :
    {Object : Type 0} (e : Event) (a : App Object)
    → (is_startup e ≡ true → a.executor ≡ none)
    → IsTidy a
    → IsTidy (lifespan_round e a).0
unfolding lifespan_round
lifespan_round-IsTidy e a fresh tidy = elim (Bool-cases (is_startup e)) [
  | inl starts ↦ rw (starts, lifespan_round) (startup-IsTidy a tidy (fresh starts))
  | inr other ↦ elim (Bool-cases (is_shutdown e)) [
    | inl stops ↦ rw (other, stops, lifespan_round) (close-IsTidy a tidy)
    | inr passed ↦ rw (other, passed, lifespan_round) tidy
  ]
]

owned-le_one : {Object : Type 0} (a : App Object) → IsTidy a → length a.pools.live ≤ 1
owned-le_one a tidy = ground arith

module _ (host : Host) where
  open host use {Value, Object}

  -- A startup finds no executor.
  abbrev pub IsFresh : Wake → Loop host → Type 0
  IsFresh (lifespan_event e) l = is_startup e ≡ true → l.app.executor ≡ none
  IsFresh _ l = Unit {0}

  -- Every startup of the run does.
  abbrev pub AreFresh : List Wake → Loop host → Type 0
  AreFresh [] l = Unit {0}
  AreFresh (w ∷ ws) l = IsFresh w l × ((u : Loop host) → wake host w l ≡ some u → AreFresh ws u)

  Acts-IsTidy :
      (k : ℕ) (a a' : App Object) (t t' : Task host) → IsTidy a → Acts host k a t a' t' → IsTidy a'
  Acts-IsTidy k a a' t t' h (acts_received chunks e at same next) =
      subst IsTidy (sym same) ((on_event-Keeps host k a chunks e).tidy h)
  Acts-IsTidy k a a' t t' h (acts_completed place result at same next) = subst IsTidy (sym same) h
  Acts-IsTidy k a a' t t' h (acts_taken m ms at same next) = subst IsTidy (sym same) h
  Acts-IsTidy k a a' t t' h (acts_interrupted at same next) = subst IsTidy (sym same) h

  WakeBy-IsTidy :
      (l l' : Loop host) (w : Wake)
      → IsFresh w l
      → IsTidy l.app
      → WakeBy host l l' w
      → IsTidy l'.app
  WakeBy-IsTidy l l' w fresh h (by_lifespan e at takes same) =
      subst (λ m. IsTidy m.app) (sym same)
        (lifespan_round-IsTidy e l.app (subst (λ v. IsFresh v l) at fresh) h)
  WakeBy-IsTidy l l' w fresh h (by_arrival scope at same) = subst (λ m. IsTidy m.app) (sym same) h
  WakeBy-IsTidy l l' w fresh h (by_request i t a' t' at got acts same) =
      subst (λ m. IsTidy m.app) (sym same) (Acts-IsTidy i l.app a' t t' h acts)
  WakeBy-IsTidy l l' w fresh h (by_closing at drained same) =
      subst (λ m. IsTidy m.app) (sym same) (close-IsTidy l.app h)
  WakeBy-IsTidy l l' w fresh h (by_thread i at same) = subst (λ m. IsTidy m.app) (sym same) h

  run_loop-IsTidy :
      (ws : List Wake) (l l' : Loop host)
      → AreFresh ws l
      → IsTidy l.app
      → run_loop host ws l ≡ some l'
      → IsTidy l'.app
  unfolding run_loop
  run_loop-IsTidy [] l l' fresh h e = subst (λ m. IsTidy m.app) (some-injective _ _ e) h
  run_loop-IsTidy (w ∷ ws) l l' fresh h e = elim (Option-cases (wake host w l)) [
    | inl waits ↦ absurd (ground arith)
    | inr (u, done) ↦
        run_loop-IsTidy ws u l' (fresh.1 u done)
          (WakeBy-IsTidy l u w fresh.0 h (wake-WakeBy host l u w done)) (rw done at e)
  ]

  -- A request that has just been woken and now runs its handler in a pool, runs it in the executor.
  on_sent-not_StartsIn : (ms : List Message) (p : ℕ) → ¬ StartsIn host p (on_sent host ms)
  on_sent-not_StartsIn [] p (result, e) = cc
  on_sent-not_StartsIn (m ∷ ms) p (result, e) = cc

  pub Acts-used :
      (k : ℕ) (a a' : App Object) (t t' : Task host) (p : ℕ)
      → Acts host k a t a' t'
      → StartsIn host p t'.await
      → a'.executor ≡ some p
  unfolding on_result
  Acts-used k a a' t t' p (acts_received chunks e at same next) s =
      ap (λ b. b.executor) same
      ∙ (on_event-Keeps host k a chunks e).used p (subst (λ u. StartsIn host p u.await) next s)
  Acts-used k a a' t t' p (acts_completed place result at same next) s =
      absurd (respond-not_StartsIn host _ p (subst (λ u. StartsIn host p u.await) next s))
  Acts-used k a a' t t' p (acts_taken m ms at same next) s =
      absurd (on_sent-not_StartsIn ms p (subst (λ u. StartsIn host p u.await) next s))
  Acts-used k a a' t t' p (acts_interrupted at same next) s =
      let (result, e) = subst (λ u. StartsIn host p u.await) next s in cc

  -- Whoever newly runs its handler in a pool is the one that was woken.
  WakeBy-used :
      (l l' : Loop host) (w : Wake) (i p : ℕ) (t t' : Task host)
      → get_elem? l.tasks i ≡ some t
      → get_elem? l'.tasks i ≡ some t'
      → ¬ StartsIn host p t.await
      → StartsIn host p t'.await
      → WakeBy host l l' w
      → l'.app.executor ≡ some p
  WakeBy-used l l' w i p t t' got got' old new (by_lifespan e at takes same) =
      let kept = sym got ∙ sym (ap (λ m. get_elem? m.tasks i) same) ∙ got' in
      absurd (old (subst (λ u. StartsIn host p u.await) (sym (some-injective _ _ kept)) new))
  WakeBy-used l l' w i p t t' got got' old new (by_arrival scope at same) =
      let kept =
        sym (get_elem?-append_left l.tasks _ i t got)
        ∙ sym (ap (λ m. get_elem? m.tasks i) same)
        ∙ got' in
      absurd (old (subst (λ u. StartsIn host p u.await) (sym (some-injective _ _ kept)) new))
  WakeBy-used l l' w i p t t' got got' old new (by_closing at drained same) =
      let kept = sym got ∙ sym (ap (λ m. get_elem? m.tasks i) same) ∙ got' in
      absurd (old (subst (λ u. StartsIn host p u.await) (sym (some-injective _ _ kept)) new))
  WakeBy-used l l' w i p t t' got got' old new (by_thread j at same) =
      let kept = sym got ∙ sym (ap (λ m. get_elem? m.tasks i) same) ∙ got' in
      absurd (old (subst (λ u. StartsIn host p u.await) (sym (some-injective _ _ kept)) new))
  WakeBy-used l l' w i p t t' got got' old new (by_request j v a' v' at at_j acts same) =
      elim (get_elem?-set_cases l.tasks j i v' t'
        (sym (ap (λ m. get_elem? m.tasks i) same) ∙ got')) [
          | inl (here, now) ↦
              ap (λ m. m.app.executor) same
              ∙ Acts-used j l.app a' v v' p acts
                  (subst (λ u. StartsIn host p u.await) (sym now) new)
          | inr (elsewhere, kept) ↦ absurd (
              old (
                subst (λ u. StartsIn host p u.await) (sym (some-injective _ _ (sym got ∙ kept)))
                  new))
        ]

  module _ (a : App Object) (lifespan : Bool) (ws : List Wake) (l : Loop host) where
    abbrev empty : Loop host
    empty = new_loop host a lifespan

    -- From an application whose live pools are its own executor at most, with no request yet:
    -- however requests, startups that find no executor, shutdowns and calls of `close()` are
    -- interleaved, at most one pool is live, and a last `close()` leaves none.
    pub loop_frees_all :
        IsTidy a
        → AreFresh ws empty
        → run_loop host ws empty ≡ some l
        → (length l.app.pools.live ≤ 1) × ((close l.app).pools.live ≡ [])
    loop_frees_all tidy fresh e =
        let tidy' = run_loop-IsTidy ws empty l fresh tidy e in
        (owned-le_one l.app tidy', (close_frees l.app tidy').0)

    -- From an application whose live pools are its own executor at most, with no request yet,
    -- however requests, startups that find no executor, shutdowns and calls of `close()` are
    -- interleaved: when a request is woken and then runs its handler in a pool, that pool is the
    -- application's executor, and it is the only live one. So no handler is given to a pool that was
    -- shut down.
    pub handler_gets_live_pool :
        (w : Wake) (l' : Loop host) (i p : ℕ) (t t' : Task host)
        → IsTidy a
        → AreFresh ws empty
        → run_loop host ws empty ≡ some l
        → IsFresh w l
        → wake host w l ≡ some l'
        → get_elem? l.tasks i ≡ some t
        → get_elem? l'.tasks i ≡ some t'
        → ¬ StartsIn host p t.await
        → StartsIn host p t'.await
        → (l'.app.executor ≡ some p) × (l'.app.pools.live ≡ p ∷ [])
    handler_gets_live_pool w l' i p t t' tidy fresh e fresh' e' got got' old new =
        let by = wake-WakeBy host l l' w e' in
        let tidy' = WakeBy-IsTidy l l' w fresh' (run_loop-IsTidy ws empty l fresh tidy e) by in
        let used = WakeBy-used l l' w i p t t' got got' old new by in
        (used, tidy'.live ∙ ap owned used)
