-- ===== src/Asgi/Loop/Answers.antt =====
-- However the requests are interleaved, each sends what it would send alone.
use xmlrpc_extended.Prelude.{
  ℕ, ◌≡◌, refl, sym, ap, subst, ◌∙◌, inl, inr, Option-cases, Bool, false, List, [], ◌∷◌, ◌++◌,
  append_assoc, some, arith, get_elem?, get_elem?-set_cases, get_elem?-snoc_cases,
}
use mathlib.Core.Option.{some-injective}
use xmlrpc_extended.Python.Text.{Bytes}
use xmlrpc_extended.Asgi.Host.{Outcome, value, Host}
use xmlrpc_extended.Asgi.App.{App}
use xmlrpc_extended.Asgi.Body.{Event}
use xmlrpc_extended.Asgi.Dispatch.{Place}
use xmlrpc_extended.Asgi.Http.{Message, Scope}
use xmlrpc_extended.Asgi.Loop.{
  Wake, Await, receiving, calling, sending, cut_off, Task, start_http, on_result, on_event, on_sent,
  Loop, wake, run_loop, new_loop,
}
use xmlrpc_extended.Asgi.Loop.Steps.{
  is_over, Acts, acts_received, acts_completed, acts_taken, acts_interrupted, WakeBy, by_lifespan,
  by_arrival, by_request, by_thread, by_closing, wake-WakeBy,
}
use xmlrpc_extended.Asgi.Loop.Keeps.{
  IsAppOf, IsAppOf-trans, close-IsAppOf, lifespan_round-IsAppOf, on_event-Keeps,
}
use xmlrpc_extended.Asgi.Loop.Follows.{
  Follows, start_http-Follows, on_result-Follows, on_event-Follows,
}

module _ (host : Host) where
  open host use {Value, Object}

  -- The same of the request with the number `k` as it stands.
  abbrev pub Answers : ℕ → App Object → Task host → Type 0
  Answers k a t = Follows host k a t.scope t.events t.sent t.await

  module _ (a : App Object) where
    interrupted-Follows :
        (k : ℕ) (scope : Scope) (es : List Event) (sent : List Message) (at : Await host)
        → is_over host at ≡ false
        → Follows host k a scope es sent at
        → Follows host k a scope es sent cut_off
    interrupted-Follows k scope es sent (receiving chunks) h f = inl f.0
    interrupted-Follows k scope es sent (calling place result) h f = inl f.0
    interrupted-Follows k scope es sent (sending ms) h f = inr (ms, f)
    interrupted-Follows k scope es sent at h f = cc

    on_sent-Follows :
        (k : ℕ) (scope : Scope) (es : List Event) (sent : List Message) (m : Message)
        (ms : List Message)
        → Follows host k a scope es sent (sending (m ∷ ms))
        → Follows host k a scope es (sent ++ m ∷ []) (on_sent host ms)
    on_sent-Follows k scope es sent m [] f = f
    on_sent-Follows k scope es sent m (n ∷ ms) (d, done, e) = (
      d,
      done,
      e ∙ ap {B = Outcome (List Message)} value (sym (append_assoc sent (m ∷ []) (n ∷ ms))),
    )

    received-Follows :
        (k : ℕ) (b : App Object) (scope : Scope) (es : List Event) (sent : List Message)
        (chunks : List Bytes) (e : Event)
        → IsAppOf a b
        → Follows host k a scope es sent (receiving chunks)
        → Follows host k a scope (es ++ e ∷ []) sent (on_event host k b chunks e).1
    received-Follows k b scope es sent chunks e (x, p, same) f =
        subst (λ c. Follows host k a scope (es ++ e ∷ []) sent (on_event host k c chunks e).1)
          (sym same)
          (subst
            (λ s.
              Follows host k a scope (es ++ e ∷ []) s
                (on_event host k (record a { executor = x; pools = p }) chunks e).1)
            (sym f.0) (on_event-Follows host k a scope x p es chunks e (refl, f.1)))

    result-Follows :
        (k : ℕ) (scope : Scope) (es : List Event) (sent : List Message) (place : Place)
        (result : Outcome Value)
        → Follows host k a scope es sent (calling place result)
        → Follows host k a scope es sent (on_result host result)
    result-Follows k scope es sent place result f =
        subst (λ s. Follows host k a scope es s (on_result host result)) (sym f.0)
          (on_result-Follows host k a scope es result f.1)

    -- What a request has awaited is what it stood at.
    at_await :
        (k : ℕ) (t : Task host) (w : Await host)
        → t.await ≡ w
        → Answers k a t
        → Follows host k a t.scope t.events t.sent w
    at_await k t w at f = subst (Follows host k a t.scope t.events t.sent) at f

    Acts-Answers :
        (k : ℕ) (b b' : App Object) (t t' : Task host)
        → IsAppOf a b
        → Acts host k b t b' t'
        → Answers k a t
        → IsAppOf a b' × Answers k a t'
    Acts-Answers k b b' t t' x (acts_received chunks e at same next) f = (
      subst (IsAppOf a) (sym same)
          (IsAppOf-trans a b _ x (on_event-Keeps host k b chunks e).fields),
      subst (Answers k a) (sym next)
          (received-Follows k b t.scope t.events t.sent chunks e x (at_await k t _ at f)),
    )
    Acts-Answers k b b' t t' x (acts_completed place result at same next) f = (
      subst (IsAppOf a) (sym same) x,
      subst (Answers k a) (sym next)
          (result-Follows k t.scope t.events t.sent place result (at_await k t _ at f)),
    )
    Acts-Answers k b b' t t' x (acts_taken m ms at same next) f = (
      subst (IsAppOf a) (sym same) x,
      subst (Answers k a) (sym next)
          (on_sent-Follows k t.scope t.events t.sent m ms (at_await k t _ at f)),
    )
    Acts-Answers k b b' t t' x (acts_interrupted at same next) f = (
      subst (IsAppOf a) (sym same) x,
      subst (Answers k a) (sym next) (interrupted-Follows k t.scope t.events t.sent t.await at f),
    )

    -- The executor and the pools aside, the application is `a`, and every request follows.
    pub record IsFaithful (l : Loop host) : Type 0 where
      pub app : IsAppOf a l.app
      pub answers : (i : ℕ) (t : Task host) → get_elem? l.tasks i ≡ some t → Answers i a t

    start-Follows :
        (k : ℕ) (b : App Object) (scope : Scope)
        → IsAppOf a b
        → Follows host k a scope [] [] (start_http host b scope)
    unfolding start_http
    start-Follows k b scope (e, p, same) =
        subst (λ c. Follows host k a scope [] [] (start_http host c scope)) (sym same)
          (start_http-Follows host k a scope)

    WakeBy-IsFaithful :
        (l l' : Loop host) (w : Wake) → IsFaithful l → WakeBy host l l' w → IsFaithful l'
    WakeBy-IsFaithful l l' w h (by_lifespan e at takes same) = subst IsFaithful (sym same) (record {
      app = IsAppOf-trans a l.app _ h.app (lifespan_round-IsAppOf e l.app);
      answers = h.answers;
    })
    WakeBy-IsFaithful l l' w h (by_arrival scope at same) = subst IsFaithful (sym same) (record {
      app = h.app;
      answers = λ i t e. elim (get_elem?-snoc_cases l.tasks i _ t e) [
        | inl new ↦ subst (Answers i a) new (start-Follows i l.app scope h.app)
        | inr old ↦ h.answers i t old
      ];
    })
    WakeBy-IsFaithful l l' w h (by_request i t a' t' at got acts same) =
        let (app, answers) = Acts-Answers i l.app a' t t' h.app acts (h.answers i t got) in
        subst IsFaithful (sym same) (record {
          app = app;
          answers = λ j u e. elim (get_elem?-set_cases l.tasks i j t' u e) [
            | inl (here, new) ↦ subst (λ n. Answers n a u) here (subst (Answers i a) new answers)
            | inr (elsewhere, old) ↦ h.answers j u old
          ];
        })
    WakeBy-IsFaithful l l' w h (by_closing at drained same) =
        subst IsFaithful (sym same) (record {
          app = IsAppOf-trans a l.app _ h.app (close-IsAppOf l.app);
          answers = h.answers;
        })
    WakeBy-IsFaithful l l' w h (by_thread i at same) =
        subst IsFaithful (sym same) (record { app = h.app; answers = h.answers })

    run_loop-IsFaithful :
        (ws : List Wake) (l l' : Loop host)
        → IsFaithful l
        → run_loop host ws l ≡ some l'
        → IsFaithful l'
    unfolding run_loop
    run_loop-IsFaithful [] l l' h e = subst IsFaithful (some-injective _ _ e) h
    run_loop-IsFaithful (w ∷ ws) l l' h e = elim (Option-cases (wake host w l)) [
      | inl waits ↦ absurd (ground arith)
      | inr (u, done) ↦
          run_loop-IsFaithful ws u l' (WakeBy-IsFaithful l u w h (wake-WakeBy host l u w done))
            (rw done at e)
    ]

    -- From an application without requests, whose functions may end another way for each request:
    -- however lifespan events, arrivals, pieces of bodies, ends of handlers, sends, interruptions
    -- and calls of `close()` follow one another, each request has sent what it would have sent alone
    -- with its own function's end, up to where it stands. It is finished when it has sent all of it,
    -- it has raised where it would have raised alone, and one that was cut off has sent a first part
    -- of it.
    pub run_loop-Answers :
        (lifespan : Bool) (ws : List Wake) (l : Loop host) (i : ℕ) (t : Task host)
        → run_loop host ws (new_loop host a lifespan) ≡ some l
        → get_elem? l.tasks i ≡ some t
        → Answers i a t
    run_loop-Answers lifespan ws l i t e got =
        (run_loop-IsFaithful ws _ l
            (record { app = (a.executor, a.pools, refl); answers = λ j u h. cc }) e).answers
          i t got
