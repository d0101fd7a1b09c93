-- ===== src/Asgi/Lifespan/Laws.antt =====
-- The lifespan protocol, from the first startup to the shutdown.
use xmlrpc_extended.Prelude.{
  ℕ, suc, zero, ◌≡◌, ◌≤◌, subst, refl, sym, ap, ◌∙◌, inl, inr, Bool, true, false, Bool-cases,
  if◌then◌else◌, List, [], ◌∷◌, ◌++◌, none, some, arith, replicate,
}
use mathlib.Core.Option.{some-injective}
use xmlrpc_extended.Python.Text.{codes, text_eq, text_eq_sound}
use xmlrpc_extended.Asgi.App.{App, make_executor, close}
use xmlrpc_extended.Asgi.App.Laws.{IsTidy, close_frees, startup-IsTidy}
use xmlrpc_extended.Asgi.Body.{Event}
use xmlrpc_extended.Asgi.Http.{Message, startup_complete, shutdown_complete}
use xmlrpc_extended.Asgi.Lifespan.{handle_lifespan}

abbrev pub is_startup : Event → Bool
is_startup e = text_eq e.type (codes "lifespan.startup")

abbrev pub is_shutdown : Event → Bool
is_shutdown e = text_eq e.type (codes "lifespan.shutdown")

-- How many of the events are startups.
unfoldable pub startups : List Event → ℕ
startups [] = zero
startups (e ∷ es) = if is_startup e then suc (startups es) else startups es

startups-hit :
    (e : Event) (es : List Event) → is_startup e ≡ true → startups (e ∷ es) ≡ suc (startups es)
unfolding startups
startups-hit e es h = rw h refl

startups-miss :
    (e : Event) (es : List Event) → is_startup e ≡ false → startups (e ∷ es) ≡ startups es
unfolding startups
startups-miss e es h = rw h refl

abbrev pub HasNoShutdown : List Event → Type 0
HasNoShutdown [] = Unit {0}
HasNoShutdown (e ∷ es) = (is_shutdown e ≡ false) × HasNoShutdown es

unfoldable pub repeat : {Object : Type 0} → (App Object → App Object) → ℕ → App Object → App Object
repeat f zero a = a
repeat f (suc n) a = repeat f n (f a)

pub shutdown-startup : (e : Event) → is_shutdown e ≡ true → is_startup e ≡ false
unfolding text_eq
shutdown-startup e stop =
    ap (λ t. text_eq t (codes "lifespan.startup"))
      (text_eq_sound e.type (codes "lifespan.shutdown") stop)

pub startup-shutdown : (e : Event) → is_startup e ≡ true → is_shutdown e ≡ false
unfolding text_eq
startup-shutdown e start =
    ap (λ t. text_eq t (codes "lifespan.shutdown"))
      (text_eq_sound e.type (codes "lifespan.startup") start)

module _ {Object : Type 0} where
  -- Every startup up to the shutdown is answered, in order, and makes an executor; the shutdown is
  -- answered last and shuts down the executor that is there; other events are passed over; and what
  -- follows the shutdown is left.
  pub handle_lifespan-answers :
      (es rest : List Event) (e : Event) (a : App Object)
      → HasNoShutdown es
      → is_shutdown e ≡ true
      → handle_lifespan (es ++ e ∷ rest) a
        ≡ some (
          close (repeat make_executor (startups es) a),
          replicate (startups es) startup_complete ++ shutdown_complete ∷ [],
          rest,
        )
  unfolding handle_lifespan repeat startups
  handle_lifespan-answers [] rest e a h stop = rw (shutdown-startup e stop, stop) refl
  handle_lifespan-answers (f ∷ es) rest e a h stop = elim (Bool-cases (is_startup f)) [
    | inl starts ↦
        rw
          (
            startups-hit f es starts,
            starts,
            handle_lifespan-answers es rest e (make_executor a) h.1 stop,
          )
          refl
    | inr other ↦
        rw (startups-miss f es other, other, h.0, handle_lifespan-answers es rest e a h.1 stop) refl
  ]

  -- Without a shutdown among its events the loop does not return.
  pub handle_lifespan-waits :
      (es : List Event) (a : App Object) → HasNoShutdown es → handle_lifespan es a ≡ none
  unfolding handle_lifespan
  handle_lifespan-waits [] a h = refl
  handle_lifespan-waits (f ∷ es) a h = elim (Bool-cases (is_startup f)) [
    | inl starts ↦ rw (starts, handle_lifespan-waits es (make_executor a) h.1) refl
    | inr other ↦ rw (other, h.0, handle_lifespan-waits es a h.1) refl
  ]

  repeat-IsTidy :
      (n : ℕ) (a : App Object)
      → n ≤ 1
      → IsTidy a
      → a.executor ≡ none
      → IsTidy (repeat make_executor n a)
  unfolding repeat
  repeat-IsTidy zero a once tidy fresh = tidy
  repeat-IsTidy (suc zero) a once tidy fresh = startup-IsTidy a tidy fresh
  repeat-IsTidy (suc (suc n)) a once tidy fresh = absurd (ground arith)

  -- A lifespan that ends after at most one startup leaves no pool live and no executor, on an
  -- application that has no executor and no live pool before.
  pub lifespan_frees_all :
      (es rest : List Event) (e : Event) (a a' : App Object) (sent : List Message)
      (left : List Event)
      → HasNoShutdown es
      → is_shutdown e ≡ true
      → startups es ≤ 1
      → IsTidy a
      → a.executor ≡ none
      → handle_lifespan (es ++ e ∷ rest) a ≡ some (a', sent, left)
      → (a'.pools.live ≡ []) × (a'.executor ≡ none)
  lifespan_frees_all es rest e a a' sent left h stop once tidy fresh done =
      let same =
        ap (λ r. r.0)
          (some-injective _ _ (sym (handle_lifespan-answers es rest e a h stop) ∙ done)) in
      subst (λ x. (x.pools.live ≡ []) × (x.executor ≡ none)) same
        (close_frees _ (repeat-IsTidy (startups es) a once tidy fresh))
