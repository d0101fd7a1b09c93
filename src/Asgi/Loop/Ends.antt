-- ===== src/Asgi/Loop/Ends.antt =====
-- A request whose body has come is woken a bounded number of times, whatever the other requests do.
use xmlrpc_extended.Prelude.{
  ℕ, ◌+◌, ◌≤◌, ◌≡◌, refl, sym, ap, subst, ◌∙◌, inl, inr, Bool-cases, Option-cases, Bool, false,
  List, [], ◌∷◌, Option, none, some, arith, length, get_elem?, set, get_elem?-set_self,
  get_elem?-set_other, get_elem?-append_left, ◌==◌, ==_iff, if◌then◌else◌,
}
use mathlib.Core.Option.{some-injective}
use xmlrpc_extended.Python.Text.{Bytes}
use xmlrpc_extended.Asgi.Host.{Host, Outcome, value, fault, exception}
use xmlrpc_extended.Asgi.App.{App}
use xmlrpc_extended.Asgi.Http.{Message, send_http_response}
use xmlrpc_extended.Asgi.Loop.{
  Wake, Await, receiving, calling, sending, finished, raised, cut_off, Task, Loop, wake, run_loop,
  respond, on_result, on_sent,
}
use xmlrpc_extended.Asgi.Loop.Steps.{
  woken, is_over, Acts, acts_received, acts_completed, acts_taken, acts_interrupted, WakeBy,
  by_lifespan, by_arrival, by_request, by_thread, by_closing, wake-WakeBy,
}

abbrev pub is_number : ℕ → Option ℕ → Bool
is_number i none = false
is_number i (some j) = j == i

-- How often the request `i` is woken.
abbrev pub wakes : ℕ → List Wake → ℕ
wakes i [] = 0
wakes i (w ∷ ws) = (if is_number i (woken w) then 1 else 0) + wakes i ws

module _ (host : Host) where
  open host use {Value, Object}

  -- The awaits that are left: one for the handler and two for its response, and one for each
  -- message.
  abbrev pub awaits_left : Await host → ℕ
  awaits_left (calling place result) = 3
  awaits_left (sending ms) = length ms
  awaits_left _ = 0

  -- The body has come.
  abbrev pub IsAnswering : Await host → Type 0
  IsAnswering (receiving chunks) = ⊥
  IsAnswering (sending []) = ⊥
  IsAnswering _ = Unit {0}

  pub respond-left :
      (r : Outcome Bytes) → IsAnswering (respond host r) × (awaits_left (respond host r) ≤ 2)
  unfolding respond send_http_response
  respond-left (value body) = (tt, omega arith)
  respond-left (fault c m) = (tt, omega arith)
  respond-left (exception n m) = (tt, omega arith)

  pub on_sent-left :
      (ms : List Message)
      → IsAnswering (on_sent host ms) × (awaits_left (on_sent host ms) ≡ length ms)
  on_sent-left [] = (tt, refl)
  on_sent-left (m ∷ ms) = (tt, refl)

  interrupted-left : (w : Await host) → IsAnswering w → is_over host w ≡ false → 1 ≤ awaits_left w
  interrupted-left (receiving chunks) h e = absurd h
  interrupted-left (calling place result) h e = omega arith
  interrupted-left (sending []) h e = absurd h
  interrupted-left (sending (m ∷ ms)) h e = omega arith
  interrupted-left finished h e = cc
  interrupted-left raised h e = cc
  interrupted-left cut_off h e = cc

  Acts-left :
      (k : ℕ) (a a' : App Object) (t t' : Task host)
      → Acts host k a t a' t'
      → IsAnswering t.await
      → IsAnswering t'.await × (awaits_left t'.await + 1 ≤ awaits_left t.await)
  unfolding on_result
  Acts-left k a a' t t' (acts_received chunks e at same next) h = absurd (subst IsAnswering at h)
  Acts-left k a a' t t' (acts_completed place result at same next) h =
      let (answering, few) = respond-left _ in
      subst (λ u. IsAnswering u.await × (awaits_left u.await + 1 ≤ awaits_left t.await)) (sym next)
        (answering, omega (arith, few, ap awaits_left at))
  Acts-left k a a' t t' (acts_taken m ms at same next) h =
      let (answering, left) = on_sent-left ms in
      subst (λ u. IsAnswering u.await × (awaits_left u.await + 1 ≤ awaits_left t.await)) (sym next)
        (answering, omega (arith, left, ap awaits_left at))
  Acts-left k a a' t t' (acts_interrupted at same next) h =
      subst (λ u. IsAnswering u.await × (awaits_left u.await + 1 ≤ awaits_left t.await)) (sym next)
        (tt, omega (arith, interrupted-left t.await h at))

  WakeBy-left :
      (l u : Loop host) (w : Wake) (i : ℕ) (t : Task host)
      → get_elem? l.tasks i ≡ some t
      → IsAnswering t.await
      → WakeBy host l u w
      → (t' : Task host) × (get_elem? u.tasks i ≡ some t')
        × IsAnswering t'.await
        × (awaits_left t'.await + (if is_number i (woken w) then 1 else 0) ≤ awaits_left t.await)
  WakeBy-left l u w i t got h (by_lifespan e at takes same) =
      (t, ap (λ m. get_elem? m.tasks i) same ∙ got, h, rw at (omega arith))
  WakeBy-left l u w i t got h (by_arrival scope at same) = (
    t,
    ap (λ m. get_elem? m.tasks i) same ∙ get_elem?-append_left l.tasks _ i t got,
    h,
    rw at (omega arith),
  )
  WakeBy-left l u w i t got h (by_request j v a' v' at got_j acts same) =
      elim (Bool-cases (j == i)) [
        | inl here ↦
            let e : j ≡ i = (==_iff j i).0 here in
            let same_task : v ≡ t =
              some-injective _ _ (sym got_j ∙ ap (get_elem? l.tasks) e ∙ got) in
            let (answering, fewer) =
              Acts-left j l.app a' t v' (subst (λ x. Acts host j l.app x a' v') same_task acts) h in
            (
              v',
              ap (λ m. get_elem? m.tasks i) same
                  ∙ ap (get_elem? (set l.tasks j v')) (sym e)
                  ∙ get_elem?-set_self l.tasks j v' v got_j,
              answering,
              rw (at, here) fewer,
            )
        | inr elsewhere ↦ (
          t,
          ap (λ m. get_elem? m.tasks i) same
              ∙ get_elem?-set_other l.tasks j i v' (λ e. ground arith)
              ∙ got,
          h,
          rw (at, elsewhere) (omega arith),
        )
      ]
  WakeBy-left l u w i t got h (by_closing at drained same) =
      (t, ap (λ m. get_elem? m.tasks i) same ∙ got, h, rw at (omega arith))
  WakeBy-left l u w i t got h (by_thread j at same) =
      (t, ap (λ m. get_elem? m.tasks i) same ∙ got, h, rw at (omega arith))

  pub run_loop-left :
      (ws : List Wake) (l l' : Loop host) (i : ℕ) (t : Task host)
      → get_elem? l.tasks i ≡ some t
      → IsAnswering t.await
      → run_loop host ws l ≡ some l'
      → (t' : Task host) × (get_elem? l'.tasks i ≡ some t')
        × IsAnswering t'.await
        × (awaits_left t'.await + wakes i ws ≤ awaits_left t.await)
  unfolding run_loop
  run_loop-left [] l l' i t got h e =
      (t, ap (λ m. get_elem? m.tasks i) (sym (some-injective _ _ e)) ∙ got, h, omega arith)
  run_loop-left (w ∷ ws) l l' i t got h e = elim (Option-cases (wake host w l)) [
    | inl waits ↦ absurd (ground arith)
    | inr (u, done) ↦
        let (v, got_v, answering, fewer) =
          WakeBy-left l u w i t got h (wake-WakeBy host l u w done) in
        let (t', got', answering', fewer') =
          run_loop-left ws u l' i v got_v answering (rw done at e) in
        (t', got', answering', omega (arith, fewer, fewer'))
  ]
