-- ===== src/Server/Pool/Trace.antt =====
-- What a client sees of a run of the threads is a run of the abstract server.
use xmlrpc_extended.Prelude.{
  ℕ, suc, zero, ◌+◌, ◌≤◌, ◌≡◌, refl, subst, List, [], ◌∷◌, ◌++◌, Option, none, some, arith,
  replicate,
}
use mathlib.Core.Option.{some-injective}
use xmlrpc_extended.Prelude.Bag.{to_bag}
use xmlrpc_extended.Server.Config.{XmlrpcServerConfig}
use xmlrpc_extended.Server.Pool.State.{Connection}
use xmlrpc_extended.Server.Pool.Worker.{idle}
use xmlrpc_extended.Server.Pool.System.{System, Event, step, run, init, Reach, start, next}
use xmlrpc_extended.Server.Pool.Steps.{step-StepBy}
use xmlrpc_extended.Server.Pool.Liveness.{run-cons}
use xmlrpc_extended.Server.Pool.Invariant.{Reach-Inv}
use xmlrpc_extended.Server.Pool.Admission.{Admission, Move, Performs, nothing, first, at_start}
use xmlrpc_extended.Server.Pool.Moves.{event_move, to_list}
use xmlrpc_extended.Server.Pool.View.{all_at_hand, view}
use xmlrpc_extended.Server.Pool.Refine.{Mirrors, step-IsMove, step-unstarted}

-- The moves of a run, in their order.
unfoldable pub trace : List Event → System → List Move
trace [] s = []
trace (e ∷ es) s = elim (step e s) [ none ↦ [] | some t ↦ to_list (event_move e s t) ++ trace es t ]

run-unstarted :
    (es : List Event) (s t : System)
    → run es s ≡ some t
    → s.server.history.unstarted ≤ t.server.history.unstarted
unfolding run
run-unstarted [] s t h = rw (some-injective _ _ h) (omega arith)
run-unstarted (e ∷ es) s t h =
    let (u, done, rest) = run-cons e es s t h in
    omega (arith, step-unstarted s u e (step-StepBy s u e done), run-unstarted es u t rest)

all_at_hand-idle : (n : ℕ) → all_at_hand (replicate n idle) ≡ []
unfolding all_at_hand
all_at_hand-idle zero = refl
all_at_hand-idle (suc n) = all_at_hand-idle n

Mirrors-Performs :
    {c : XmlrpcServerConfig} (limit : ℕ) (d a b : Admission) (m : Option Move) (ms : List Move)
    → Mirrors c limit a b m
    → Performs c limit d b ms
    → Performs c limit d a (to_list m ++ ms)
Mirrors-Performs {c} limit d a b none ms e r = subst (λ x. Performs c limit d x ms) e r
Mirrors-Performs {c} limit d a b (some m) ms p r = first m p r

module _ {c : XmlrpcServerConfig} {workers pending : ℕ} where
  run_from-Performs :
      (es : List Event) (s t : System)
      → Reach c workers pending s
      → run es s ≡ some t
      → t.server.history.unstarted ≡ 0
      → Performs c (workers + pending) (view t) (view s) (trace es s)
  unfolding run trace
  run_from-Performs [] s t r h none_failed =
      subst (λ u. Performs c (workers + pending) (view u) (view s) []) (some-injective _ _ h)
        nothing
  run_from-Performs (e ∷ es) s t r h none_failed =
      let (u, done, rest) = run-cons e es s t h in
      let by = step-StepBy s u e done in
      let later = run-unstarted es u t rest in
      let now = step-unstarted s u e by in
      let move =
        step-IsMove s (Reach-Inv r) u e (omega (arith, later, now, none_failed))
          (omega (arith, later, none_failed)) by in
      rw (done, trace)
        (Mirrors-Performs (workers + pending) (view t) (view s) (view u) (event_move e s u)
          (trace es u) move (run_from-Performs es u t (next e r done) rest none_failed))

-- However the threads run and whatever their calls do, as long as no thread failed to start: the
-- moves that are read off from their steps, in their order, are moves of the abstract server, which
-- lead it to the state that stands for the one of the threads. So requests are let in, in the order
-- of their arrival, only while there is room and before a shutdown; one is rejected only when the
-- server is full and the policy is not `BLOCK`, turned away only after a shutdown, and abandoned
-- only where connections take a timeout; they are begun in the order in which they were let in; and
-- only what is being served ends.
pub run-Performs :
    (c : XmlrpcServerConfig) (workers pending : ℕ) (es : List Event) (t : System)
    → run es (init c workers pending) ≡ some t
    → t.server.history.unstarted ≡ 0
    → Performs c (workers + pending) (view t) at_start (trace es (init c workers pending))
run-Performs c workers pending es t h none_failed =
    subst
      (λ (b : List Connection).
        Performs c (workers + pending) (view t) (record at_start { serving = to_bag b })
          (trace es (init c workers pending)))
      (all_at_hand-idle workers)
      (run_from-Performs es (init c workers pending) t start h none_failed)
