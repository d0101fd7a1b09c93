-- ===== src/Server/Pool/Refine.antt =====
-- The threads keep the promise of `Server.Pool.Admission`.
use xmlrpc_extended.Prelude.{
  ℕ, ◌+◌, ◌≤◌, ◌≡◌, ◌⊎◌, inl, inr, refl, sym, ap, subst, ◌∙◌, true, some, arith, none, Option,
  get_elem?, get_elem?-set_self, set, total,
}
use xmlrpc_extended.Prelude.Bag.{to_bag-eq, add}
use xmlrpc_extended.Server.Config.{XmlrpcServerConfig}
use xmlrpc_extended.Server.Pool.State.{Server}
use xmlrpc_extended.Server.Pool.Accept.{AcceptPc}
use xmlrpc_extended.Server.Pool.Worker.{WorkerPc}
use xmlrpc_extended.Server.Pool.Close.{ClosePc}
use xmlrpc_extended.Server.Pool.System.{System, Event, is_quiet}
use xmlrpc_extended.Server.Pool.Steps.{
  StepBy, by_connect, by_accept, by_worker, by_call_close, by_close,
}
use xmlrpc_extended.Server.Pool.WorkerLaws.{work_keeps}
use xmlrpc_extended.Server.Pool.Weights.{held}
use xmlrpc_extended.Server.Pool.Invariant.{Inv}
use xmlrpc_extended.Server.Pool.Admission.{
  Admission, Move, Permits, arrive, abandon, reject, turn_away, admit, begin, finish, shut, shuts,
  inside,
}
use xmlrpc_extended.Server.Pool.Moves.{accept_move, worker_move, work_move, close_move, event_move}
use xmlrpc_extended.Server.Pool.View.{deciding, view, all_at_hand-set, size-all_at_hand}
use xmlrpc_extended.Server.Pool.Effects.{
  WorkerEffect, took, gave, kept, worker_effect, AcceptEffect, stays, aborts, turned, refuses,
  queued, fails, accept_effect, close_effect, accept-unstarted,
}

Admission-eq :
    (a b : Admission)
    → a.closed ≡ b.closed
    → a.door ≡ b.door
    → a.queue ≡ b.queue
    → a.serving ≡ b.serving
    → a ≡ b
Admission-eq a b p q r s = λ i. record { closed = p i; door = q i; queue = r i; serving = s i }

-- The step is the move, or one that a client does not see.
abbrev pub Mirrors : XmlrpcServerConfig → ℕ → (a b : Admission) → Option Move → Type 0
Mirrors c limit a b none = b ≡ a
Mirrors c limit a b (some m) = Permits c limit a b m

module _ {c : XmlrpcServerConfig} {workers pending : ℕ} (s : System)
    (inv : Inv c workers pending s) where
  abbrev IsMove : System → Option Move → Type 0
  IsMove t m = Mirrors c (workers + pending) (view s) (view t) m

  -- Without failed thread starts, what is inside is what is outstanding behind the door.
  inside-view :
      s.server.history.unstarted ≡ 0
      → s.server.capacity + held s.accept + inside (view s) ≡ workers + pending
  inside-view none_failed =
      let slots = inv.slots in
      let size = size-all_at_hand s.workers in omega (arith, slots, size, none_failed)

  worker-IsMove :
      (i : ℕ) (p q : WorkerPc) (v : Server)
      → get_elem? s.workers i ≡ some p
      → WorkerEffect s.server v p q
      → IsMove (record s { server = v; workers = set s.workers i q }) (worker_move p q)
  unfolding add total
  worker-IsMove i p q v at (took k rest before after queue e label) =
      subst (IsMove (record s { server = v; workers = set s.workers i q })) (sym label) (
        begin k rest queue (
          Admission-eq _ _ (ap (λ x. x.is_shutdown) e) refl (ap (λ x. x.work_queue) e) (
            to_bag-eq _ _ (λ w. omega (
              arith,
              all_at_hand-set s.workers i p q w at,
              ap (total w) before,
              ap (total w) after,
            )))))
  worker-IsMove i p q v at (gave k before after e label) =
      subst (IsMove (record s { server = v; workers = set s.workers i q })) (sym label) (
        finish k
          (to_bag-eq _ _ (λ w.
            omega (
              arith,
              all_at_hand-set s.workers i p q w at,
              ap (total w) before,
              ap (total w) after,
            )))
          (Admission-eq _ _ (ap (λ x. x.is_shutdown) e) refl (ap (λ x. x.work_queue) e) refl))
  worker-IsMove i p q v at (kept same e label) =
      subst (IsMove (record s { server = v; workers = set s.workers i q })) (sym label) (
        Admission-eq _ _ (ap (λ x. x.is_shutdown) e) refl (ap (λ x. x.work_queue) e) (
          to_bag-eq _ _
            (λ w. omega (arith, all_at_hand-set s.workers i p q w at, ap (total w) same))))

  accept-IsMove :
      (q : AcceptPc) (v : Server)
      → s.server.history.unstarted ≡ 0
      → v.history.unstarted ≡ 0
      → AcceptEffect s.server v s.accept q
      → IsMove (record s { server = v; accept = q }) (accept_move s.accept q)
  accept-IsMove q v a b (stays d e label) =
      subst (IsMove (record s { server = v; accept = q })) (sym label)
        (Admission-eq _ _ (ap (λ x. x.is_shutdown) e) d (ap (λ x. x.work_queue) e) refl)
  accept-IsMove q v a b (aborts k d d' e timed' label) =
      subst (IsMove (record s { server = v; accept = q })) (sym label) (
        abandon k d (rw (sym inv.config) timed')
          (Admission-eq _ _ (ap (λ x. x.is_shutdown) e) d' (ap (λ x. x.work_queue) e) refl))
  accept-IsMove q v a b (turned k at d' e may full label) =
      subst (IsMove (record s { server = v; accept = q })) (sym label) (
        reject k (ap deciding at) (omega (arith, inside-view a, ap held at))
          (rw (sym inv.config) may)
          (Admission-eq _ _ (ap (λ x. x.is_shutdown) e) d' (ap (λ x. x.work_queue) e) refl))
  accept-IsMove q v a b (refuses k d d' e closed label) =
      subst (IsMove (record s { server = v; accept = q })) (sym label) (
        turn_away k d closed
          (Admission-eq _ _ (ap (λ x. x.is_shutdown) e) d' (ap (λ x. x.work_queue) e) refl))
  accept-IsMove q v a b (queued k at d' open' e label) =
      subst (IsMove (record s { server = v; accept = q })) (sym label) (
        admit k (ap deciding at) (omega (arith, inside-view a, ap held at)) open'
          (Admission-eq _ _ (ap (λ x. x.is_shutdown) e) d' (ap (λ x. x.work_queue) e) refl))
  accept-IsMove q v a b (fails e) = absurd (omega arith)

  close-IsMove :
      (q : ClosePc) (v : Server)
      → ((v.executor ≡ s.server.executor) × (close_move s.closer q ≡ none))
        ⊎ ((v.executor ≡ record s.server.executor { is_shutdown = true })
            × (close_move s.closer q ≡ some shuts))
      → IsMove (record s { server = v; closer = q }) (close_move s.closer q)
  close-IsMove q v (inl (e, label)) =
      subst (IsMove (record s { server = v; closer = q })) (sym label)
        (Admission-eq _ _ (ap (λ x. x.is_shutdown) e) refl (ap (λ x. x.work_queue) e) refl)
  close-IsMove q v (inr (e, label)) =
      subst (IsMove (record s { server = v; closer = q })) (sym label)
        (shut (Admission-eq _ _ (ap (λ x. x.is_shutdown) e) refl (ap (λ x. x.work_queue) e) refl))

  -- A step of any thread that does not fail to start a thread.
  pub step-IsMove :
      (t : System) (e : Event)
      → s.server.history.unstarted ≡ 0
      → t.server.history.unstarted ≡ 0
      → StepBy s t e
      → IsMove t (event_move e s t)
  step-IsMove t e a b (by_connect k at h) = arrive k (ap deciding at) (ap view h)
  step-IsMove t e a b (by_accept o v q step' h) =
      subst (λ u. IsMove u (accept_move s.accept u.accept)) (sym h)
        (accept-IsMove q v a (ap (λ x. x.server.history.unstarted) (sym h) ∙ b)
          (accept_effect o s.server v s.accept q step'))
  step-IsMove t e a b (by_worker i o p q v at step' h) =
      subst (λ u. IsMove u (work_move (get_elem? s.workers i) (get_elem? u.workers i))) (sym h)
        (rw (at, get_elem?-set_self s.workers i q p at)
          (worker-IsMove i p q v at (worker_effect o s.server v p q step')))
  step-IsMove t e a b (by_call_close wait whole at h) = ap view h
  step-IsMove t e a b (by_close v q step' h) =
      subst (λ u. IsMove u (close_move s.closer u.closer)) (sym h)
        (close-IsMove q v (close_effect (is_quiet s) s.server v s.closer q step').0)

pub step-unstarted :
    (s t : System) (e : Event)
    → StepBy s t e
    → s.server.history.unstarted ≤ t.server.history.unstarted
step-unstarted s t e (by_connect k at h) = ground arith
step-unstarted s t e (by_accept o v q step' h) =
    ground (arith, accept-unstarted o s.server v s.accept q step')
step-unstarted s t e (by_worker i o p q v at step' h) =
    ground (arith, (work_keeps o s.server v p q step').2)
step-unstarted s t e (by_call_close wait whole at h) = ground arith
step-unstarted s t e (by_close v q step' h) =
    ground (arith, (close_effect (is_quiet s) s.server v s.closer q step').1)
