-- ===== src/Server/Pool/Shutdown.antt =====
-- `shutdown_executor` and `server_close`: no work is taken on after a shutdown, and one that waits
-- comes back only when all work has ended.
use xmlrpc_extended.Prelude.{
  ℕ, zero, suc, ◌∙◌, ◌≡◌, refl, sym, ◌⊎◌, inl, inr, Bool, true, List, [], ◌∷◌, some, arith,
  get_elem?,
}
use xmlrpc_extended.Server.Config.{XmlrpcServerConfig}
use xmlrpc_extended.Server.Pool.State.{Outcome, Server}
use xmlrpc_extended.Server.Pool.Accept.{AcceptPc, listening, accept_step}
use xmlrpc_extended.Server.Pool.Worker.{WorkerPc, idle, worker_step}
use xmlrpc_extended.Server.Pool.Close.{ClosePc, away, close_step}
use xmlrpc_extended.Server.Pool.System.{
  System, Event, step, all_idle, is_at_rest, is_quiet, Reach, start, next,
}
use xmlrpc_extended.Server.Pool.Steps.{
  StepBy, by_connect, by_accept, by_worker, by_call_close, by_close, step-StepBy,
}
use xmlrpc_extended.Server.Pool.WorkerLaws.{work_keeps}
use xmlrpc_extended.Server.Pool.AcceptLaws.{accept_keeps}
use xmlrpc_extended.Server.Pool.Effects.{close_effect, accept-unstarted}
use xmlrpc_extended.Server.Pool.Invariant.{Reach-Inv, HasShut}

-- A thread of an idle pool with an empty queue has nothing to do.
get_elem?-all_idle :
    (ps : List WorkerPc) (i : ℕ) (p : WorkerPc)
    → all_idle ps ≡ true
    → get_elem? ps i ≡ some p
    → p ≡ idle
unfolding all_idle
get_elem?-all_idle [] i p a e = cc
get_elem?-all_idle (idle ∷ ps) zero p a e = cc
get_elem?-all_idle (x ∷ ps) zero p a e = cc
get_elem?-all_idle (x ∷ ps) (suc i) p a e = get_elem?-all_idle ps i p (ground arith) e

quiet_worker :
    (s : System) (i : ℕ) (o : Outcome) (p : WorkerPc) (r : Server × WorkerPc)
    → is_at_rest s ≡ true
    → get_elem? s.workers i ≡ some p
    → worker_step o s.server p ≡ some r
    → ⊥
unfolding worker_step
quiet_worker s i o p r h at e =
    let at_rest = get_elem?-all_idle s.workers i p (ground arith) at in ground arith

-- Once joined, the pool is shut and, if no thread failed to start, has no work.
abbrev pub IsJoined : System → Type 0
IsJoined s =
    s.server.history.joined ≡ true
    → (s.server.executor.is_shutdown ≡ true)
      × (s.server.history.unstarted ≡ 0 → is_at_rest s ≡ true)

quiet-at_rest :
    (s : System) → is_quiet s ≡ true → s.server.history.unstarted ≡ 0 → is_at_rest s ≡ true
quiet-at_rest s quiet started = ground arith

-- Once the pool is shut, it stays shut, and its queue takes nothing.
abbrev pub TakesNothing : System → System → Type 0
TakesNothing s t =
    s.server.executor.is_shutdown ≡ true
    → (t.server.executor.is_shutdown ≡ true)
      × (t.server.history.enqueued ≡ s.server.history.enqueued)

worker-enqueued :
    (o : Outcome) (s v : Server) (p q : WorkerPc)
    → worker_step o s p ≡ some (v, q)
    → v.history.enqueued ≡ s.history.enqueued
unfolding worker_step
worker-enqueued o s v idle q e = ground arith
worker-enqueued o s v p q e = ground arith

accept-enqueued :
    (o : Outcome) (s v : Server) (p q : AcceptPc)
    → accept_step o s p ≡ some (v, q)
    → s.executor.is_shutdown ≡ true
    → v.history.enqueued ≡ s.history.enqueued
unfolding accept_step
accept-enqueued o s v listening q e h = ground arith
accept-enqueued o s v p q e h = ground arith

close_effects :
    (quiet : Bool) (s v : Server) (p q : ClosePc)
    → HasShut s p
    → close_step quiet s p ≡ some (v, q)
    → (v.executor.work_queue ≡ s.executor.work_queue)
      × (v.history.enqueued ≡ s.history.enqueued)
      × (s.executor.is_shutdown ≡ true → v.executor.is_shutdown ≡ true)
      × (v.history.joined ≡ true
          → (s.history.joined ≡ true) ⊎ ((quiet ≡ true) × (v.executor.is_shutdown ≡ true)))
unfolding close_step
close_effects quiet s v away q shut e = cc
close_effects quiet s v p q shut e =
    (ground arith, ground arith, λ h. ground arith, λ h. ground arith)

-- What a step of one thread does about the shutdown.
abbrev pub Keeps : System → System → Type 0
Keeps s t = (IsJoined s → IsJoined t) × TakesNothing s t

-- Every step keeps what a shutdown promises.
StepBy-Keeps : (s t : System) (e : Event) → HasShut s.server s.closer → StepBy s t e → Keeps s t
StepBy-Keeps s t e shut (by_connect k at h) = rw h (λ j. j, λ was_shut. (was_shut, refl))
StepBy-Keeps s t e shut (by_call_close wait whole at h) =
    rw h (λ j. j, λ was_shut. (was_shut, refl))
StepBy-Keeps s t e shut (by_worker i o p q v at made h) =
    let kept = work_keeps o s.server v p q made in
    let same = worker-enqueued o s.server v p q made in
    rw h (
      λ j joined.
          let (was_shut, at_rest) = j (sym kept.5 ∙ joined) in
          (
            kept.6 ∙ was_shut,
            λ started. absurd (quiet_worker s i o p _ (at_rest (sym kept.2 ∙ started)) at made),
          ),
      λ was_shut. (kept.6 ∙ was_shut, same),
    )
StepBy-Keeps s t e shut (by_accept o v q made h) =
    let kept = accept_keeps o s.server v s.accept q made in
    rw h (
      λ j joined.
          let (was_shut, at_rest) = j (sym kept.5 ∙ joined) in
          let more = accept-unstarted o s.server v s.accept q made in
          (
            kept.6 ∙ was_shut,
            λ started. rw (kept.8 was_shut) (at_rest (omega (arith, more, started))),
          ),
      λ was_shut. (kept.6 ∙ was_shut, accept-enqueued o s.server v s.accept q made was_shut),
    )
StepBy-Keeps s t e shut (by_close v q made h) =
    let (queue, enqueued, stays, joins) =
      close_effects (is_quiet s) s.server v s.closer q shut made in
    let unstarted = (close_effect (is_quiet s) s.server v s.closer q made).1 in
    rw h (
      λ j joined. elim (joins joined) [
        | inl before ↦
            (stays (j before).0, λ started. rw queue ((j before).1 (sym unstarted ∙ started)))
        | inr (quiet, now_shut) ↦
            (now_shut, λ started. rw queue (quiet-at_rest s quiet (sym unstarted ∙ started)))
      ],
      λ was_shut. (stays was_shut, enqueued),
    )

step-Keeps : (s t : System) (e : Event) → HasShut s.server s.closer → step e s ≡ some t → Keeps s t
step-Keeps s t e shut h = StepBy-Keeps s t e shut (step-StepBy s t e h)

Reach-IsJoined :
    {c : XmlrpcServerConfig} {workers pending : ℕ} {s : System}
    → Reach c workers pending s
    → IsJoined s
Reach-IsJoined start = λ h. cc
Reach-IsJoined (next {s} {t} e r h) = (step-Keeps s t e (Reach-Inv r).shut h).0 (Reach-IsJoined r)

-- When `shutdown_executor(wait=True)` has come back, and ever after, the pool is shut, and if no
-- thread failed to start, its queue is empty and every worker is idle.
pub joined_at_rest :
    {c : XmlrpcServerConfig} {workers pending : ℕ} {s : System}
    → Reach c workers pending s
    → s.server.history.joined ≡ true
    → s.server.history.unstarted ≡ 0
    → (s.server.executor.is_shutdown ≡ true)
      × (s.server.executor.work_queue ≡ [])
      × (all_idle s.workers ≡ true)
joined_at_rest r joined started =
    let (shut, at_rest) = Reach-IsJoined r joined in
    let rests = at_rest started in (shut, ground arith, ground arith)
