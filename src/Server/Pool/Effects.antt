-- ===== src/Server/Pool/Effects.antt =====
-- What one statement of a thread does to the door, the queue and the requests in service.
use xmlrpc_extended.Prelude.{
  ◌≤◌, ◌⊎◌, inl, inr, Bool-cases, suc, ◌≡◌, ◌≢◌, refl, Bool, true, false, List, [], ◌∷◌, ◌++◌,
  Option, none, some, arith, ◌==◌,
}
use xmlrpc_extended.Python.Float.{Float}
use xmlrpc_extended.Server.Pool.State.{
  Connection, Outcome, returns, raises, exits, Server, is_block,
}
use xmlrpc_extended.Server.Pool.Accept.{AcceptPc, listening, arrived, timed, recorded, accept_step}
use xmlrpc_extended.Server.Pool.Worker.{WorkerPc, idle, leaving, worker_step}
use xmlrpc_extended.Server.Pool.Close.{ClosePc, away, entering, close_step}
use xmlrpc_extended.Server.Pool.Admission.{
  abandons, rejects, turns_away, admits, begins, finishes, shuts,
}
use xmlrpc_extended.Server.Pool.Moves.{accept_move, worker_move, close_move}
use xmlrpc_extended.Server.Pool.View.{deciding, at_hand}

pub data WorkerEffect (s v : Server) (p q : WorkerPc) : Type 0 where
  took :
      (k : Connection) (rest : List Connection)
      → at_hand p ≡ []
      → at_hand q ≡ k ∷ []
      → s.executor.work_queue ≡ k ∷ rest
      → v.executor ≡ record s.executor { work_queue = rest }
      → worker_move p q ≡ some (begins k)
      → WorkerEffect s v p q
  gave :
      (k : Connection)
      → at_hand p ≡ k ∷ []
      → at_hand q ≡ []
      → v.executor ≡ s.executor
      → worker_move p q ≡ some (finishes k)
      → WorkerEffect s v p q
  kept :
      at_hand q ≡ at_hand p
      → v.executor ≡ s.executor
      → worker_move p q ≡ none
      → WorkerEffect s v p q

module _ (o : Outcome) (s v : Server) where
  idle_effect :
      (queue : List Connection) (q : WorkerPc)
      → s.executor.work_queue ≡ queue
      → worker_step o s idle ≡ some (v, q)
      → WorkerEffect s v idle q
  unfolding worker_step
  idle_effect [] q w e = absurd (ground arith)
  idle_effect (k ∷ rest) q w e = took k rest refl (ground arith) w (ground arith) (ground arith)

  pub worker_effect : (p q : WorkerPc) → worker_step o s p ≡ some (v, q) → WorkerEffect s v p q
  unfolding worker_step
  worker_effect idle q e = idle_effect s.executor.work_queue q refl e
  worker_effect (leaving k) q e = gave k refl (ground arith) (ground arith) (ground arith)
  worker_effect p q e = kept (ground arith) (ground arith) (ground arith)

pub data AcceptEffect (s v : Server) (p q : AcceptPc) : Type 0 where
  stays :
      deciding q ≡ deciding p
      → v.executor ≡ s.executor
      → accept_move p q ≡ none
      → AcceptEffect s v p q
  aborts :
      (k : Connection)
      → deciding p ≡ some k
      → deciding q ≡ none
      → v.executor ≡ s.executor
      → s.config.connection_timeout ≢ none
      → accept_move p q ≡ some (abandons k)
      → AcceptEffect s v p q
  turned :
      (k : Connection)
      → p ≡ timed k
      → deciding q ≡ none
      → v.executor ≡ s.executor
      → is_block s.config.overload_policy ≡ false
      → s.capacity ≡ 0
      → accept_move p q ≡ some (rejects k)
      → AcceptEffect s v p q
  refuses :
      (k : Connection)
      → deciding p ≡ some k
      → deciding q ≡ none
      → v.executor ≡ s.executor
      → s.executor.is_shutdown ≡ true
      → accept_move p q ≡ some (turns_away k)
      → AcceptEffect s v p q
  queued :
      (k : Connection)
      → p ≡ recorded k
      → deciding q ≡ none
      → s.executor.is_shutdown ≡ false
      → v.executor ≡ record s.executor { work_queue = s.executor.work_queue ++ k ∷ [] }
      → accept_move p q ≡ some (admits k)
      → AcceptEffect s v p q
  fails : v.history.unstarted ≡ suc s.history.unstarted → AcceptEffect s v p q

arrived_effect :
    (o : Outcome) (s v : Server) (k : Connection) (q : AcceptPc) (timeout : Option Float)
    → s.config.connection_timeout ≡ timeout
    → accept_step o s (arrived k) ≡ some (v, q)
    → AcceptEffect s v (arrived k) q
unfolding accept_step
arrived_effect o s v k q none t e = stays (ground arith) (ground arith) (ground arith)
arrived_effect returns s v k q (some x) t e = stays (ground arith) (ground arith) (ground arith)
arrived_effect raises s v k q (some x) t e =
    aborts k refl (ground arith) (ground arith) (λ n. ground arith) (ground arith)
arrived_effect exits s v k q (some x) t e =
    aborts k refl (ground arith) (ground arith) (λ n. ground arith) (ground arith)

timed_effect :
    (o : Outcome) (s v : Server) (k : Connection) (q : AcceptPc) (free blocks : Bool)
    → (s.capacity == 0) ≡ free
    → is_block s.config.overload_policy ≡ blocks
    → accept_step o s (timed k) ≡ some (v, q)
    → AcceptEffect s v (timed k) q
unfolding accept_step
timed_effect o s v k q true true f b e = absurd (ground arith)
timed_effect o s v k q true false f b e =
    turned k refl (ground arith) (ground arith) b (ground arith) (ground arith)
timed_effect o s v k q false blocks f b e = stays (ground arith) (ground arith) (ground arith)

recorded_effect :
    (o : Outcome) (s v : Server) (k : Connection) (q : AcceptPc) (shut : Bool)
    → s.executor.is_shutdown ≡ shut
    → accept_step o s (recorded k) ≡ some (v, q)
    → AcceptEffect s v (recorded k) q
unfolding accept_step
recorded_effect o s v k q true h e = refuses k refl (ground arith) (ground arith) h (ground arith)
recorded_effect returns s v k q false h e =
    queued k refl (ground arith) h (ground arith) (ground arith)
recorded_effect raises s v k q false h e = fails (ground arith)
recorded_effect exits s v k q false h e = fails (ground arith)

pub accept_effect :
    (o : Outcome) (s v : Server) (p q : AcceptPc)
    → accept_step o s p ≡ some (v, q)
    → AcceptEffect s v p q
unfolding accept_step
accept_effect o s v (arrived k) q e = arrived_effect o s v k q _ refl e
accept_effect o s v (timed k) q e = timed_effect o s v k q _ _ refl refl e
accept_effect o s v (recorded k) q e = recorded_effect o s v k q _ refl e
accept_effect o s v listening q e = absurd (ground arith)
accept_effect o s v p q e = stays (ground arith) (ground arith) (ground arith)

-- The caller of a shutdown shuts the executor, or leaves it as it is.
pub close_effect :
    (quiet : Bool) (s v : Server) (p q : ClosePc)
    → close_step quiet s p ≡ some (v, q)
    → (((v.executor ≡ s.executor) × (close_move p q ≡ none))
        ⊎ ((v.executor ≡ record s.executor { is_shutdown = true }) × (close_move p q ≡ some shuts)))
      × (v.history.unstarted ≡ s.history.unstarted)
unfolding close_step
close_effect quiet s v (entering wait whole) q e = elim (Bool-cases s.executor_closed) [
  | inl was ↦ (inl (ground arith, ground arith), ground arith)
  | inr first ↦ (inr (ground arith, ground arith), ground arith)
]
close_effect quiet s v away q e = absurd (ground arith)
close_effect quiet s v p q e = (inl (ground arith, ground arith), ground arith)

-- Failures to start a thread are only ever added.
pub accept-unstarted :
    (o : Outcome) (s v : Server) (p q : AcceptPc)
    → accept_step o s p ≡ some (v, q)
    → s.history.unstarted ≤ v.history.unstarted
unfolding accept_step
accept-unstarted o s v listening q e = absurd (ground arith)
accept-unstarted o s v p q e = ground arith
