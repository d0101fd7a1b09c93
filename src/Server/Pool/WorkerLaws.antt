-- ===== src/Server/Pool/WorkerLaws.antt =====
-- What one statement of a worker changes in the counts.
use xmlrpc_extended.Prelude.{ℕ, ◌+◌, ◌≡◌, refl, List, [], ◌∷◌, ◌++◌, append_assoc, some, arith}
use xmlrpc_extended.Prelude.Int.{pos, ◌+ℤ◌, ◌-ℤ◌}
use xmlrpc_extended.Server.Pool.State.{Connection, Outcome, Server}
use xmlrpc_extended.Server.Pool.Worker.{WorkerPc, idle, worker_step}
use xmlrpc_extended.Server.Pool.Weights.{
  busy, unstarted, running, queue_length, counted, rejections, IsUnder,
}

module _ (o : Outcome) (s t : Server) where
  pub work-slots :
      (p q : WorkerPc)
      → worker_step o s p ≡ some (t, q)
      → t.capacity + queue_length t + busy q ≡ s.capacity + queue_length s + busy p
  unfolding worker_step
  work-slots idle q e = ground arith
  work-slots p q e = ground arith

  pub work-queued :
      (n : ℕ) (p q : WorkerPc)
      → worker_step o s p ≡ some (t, q)
      → s.stats.submitted ≡ pos (n + queue_length s + unstarted p)
      → t.stats.submitted ≡ pos (n + queue_length t + unstarted q)
  unfolding worker_step ◌-ℤ◌ ◌+ℤ◌
  work-queued n idle q e h = ground arith
  work-queued n p q e h = ground arith

  pub work-active :
      (n : ℕ) (p q : WorkerPc)
      → worker_step o s p ≡ some (t, q)
      → s.stats.active ≡ pos (n + s.history.escaped + running p)
      → t.stats.active ≡ pos (n + t.history.escaped + running q)
  unfolding worker_step ◌-ℤ◌ ◌+ℤ◌
  work-active n idle q e h = ground arith
  work-active n p q e h = ground arith

  pub work-settled :
      (p q : WorkerPc)
      → worker_step o s p ≡ some (t, q)
      → counted t + queue_length t + unstarted q + running q
        ≡ counted s + queue_length s + unstarted p + running p
  unfolding worker_step
  work-settled idle q e = ground arith
  work-settled p q e = ground arith

  work-order_idle :
      (xs : List Connection) (q : WorkerPc)
      → s.executor.work_queue ≡ xs
      → worker_step o s idle ≡ some (t, q)
      → s.history.enqueued ≡ s.history.picked ++ s.executor.work_queue
      → t.history.enqueued ≡ t.history.picked ++ t.executor.work_queue
  unfolding worker_step
  work-order_idle [] q w e h = ground arith
  work-order_idle (r ∷ xs) q w e h = ground (arith, append_assoc s.history.picked (r ∷ []) xs)

  pub work-order :
      (p q : WorkerPc)
      → worker_step o s p ≡ some (t, q)
      → s.history.enqueued ≡ s.history.picked ++ s.executor.work_queue
      → t.history.enqueued ≡ t.history.picked ++ t.executor.work_queue
  unfolding worker_step
  work-order idle q e h = work-order_idle s.executor.work_queue q refl e h
  work-order p q e h = ground arith

  -- A worker changes neither the configuration nor what tells of rejections and shutdowns.
  pub work_keeps :
      (p q : WorkerPc)
      → worker_step o s p ≡ some (t, q)
      → (t.config ≡ s.config)
        × (rejections t.stats ≡ rejections s.stats)
        × (t.history.unstarted ≡ s.history.unstarted)
        × (t.history.refused ≡ s.history.refused)
        × (t.history.opened ≡ s.history.opened)
        × (t.history.joined ≡ s.history.joined)
        × (t.executor.is_shutdown ≡ s.executor.is_shutdown)
        × (t.executor_closed ≡ s.executor_closed)
  unfolding worker_step
  work_keeps idle q e = ground arith
  work_keeps p q e = ground arith

  pub work-IsUnder :
      (p q : WorkerPc)
      → worker_step o s p ≡ some (t, q)
      → IsUnder s.config.overload_policy s.stats
      → IsUnder t.config.overload_policy t.stats
  unfolding worker_step
  work-IsUnder idle q e h = ground arith
  work-IsUnder p q e h = ground arith
