-- ===== src/Server/Pool/AcceptLaws.antt =====
-- What one statement of the accept thread changes in the counts.
use xmlrpc_extended.Prelude.{
  ℕ, ◌+◌, ◌≡◌, Bool, true, false, [], ◌∷◌, ◌++◌, append_assoc, length-append, some, arith,
}
use xmlrpc_extended.Prelude.Int.{pos, ◌+ℤ◌}
use xmlrpc_extended.Server.Pool.State.{Outcome, Server, is_block}
use xmlrpc_extended.Server.Pool.Accept.{AcceptPc, listening, recorded, rejected, accept_step}
use xmlrpc_extended.Server.Pool.Weights.{held, announced, undecided, queue_length, counted, IsUnder}

-- The accept thread is about to reject a connection.
abbrev pub is_rejecting : AcceptPc → Bool
is_rejecting (rejected _) = true
is_rejecting _ = false

-- Under `BLOCK` nothing is rejected.
abbrev pub MayReject : Server → AcceptPc → Type 0
MayReject s p = is_rejecting p ≡ true → is_block s.config.overload_policy ≡ false

module _ (o : Outcome) (s t : Server) where
  pub accept-slots :
      (p q : AcceptPc)
      → accept_step o s p ≡ some (t, q)
      → t.capacity + held q + queue_length t + s.history.unstarted
        ≡ s.capacity + held p + queue_length s + t.history.unstarted
  unfolding accept_step
  accept-slots (recorded r) q e = ground (arith, length-append s.executor.work_queue (r ∷ []))
  accept-slots p q e = ground arith

  pub accept-queued :
      (n : ℕ) (p q : AcceptPc)
      → accept_step o s p ≡ some (t, q)
      → s.stats.submitted ≡ pos (n + announced p + queue_length s + s.history.refused)
      → t.stats.submitted ≡ pos (n + announced q + queue_length t + t.history.refused)
  unfolding accept_step ◌+ℤ◌
  accept-queued n (recorded r) q e h = ground (arith, length-append s.executor.work_queue (r ∷ []))
  accept-queued n p q e h = ground arith

  pub accept-settled :
      (p q : AcceptPc)
      → accept_step o s p ≡ some (t, q)
      → counted t + queue_length t + undecided q ≡ counted s + queue_length s + undecided p
  unfolding accept_step
  accept-settled (recorded r) q e = ground (arith, length-append s.executor.work_queue (r ∷ []))
  accept-settled p q e = ground arith

  pub accept-order :
      (p q : AcceptPc)
      → accept_step o s p ≡ some (t, q)
      → s.history.enqueued ≡ s.history.picked ++ s.executor.work_queue
      → t.history.enqueued ≡ t.history.picked ++ t.executor.work_queue
  unfolding accept_step
  accept-order (recorded r) q e h =
      ground (arith, append_assoc s.history.picked s.executor.work_queue (r ∷ []))
  accept-order p q e h = ground arith

  pub accept-MayReject :
      (p q : AcceptPc) → accept_step o s p ≡ some (t, q) → MayReject s p → MayReject t q
  unfolding accept_step
  accept-MayReject listening q e h = ground arith
  accept-MayReject p q e h = ground arith

  pub accept-IsUnder :
      (p q : AcceptPc)
      → accept_step o s p ≡ some (t, q)
      → MayReject s p
      → IsUnder s.config.overload_policy s.stats
      → IsUnder t.config.overload_policy t.stats
  unfolding accept_step
  accept-IsUnder listening q e m h = ground arith
  accept-IsUnder p q e m h = ground arith

  pub accept_keeps :
      (p q : AcceptPc)
      → accept_step o s p ≡ some (t, q)
      → (t.config ≡ s.config)
        × (t.stats.active ≡ s.stats.active)
        × (t.history.escaped ≡ s.history.escaped)
        × (t.history.opened ≡ s.history.opened)
        × (t.history.picked ≡ s.history.picked)
        × (t.history.joined ≡ s.history.joined)
        × (t.executor.is_shutdown ≡ s.executor.is_shutdown)
        × (t.executor_closed ≡ s.executor_closed)
        × (s.executor.is_shutdown ≡ true → t.executor.work_queue ≡ s.executor.work_queue)
  unfolding accept_step
  accept_keeps listening q e = ground arith
  accept_keeps p q e = ground arith
