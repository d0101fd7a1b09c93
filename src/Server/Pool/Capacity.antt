-- ===== src/Server/Pool/Capacity.antt =====
-- The bounds and counts of the running server, in every state that its threads can reach.
use xmlrpc_extended.Prelude.{ℕ, ◌+◌, ◌≤◌, ◌≡◌, ◌⊎◌, false, ◌++◌, some, arith, total, total-le}
use xmlrpc_extended.Prelude.Int.{pos}
use xmlrpc_extended.Server.Config.{XmlrpcServerConfig}
use xmlrpc_extended.Server.Pool.State.{Connection, Outcome, is_block, acquire_capacity, stats}
use xmlrpc_extended.Server.Pool.Accept.{timed, acquired, rejected, accept_step}
use xmlrpc_extended.Server.Pool.System.{System, accept, step, Reach}
use xmlrpc_extended.Server.Pool.Weights.{
  announced, undecided, busy, unstarted, running, queue_length, outstanding, IsUnder,
}
use xmlrpc_extended.Server.Pool.Invariant.{Reach-Inv}

module _ {c : XmlrpcServerConfig} {workers pending : ℕ} {s : System}
    (r : Reach c workers pending s) where
  -- The free slots of the semaphore and the requests that are outstanding (with the accept thread,
  -- in the queue, or with a worker) add up to `max_workers + max_pending`, but for one more request
  -- for each time that the executor queued a request and then could not start a thread.
  pub slots_add_up :
      s.server.capacity + outstanding s ≡ workers + pending + s.server.history.unstarted
  slots_add_up = (Reach-Inv r).slots

  -- While the executor can start its threads, at most `max_workers + max_pending` requests are
  -- outstanding, and at most `max_workers` are with a worker.
  pub outstanding_bounded :
      s.server.history.unstarted ≡ 0
      → (outstanding s ≤ workers + pending) × (total busy s.workers ≤ workers)
  outstanding_bounded none_failed =
      let inv = Reach-Inv r in
      let few = total-le busy (λ p. ground arith) s.workers in
      (omega (arith, inv.slots), omega (arith, inv.threads))

  -- `stats().queued` is the number of requests that are recorded and not started, and one more for
  -- each request that `submit` refused after a shutdown. `stats().active` is the number of requests
  -- between start and end, and one more for each worker that an exception took past its handler.
  -- Neither is ever negative.
  pub gauges_exact :
      ((stats s.server).queued
        ≡ pos (
            announced s.accept
            + queue_length s.server
            + total unstarted s.workers
            + s.server.history.refused))
      × ((stats s.server).active ≡ pos (total running s.workers + s.server.history.escaped))
  unfolding stats
  gauges_exact = let inv = Reach-Inv r in (inv.queued, inv.active)

  -- Every connection that was accepted is with the accept thread, in the queue or with a worker, or
  -- it is counted once: as completed, errored or rejected, or as one that no counter of `stats()`
  -- shows (refused after a shutdown, without a timeout, or taken by an escaped exception).
  pub every_connection_counted :
      let n = stats s.server in
      s.server.history.opened
      ≡ undecided s.accept
        + queue_length s.server
        + total unstarted s.workers
        + total running s.workers
        + (n.completed
            + n.errored
            + s.server.history.escaped
            + (n.rejected_close + n.rejected_fault + n.rejected_503)
            + s.server.history.refused
            + s.server.history.aborted)
  unfolding stats
  every_connection_counted = (Reach-Inv r).settled

  -- Only the counter of the policy in force is ever above zero; under `BLOCK` none is.
  pub rejections-IsUnder : IsUnder c.overload_policy s.server.stats
  rejections-IsUnder = let inv = Reach-Inv r in ground arith

  -- Requests are handed to the workers in the order in which they were submitted, and none is lost
  -- from the queue or handed out twice.
  pub first_in_first_out :
      s.server.history.enqueued ≡ s.server.history.picked ++ s.server.executor.work_queue
  first_in_first_out = (Reach-Inv r).order

  -- A request is rejected exactly when every slot is taken and the policy is not `BLOCK`; when a
  -- slot is free, the request gets it.
  pub rejected_iff_full :
      (o : Outcome) (t : System) (k : Connection)
      → s.accept ≡ timed k
      → step (accept o) s ≡ some t
      → ((t.accept ≡ rejected k)
          × (is_block c.overload_policy ≡ false)
          × (outstanding s ≡ workers + pending + s.server.history.unstarted))
        ⊎ ((t.accept ≡ acquired k) × (t.server.capacity + 1 ≡ s.server.capacity))
  unfolding step accept_step acquire_capacity
  rejected_iff_full o t k at e = let inv = Reach-Inv r in ground arith
