-- ===== src/Server/Pool/Weights.antt =====
-- What each place of a thread stands for in the counts of the invariant.
use xmlrpc_extended.Prelude.{ℕ, ◌+◌, ◌≡◌, length, total}
use xmlrpc_extended.Server.Config.{ServerOverloadPolicy, block, close, fault, http_503}
use xmlrpc_extended.Server.Stats.{StatsTracker}
use xmlrpc_extended.Server.Pool.State.{Server}
use xmlrpc_extended.Server.Pool.Accept.{
  AcceptPc, arrived, timed, acquired, recorded, refused, rejected,
}
use xmlrpc_extended.Server.Pool.Worker.{WorkerPc, idle, picked, leaving}
use xmlrpc_extended.Server.Pool.System.{System}

-- The accept thread owns a slot of the semaphore.
abbrev pub held : AcceptPc → ℕ
held (acquired _) = 1
held (recorded _) = 1
held (refused _) = 1
held _ = 0

-- The accept thread has recorded a connection that is not in the queue yet.
abbrev pub announced : AcceptPc → ℕ
announced (recorded _) = 1
announced _ = 0

-- The accept thread has a connection that no counter tells of.
abbrev pub undecided : AcceptPc → ℕ
undecided (arrived _) = 1
undecided (timed _) = 1
undecided (acquired _) = 1
undecided (recorded _) = 1
undecided (rejected _) = 1
undecided _ = 0

-- A worker owns a slot of the semaphore.
abbrev pub busy : WorkerPc → ℕ
busy idle = 0
busy _ = 1

-- A worker has a connection that it has not started.
abbrev pub unstarted : WorkerPc → ℕ
unstarted (picked _) = 1
unstarted _ = 0

-- A worker is between `record_started` and its end.
abbrev pub running : WorkerPc → ℕ
running idle = 0
running (picked _) = 0
running (leaving _) = 0
running _ = 1

abbrev pub queue_length : Server → ℕ
queue_length s = length s.executor.work_queue

-- Slots in use: by the accept thread, by the queue, by the workers.
abbrev pub outstanding : System → ℕ
outstanding s = held s.accept + queue_length s.server + total busy s.workers

-- Requests that ended in a worker, recorded or not.
abbrev pub ended : Server → ℕ
ended s = s.stats.completed + s.stats.errored + s.history.escaped

-- The three counters of rejections, by policy.
abbrev pub rejections : StatsTracker → ℕ × ℕ × ℕ
rejections t = (t.rejected_close, t.rejected_fault, t.rejected_503)

abbrev pub rejected_total : StatsTracker → ℕ
rejected_total t = t.rejected_close + t.rejected_fault + t.rejected_503

-- Connections whose fate is decided.
abbrev pub counted : Server → ℕ
counted s = ended s + rejected_total s.stats + s.history.refused + s.history.aborted

-- Only the counter of the policy in force may be other than zero.
abbrev pub IsUnder : ServerOverloadPolicy → StatsTracker → Type 0
IsUnder block t = (t.rejected_close ≡ 0) × (t.rejected_fault ≡ 0) × (t.rejected_503 ≡ 0)
IsUnder close t = (t.rejected_fault ≡ 0) × (t.rejected_503 ≡ 0)
IsUnder fault t = (t.rejected_close ≡ 0) × (t.rejected_503 ≡ 0)
IsUnder http_503 t = (t.rejected_close ≡ 0) × (t.rejected_fault ≡ 0)
