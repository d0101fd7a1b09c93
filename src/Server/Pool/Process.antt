-- ===== src/Server/Pool/Process.antt =====
-- One whole call of `process_request`, from a new connection to the next, and what it has done with
-- the connection then.
pub mod Ends
pub mod Submits
pub mod Laws
use xmlrpc_extended.Prelude.{ℕ, ◌+◌, ◌<◌, ◌≡◌, ◌≢◌, Bool, true, false, [], ◌∷◌, ◌++◌, Option}
use xmlrpc_extended.Server.Pool.Calls.{closes, run_call}
use xmlrpc_extended.Server.Pool.State.{Connection, Outcome, returns, Server}
use xmlrpc_extended.Server.Pool.Accept.{AcceptPc, listening, stopped, accept_step}

-- Between two calls: the thread takes the next connection, or `serve_forever` has ended.
abbrev pub is_between : AcceptPc → Bool
is_between listening = true
is_between stopped = true
is_between _ = false

-- The call from a statement to its end, of at most `fuel` statements.
abbrev pub process_request : ℕ → (ℕ → Outcome) → Server → AcceptPc → Option (Server × AcceptPc)
process_request = run_call accept_step is_between

-- The connection `k` was closed, the executor was not touched, and no capacity is held.
pub record IsTurned (k : Connection) (s t : Server) : Type 0 where
  pub capacity : t.capacity ≡ s.capacity
  pub executor : t.executor ≡ s.executor
  pub closed : closes k s.history.io < closes k t.history.io

-- The connection `k` was put at the end of the queue of an open executor, with one unit of capacity,
-- and was not closed.
pub record IsQueued (k : Connection) (s t : Server) : Type 0 where
  pub capacity : t.capacity + 1 ≡ s.capacity
  pub is_open : s.executor.is_shutdown ≡ false
  pub executor : t.executor ≡ record s.executor { work_queue = s.executor.work_queue ++ k ∷ [] }
  pub kept : closes k t.history.io ≡ closes k s.history.io

-- `submit` put the connection `k` in the queue of an open executor and raised. The connection was
-- closed and its capacity given back all the same.
pub record HasFailed (k : Connection) (s t : Server) : Type 0 where
  pub capacity : t.capacity ≡ s.capacity
  pub is_open : s.executor.is_shutdown ≡ false
  pub executor : t.executor ≡ record s.executor { work_queue = s.executor.work_queue ++ k ∷ [] }
  pub closed : closes k s.history.io < closes k t.history.io
  pub unstarted : t.history.unstarted ≡ s.history.unstarted + 1

-- Why a connection is turned down: no capacity is left, the executor is shut, or a call has not
-- returned.
pub data Cause (outcome : ℕ → Outcome) (s : Server) : Type 0 where
  is_full : s.capacity ≡ 0 → Cause outcome s
  is_shut : s.executor.is_shutdown ≡ true → Cause outcome s
  call_failed : (n : ℕ) → outcome n ≢ returns → Cause outcome s

pub data Fate (outcome : ℕ → Outcome) (k : Connection) (s t : Server) : Type 0 where
  turned : Cause outcome s → IsTurned k s t → Fate outcome k s t
  queued : IsQueued k s t → Fate outcome k s t
  unstarted : (n : ℕ) → outcome n ≢ returns → HasFailed k s t → Fate outcome k s t
