-- ===== src/Server/Pool/CallTests.antt =====
-- Whole calls of the two threads' methods at concrete servers.
use xmlrpc_extended.Prelude.{ℕ, ◌≡◌, ◌==◌, if◌then◌else◌, refl, true, [], ◌∷◌, some, arith}
use xmlrpc_extended.Server.Config.{ServerOverloadPolicy, block, fault, default_config}
use xmlrpc_extended.Server.Pool.State.{Outcome, returns, raises, Server, new_server}
use xmlrpc_extended.Server.Pool.Accept.{AcceptPc, listening, stopped, arrived, accept_step}
use xmlrpc_extended.Server.Pool.Worker.{WorkerPc, picked}
use xmlrpc_extended.Server.Pool.Calls.{run_call, closes}
use xmlrpc_extended.Server.Pool.Process.{process_request, is_between, Fate}
use xmlrpc_extended.Server.Pool.Process.Laws.{process_request-Fate}
use xmlrpc_extended.Server.Pool.WorkerCall.{process_request_worker, is_idle, IsDone}
use xmlrpc_extended.Server.Pool.WorkerCall.Laws.{process_request_worker-IsDone}

-- A server with so much capacity left.
abbrev left : ServerOverloadPolicy → ℕ → Server
left p n = new_server (record default_config { overload_policy = p }) n

-- The first call returns, the others raise.
abbrev first_returns : ℕ → Outcome
first_returns n = if n == 6 then returns else raises

-- With capacity the connection is queued, without it is turned down; a thread that does not start
-- leaves it in the queue, closed.
process_request_queues :
    (t : Server) × (process_request 7 (λ n. returns) (left block 1) (arrived 5)
      ≡ some (t, listening))
    × (t.executor.work_queue ≡ 5 ∷ [])
    × (t.capacity ≡ 0)
    × (closes 5 t.history.io ≡ 0)
unfolding run_call closes accept_step
process_request_queues = (_, refl, refl, refl, refl)

process_request_overloaded :
    (t : Server) × (process_request 7 first_returns (left fault 0) (arrived 5) ≡ some (t, stopped))
    × (t.executor.work_queue ≡ [])
    × (t.capacity ≡ 0)
    × (closes 5 t.history.io ≡ 1)
unfolding run_call closes accept_step
process_request_overloaded = (_, refl, refl, refl, refl)

process_request_unstarted :
    (t : Server) × (process_request 7 (λ n. raises) (left fault 1) (arrived 5) ≡ some (t, stopped))
    × (t.executor.work_queue ≡ 5 ∷ [])
    × (t.capacity ≡ 1)
    × (closes 5 t.history.io ≡ 2)
unfolding run_call closes accept_step
process_request_unstarted = (_, refl, refl, refl, refl)

process_request-Fate_example :
    (t : Server) × (q : AcceptPc) × (process_request 7 first_returns (left fault 1) (arrived 5)
      ≡ some (t, q))
    × (is_between q ≡ true)
    × Fate first_returns 5 (left fault 1) t
process_request-Fate_example =
    process_request-Fate first_returns 7 5 (left fault 1) (omega arith) (λ e. cc)

process_request_worker-IsDone_example :
    (t : Server) × (q : WorkerPc) × (process_request_worker 7 first_returns
        (left fault 1)
        (picked 5)
      ≡ some (t, q))
    × (is_idle q ≡ true)
    × IsDone raises raises 5 (left fault 1) t
process_request_worker-IsDone_example =
    process_request_worker-IsDone first_returns 7 5 (left fault 1) (omega arith)
