-- ===== src/Server/Pool/Process/Laws.antt =====
-- A call of `process_request` from its first statement.
use xmlrpc_extended.Prelude.{ℕ, suc, ◌-◌, ◌≤◌, ◌≡◌, ◌≢◌, refl, subst, true, Option, none, some}
use xmlrpc_extended.Python.Float.{Float}
use xmlrpc_extended.Server.Config.{ServerOverloadPolicy, block, close, fault, http_503}
use xmlrpc_extended.Server.Pool.State.{
  Connection, Outcome, returns, raises, exits, Server, is_block,
}
use xmlrpc_extended.Server.Pool.Accept.{AcceptPc, arrived, accept_step, set_timeout}
use xmlrpc_extended.Server.Pool.Calls.{closes, EndsBy-step, at_least_7}
use xmlrpc_extended.Server.Pool.Process.{process_request, is_between, call_failed, Fate}
use xmlrpc_extended.Server.Pool.Process.Ends.{raised-Ends, fatal-Ends}
use xmlrpc_extended.Server.Pool.Process.Submits.{CallEndsBy, IsBegun-turned, timed-Ends}

module _ (outcome : ℕ → Outcome) (k : Connection) (s : Server)
    (h : is_block s.config.overload_policy ≡ true → s.capacity ≢ 0) where
  set_timeout-Ends :
      (fuel n : ℕ) (limit : Option Float) (o : Outcome)
      → outcome n ≡ o
      → CallEndsBy outcome k s
          (suc (suc (suc (suc (suc (suc fuel))))))
          (set_timeout limit o k s).0
          (set_timeout limit o k s).1
  unfolding set_timeout closes
  set_timeout-Ends fuel n none o at =
      timed-Ends outcome k s fuel s h
        (record { capacity = refl; executor = refl; unstarted = refl; closed = refl })
  set_timeout-Ends fuel n (some l) returns at =
      timed-Ends outcome k s fuel _ h
        (record { capacity = refl; executor = refl; unstarted = refl; closed = refl })
  set_timeout-Ends fuel n (some l) raises at =
      raised-Ends k (Fate outcome k s) _ _
        (IsBegun-turned outcome k s (set_timeout (some l) raises k s).0 (call_failed n (λ r. cc))
          (record { capacity = refl; executor = refl; unstarted = refl; closed = refl }))
        outcome
  set_timeout-Ends fuel n (some l) exits at =
      fatal-Ends k (Fate outcome k s) _ _
        (IsBegun-turned outcome k s (set_timeout (some l) exits k s).0 (call_failed n (λ r. cc))
          (record { capacity = refl; executor = refl; unstarted = refl; closed = refl }))
        outcome

  arrived-Ends :
      (fuel : ℕ)
      → CallEndsBy outcome k s (suc (suc (suc (suc (suc (suc (suc fuel))))))) s (arrived k)
  unfolding accept_step
  arrived-Ends fuel =
      let n = suc (suc (suc (suc (suc (suc fuel))))) in
      EndsBy-step accept_step is_between outcome n s _ (arrived k) _ refl refl
        (set_timeout-Ends fuel n s.config.connection_timeout (outcome n) refl)

is_block-of_block : (p : ServerOverloadPolicy) → is_block p ≡ true → p ≡ block
is_block-of_block block h = refl
is_block-of_block close h = cc
is_block-of_block fault h = cc
is_block-of_block http_503 h = cc

-- A call of `process_request` for a connection takes at most seven statements, however its calls
-- end, unless it waits (the policy is BLOCK and no capacity is left). Then the connection is closed,
-- the queue is as before and no capacity is held, where no capacity was left, the executor was shut
-- or some call did not return; or the connection is at the end of the queue of an open executor, not
-- closed, with one unit of capacity; or `submit` queued it and could not start a thread, and it is
-- closed and holds no capacity all the same.
pub process_request-Fate :
    (outcome : ℕ → Outcome) (fuel : ℕ) (k : Connection) (s : Server)
    → 7 ≤ fuel
    → (s.config.overload_policy ≡ block → s.capacity ≢ 0)
    → (t : Server) × (q : AcceptPc) × (process_request fuel outcome s (arrived k) ≡ some (t, q))
      × (is_between q ≡ true)
      × Fate outcome k s t
process_request-Fate outcome fuel k s enough h =
    subst (λ n. CallEndsBy outcome k s n s (arrived k)) (at_least_7 fuel enough)
      (arrived-Ends outcome k s (λ e. h (is_block-of_block _ e)) (fuel - 7))
