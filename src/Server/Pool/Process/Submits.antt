-- ===== src/Server/Pool/Process/Submits.antt =====
-- How a call of `process_request` ends, from the statements up to `submit`.
use xmlrpc_extended.Prelude.{
  ℕ, suc, ◌-◌, ◌≡◌, ◌≢◌, ◌⊎◌, inl, inr, refl, sym, ◌∙◌, Bool, true, false, some, arith,
}
use xmlrpc_extended.Server.Pool.State.{
  release, Connection, Outcome, returns, raises, exits, Server, is_block, acquire_capacity,
  try_acquire,
}
use xmlrpc_extended.Server.Pool.Accept.{
  AcceptPc, listening, timed, acquired, recorded, rejected, accept_step, after_acquire, submit,
}
use xmlrpc_extended.Server.Pool.Calls.{EndsBy, EndsBy-over, EndsBy-step}
use xmlrpc_extended.Server.Pool.Process.{
  is_between, Cause, is_full, is_shut, Fate, turned, queued, unstarted,
}
use xmlrpc_extended.Server.Pool.Process.Ends.{Closes, IsLike, rejected-Ends, refused-Ends}

module _ (outcome : ℕ → Outcome) (k : Connection) (s : Server) where
  abbrev pub CallEndsBy : ℕ → Server → AcceptPc → Type 0
  CallEndsBy = EndsBy accept_step is_between outcome (Fate outcome k s)

  -- What came before in the call left the executor alone and closed nothing.
  abbrev pub IsBegun : Server → Type 0
  IsBegun t = IsLike k (Fate outcome k s) s t

  pub IsBegun-turned : (t : Server) → Cause outcome s → IsBegun t → Closes k (Fate outcome k s) t
  IsBegun-turned t why l u e same c less = turned why (record {
    capacity = c ∙ l.capacity;
    executor = e ∙ l.executor;
    closed = omega (arith, l.closed, less);
  })

  failed-Closes :
      (t : Server) (n : ℕ)
      → outcome n ≢ returns
      → s.executor.is_shutdown ≡ false
      → IsBegun (release t)
      → Closes k (Fate outcome k s) (release (submit false raises k t).0)
  unfolding submit release
  failed-Closes t n failed h l u e same c less = unstarted n failed (record {
    capacity = c ∙ l.capacity;
    is_open = h;
    executor = e ∙ rw (l.executor) refl;
    closed = omega (arith, l.closed, less);
    unstarted = omega (arith, l.unstarted, same);
  })

  submit-Ends :
      (fuel n : ℕ) (t : Server) (shut : Bool) (o : Outcome)
      → outcome n ≡ o
      → s.executor.is_shutdown ≡ shut
      → IsBegun (release t)
      → CallEndsBy (suc (suc (suc fuel))) (submit shut o k t).0 (submit shut o k t).1
  unfolding submit release
  submit-Ends fuel n t true o at h l =
      refused-Ends k (Fate outcome k s) fuel _
        (λ u e same c less. IsBegun-turned _ (is_shut h) l u e same c less) outcome
  submit-Ends fuel n t false returns at h l =
      EndsBy-over accept_step is_between outcome _ _ listening refl (
        queued (record {
          capacity = l.capacity;
          is_open = h;
          executor = rw (l.executor) refl;
          kept = l.closed;
        }))
  submit-Ends fuel n t false raises at h l =
      refused-Ends k (Fate outcome k s) fuel _ (failed-Closes t n (λ r. cc) h l) outcome
  submit-Ends fuel n t false exits at h l =
      refused-Ends k (Fate outcome k s) fuel _ (failed-Closes t n (λ r. cc) h l) outcome

  recorded-Ends :
      (fuel : ℕ) (t : Server)
      → IsBegun (release t)
      → CallEndsBy (suc (suc (suc (suc fuel)))) t (recorded k)
  unfolding accept_step release
  recorded-Ends fuel t l =
      let n = suc (suc (suc fuel)) in
      EndsBy-step accept_step is_between outcome n t _ (recorded k) _ refl refl
        (submit-Ends fuel n t t.executor.is_shutdown (outcome n) refl (rw (l.executor) refl) l)

  acquired-Ends :
      (fuel : ℕ) (t : Server)
      → IsBegun (release t)
      → CallEndsBy (suc (suc (suc (suc (suc fuel))))) t (acquired k)
  unfolding accept_step release
  acquired-Ends fuel t l =
      EndsBy-step accept_step is_between outcome _ t _ (acquired k) (recorded k) refl refl (
        recorded-Ends fuel _ (record {
          capacity = l.capacity;
          executor = l.executor;
          unstarted = l.unstarted;
          closed = l.closed;
        }))

  acquire_capacity-cases :
      (t : Server)
      → (is_block t.config.overload_policy ≡ true → t.capacity ≢ 0)
      → ((t.capacity ≡ 0) × (acquire_capacity t ≡ some (false, t)))
        ⊎ ((t.capacity ≢ 0)
            × (acquire_capacity t ≡ some (true, record t { capacity = t.capacity - 1 })))
  unfolding acquire_capacity try_acquire
  acquire_capacity-cases t h = ground arith

  pub timed-Ends :
      (fuel : ℕ) (t : Server)
      → (is_block t.config.overload_policy ≡ true → t.capacity ≢ 0)
      → IsBegun t
      → CallEndsBy (suc (suc (suc (suc (suc (suc fuel)))))) t (timed k)
  unfolding accept_step release after_acquire
  timed-Ends fuel t h l = elim (acquire_capacity-cases t h) [
    | inl (full, e) ↦
        EndsBy-step accept_step is_between outcome _ t t (timed k) (rejected k) refl
          (rw (e, accept_step) refl)
          (rejected-Ends k (Fate outcome k s) (suc fuel) t
            (IsBegun-turned t (is_full (sym l.capacity ∙ full)) l) outcome)
    | inr (some_left, e) ↦
        let got = record t { capacity = t.capacity - 1 } in
        EndsBy-step accept_step is_between outcome _ t got (timed k) (acquired k) refl
          (rw (e, accept_step) refl)
          (acquired-Ends fuel got (record {
            capacity = omega (arith, l.capacity, some_left);
            executor = l.executor;
            unstarted = l.unstarted;
            closed = l.closed;
          }))
  ]
