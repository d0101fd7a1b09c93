-- ===== src/Server/Pool/WorkerCall/Laws.antt =====
-- How a call of `_process_request_worker` ends.
use xmlrpc_extended.Prelude.{
  ℕ, suc, ◌+◌, ◌-◌, ◌≤◌, ◌≡◌, ◌≢◌, ◌⊎◌, inl, inr, refl, sym, ap, ◌∙◌, subst, true, List, ◌∷◌, some,
  arith,
}
use xmlrpc_extended.Server.Stats.{record_started, record_completed, record_errored}
use xmlrpc_extended.Server.Pool.State.{
  Connection, Outcome, returns, raises, exits, Io, finish_request, shutdown_request, handle_error,
  Server, call, release,
}
use xmlrpc_extended.Server.Pool.Worker.{
  WorkerPc, idle, picked, started, served, finished, caught, handled, failed, leaving, worker_step,
  escape, in_try, in_except,
}
use xmlrpc_extended.Server.Pool.Calls.{at_least_7, closes, EndsBy, EndsBy-over, EndsBy-step}
use xmlrpc_extended.Server.Pool.WorkerCall.{
  is_idle, process_request_worker, try_outcome, except_outcome, completed, errored, escaped, IsDone,
}

try_outcome_failed : (o p : Outcome) → o ≢ returns → try_outcome o p ≡ o
try_outcome_failed returns p h = absurd (h refl)
try_outcome_failed raises p h = refl
try_outcome_failed exits p h = refl

module _ (outcome : ℕ → Outcome) (tried excepted : Outcome) (k : Connection) (s : Server) where
  abbrev CallEnds : ℕ → Server → WorkerPc → Type 0
  CallEnds = EndsBy worker_step is_idle outcome (IsDone tried excepted k s)

  -- Within the call, with `n` the times that the connection was closed.
  record IsWithin (n : ℕ) (t : Server) : Type 0 where
    capacity : t.capacity ≡ s.capacity
    executor : t.executor ≡ s.executor
    stats : t.stats ≡ record_started s.stats
    escaped : t.history.escaped ≡ s.history.escaped
    closed : closes k s.history.io + n ≤ closes k t.history.io

  leaving-Ends :
      (fuel : ℕ) (t : Server)
      → IsDone tried excepted k s (release t)
      → CallEnds (suc fuel) t (leaving k)
  unfolding worker_step
  leaving-Ends fuel t h =
      EndsBy-step worker_step is_idle outcome fuel t (release t) (leaving k) idle refl refl
        (EndsBy-over worker_step is_idle outcome fuel (release t) idle refl h)

  escape-Ends :
      (fuel n : ℕ) (t : Server)
      → (tried ≡ exits) ⊎ ((tried ≡ raises) × (excepted ≢ returns))
      → IsWithin n t
      → CallEnds (suc fuel) (escape k t).0 (escape k t).1
  unfolding escape release
  escape-Ends fuel n t e h = leaving-Ends fuel (escape k t).0 (record {
    capacity = omega (arith, h.capacity);
    executor = h.executor;
    count = escaped e h.stats (omega (arith, h.escaped));
  })

  finished-Ends :
      (fuel : ℕ) (t : Server)
      → tried ≡ returns
      → IsWithin 1 t
      → CallEnds (suc (suc fuel)) t (finished k)
  unfolding worker_step release
  finished-Ends fuel t e h =
      let u = record t { stats = record_completed t.stats } in
      EndsBy-step worker_step is_idle outcome (suc fuel) t u (finished k) (leaving k) refl refl (
        leaving-Ends fuel u (record {
          capacity = omega (arith, h.capacity);
          executor = h.executor;
          count = completed e (rw (h.stats) refl) h.escaped (omega (arith, h.closed));
        }))

  failed-Ends :
      (fuel : ℕ) (t : Server)
      → tried ≡ raises
      → excepted ≡ returns
      → IsWithin 1 t
      → CallEnds (suc (suc fuel)) t (failed k)
  unfolding worker_step release
  failed-Ends fuel t e f h =
      let u = record t { stats = record_errored t.stats } in
      EndsBy-step worker_step is_idle outcome (suc fuel) t u (failed k) (leaving k) refl refl (
        leaving-Ends fuel u (record {
          capacity = omega (arith, h.capacity);
          executor = h.executor;
          count = errored e f (rw (h.stats) refl) h.escaped (omega (arith, h.closed));
        }))

  -- A call in the `except`, and in the `try`.
  in_except-Ends :
      (fuel n : ℕ) (o : Outcome) (next : WorkerPc) (t : Server)
      → tried ≡ raises
      → (o ≢ returns → excepted ≢ returns)
      → IsWithin n t
      → (o ≡ returns → CallEnds (suc fuel) t next)
      → CallEnds (suc fuel) (in_except o k next t).0 (in_except o k next t).1
  unfolding in_except
  in_except-Ends fuel n returns next t at x h e = e refl
  in_except-Ends fuel n raises next t at x h e = escape-Ends fuel n t (inr (at, x (λ r. cc))) h
  in_except-Ends fuel n exits next t at x h e = escape-Ends fuel n t (inr (at, x (λ r. cc))) h

  in_try-Ends :
      (fuel n : ℕ) (o : Outcome) (next : WorkerPc) (t : Server)
      → (o ≢ returns → tried ≡ o)
      → IsWithin n t
      → (o ≡ returns → CallEnds (suc fuel) t next)
      → (o ≡ raises → tried ≡ raises → CallEnds (suc fuel) t (caught k))
      → CallEnds (suc fuel) (in_try o k next t).0 (in_try o k next t).1
  unfolding in_try
  in_try-Ends fuel n returns next t at h e c = e refl
  in_try-Ends fuel n raises next t at h e c = c refl (at (λ r. cc))
  in_try-Ends fuel n exits next t at h e c = escape-Ends fuel n t (inl (at (λ r. cc))) h

  -- A call that closes nothing, and the one that closes the connection.
  called :
      (n : ℕ) (c : Io) (t : Server)
      → ((io : List Io) → closes k (c ∷ io) ≡ closes k io)
      → IsWithin n t
      → IsWithin n (call c t)
  called n c t e h = record {
    capacity = h.capacity;
    executor = h.executor;
    stats = h.stats;
    escaped = h.escaped;
    closed = omega (arith, h.closed, e t.history.io);
  }

  shut : (t : Server) → IsWithin 0 t → IsWithin 1 (call (shutdown_request k) t)
  unfolding closes
  shut t h = record {
    capacity = h.capacity;
    executor = h.executor;
    stats = h.stats;
    escaped = h.escaped;
    closed = ground (arith, h.closed);
  }

  weaken : (t : Server) → IsWithin 1 t → IsWithin 0 t
  weaken t h = record {
    capacity = h.capacity;
    executor = h.executor;
    stats = h.stats;
    escaped = h.escaped;
    closed = omega (arith, h.closed);
  }

  handled-Ends :
      (fuel : ℕ) (t : Server)
      → tried ≡ raises
      → excepted ≡ outcome (suc (suc fuel))
      → IsWithin 0 t
      → CallEnds (suc (suc (suc fuel))) t (handled k)
  unfolding worker_step
  handled-Ends fuel t r e h =
      let u = shut t h in
      let m = suc (suc fuel) in
      EndsBy-step worker_step is_idle outcome m t _ (handled k) _ refl refl (
        in_except-Ends (suc fuel) 1 (outcome m) (failed k) _ r (λ n q. n (sym e ∙ q)) u
          (λ q. failed-Ends fuel _ r (e ∙ q) u))

  caught-Ends :
      (fuel : ℕ) (t : Server)
      → IsWithin 0 t
      → excepted ≡ try_outcome (outcome (suc (suc (suc fuel)))) (outcome (suc (suc fuel)))
      → tried ≡ raises
      → CallEnds (suc (suc (suc (suc fuel)))) t (caught k)
  unfolding worker_step closes
  caught-Ends fuel t h e r =
      let u = called 0 (handle_error k) t (λ io. refl) h in
      let m = suc (suc (suc fuel)) in
      EndsBy-step worker_step is_idle outcome m t _ (caught k) _ refl refl (
        in_except-Ends (suc (suc fuel)) 0 (outcome m) (handled k) _ r
          (λ n q. n (sym (try_outcome_failed _ _ n) ∙ sym e ∙ q)) u
          (λ q. handled-Ends fuel _ r (e ∙ ap (λ o. try_outcome o (outcome (suc (suc fuel)))) q) u))

  served-Ends :
      (fuel : ℕ) (t : Server)
      → tried ≡ outcome (suc (suc (suc (suc fuel))))
      → excepted ≡ try_outcome (outcome (suc (suc (suc fuel)))) (outcome (suc (suc fuel)))
      → IsWithin 0 t
      → CallEnds (suc (suc (suc (suc (suc fuel))))) t (served k)
  unfolding worker_step
  served-Ends fuel t e x h =
      let u = shut t h in
      let m = suc (suc (suc (suc fuel))) in
      EndsBy-step worker_step is_idle outcome m t _ (served k) _ refl refl (
        in_try-Ends (suc (suc (suc fuel))) 1 (outcome m) (finished k) _ (λ n. e) u
          (λ r. finished-Ends (suc (suc fuel)) _ (e ∙ r) u)
          (λ r. caught-Ends fuel _ (weaken _ u) x))

  started-Ends :
      (fuel : ℕ) (t : Server)
      → tried
        ≡ try_outcome
            (outcome (suc (suc (suc (suc (suc fuel))))))
            (outcome (suc (suc (suc (suc fuel)))))
      → excepted
        ≡ except_outcome
            (outcome (suc (suc (suc (suc (suc fuel))))))
            (outcome (suc (suc (suc (suc fuel)))))
            (outcome (suc (suc (suc fuel))))
            (outcome (suc (suc fuel)))
      → IsWithin 0 t
      → CallEnds (suc (suc (suc (suc (suc (suc fuel)))))) t (started k)
  unfolding worker_step closes
  started-Ends fuel t e x h =
      let u = called 0 (finish_request k) t (λ io. refl) h in
      let m = suc (suc (suc (suc (suc fuel)))) in
      EndsBy-step worker_step is_idle outcome m t _ (started k) _ refl refl (
        in_try-Ends (suc (suc (suc (suc fuel)))) 0 (outcome m) (served k) _
          (λ n. e ∙ try_outcome_failed _ _ n) u
          (λ r.
            served-Ends fuel _
              (e ∙ ap (λ o. try_outcome o (outcome (suc (suc (suc (suc fuel)))))) r)
              (x
                ∙ ap
                    (λ o.
                      except_outcome o (outcome (suc (suc (suc (suc fuel)))))
                        (outcome (suc (suc (suc fuel)))) (outcome (suc (suc fuel))))
                    r)
              u)
          (λ r. caught-Ends (suc fuel) _ u (
            x
            ∙ ap
                (λ o.
                  except_outcome o (outcome (suc (suc (suc (suc fuel)))))
                    (outcome (suc (suc (suc fuel)))) (outcome (suc (suc fuel))))
                r)))

  picked-Ends :
      (fuel : ℕ)
      → tried
        ≡ try_outcome
            (outcome (suc (suc (suc (suc (suc fuel))))))
            (outcome (suc (suc (suc (suc fuel)))))
      → excepted
        ≡ except_outcome
            (outcome (suc (suc (suc (suc (suc fuel))))))
            (outcome (suc (suc (suc (suc fuel)))))
            (outcome (suc (suc (suc fuel))))
            (outcome (suc (suc fuel)))
      → CallEnds (suc (suc (suc (suc (suc (suc (suc fuel))))))) s (picked k)
  unfolding worker_step
  picked-Ends fuel e x =
      let t = record s { stats = record_started s.stats } in
      EndsBy-step worker_step is_idle outcome (suc (suc (suc (suc (suc (suc fuel)))))) s t
        (picked k) (started k) refl refl
        (started-Ends fuel t e x (record {
          capacity = refl;
          executor = refl;
          stats = refl;
          escaped = refl;
          closed = omega arith;
        }))

-- The statements by the fuel that is left.
back_2 : (n : ℕ) → 7 ≤ n → n - 2 ≡ suc (suc (suc (suc (suc (n - 7)))))
back_2 n h = omega (arith, h)

back_3 : (n : ℕ) → 7 ≤ n → n - 3 ≡ suc (suc (suc (suc (n - 7))))
back_3 n h = omega (arith, h)

back_4 : (n : ℕ) → 7 ≤ n → n - 4 ≡ suc (suc (suc (n - 7)))
back_4 n h = omega (arith, h)

back_5 : (n : ℕ) → 7 ≤ n → n - 5 ≡ suc (suc (n - 7))
back_5 n h = omega (arith, h)

-- A call of `_process_request_worker` takes at most seven statements, however its calls end. It
-- gives one unit of capacity back and leaves the executor alone. Where `finish_request` and the
-- `shutdown_request` behind it return, the request is counted as completed and its connection is
-- closed. Where one of them raises an `Exception` and both calls of the `except` return, the request
-- is counted as errored and its connection is closed. Where one raises anything else, or a call of
-- the `except` does not return, an exception gets out, and the request still counts as active.
pub process_request_worker-IsDone :
    (outcome : ℕ → Outcome) (fuel : ℕ) (k : Connection) (s : Server)
    → 7 ≤ fuel
    → (t : Server) × (q : WorkerPc) × (process_request_worker fuel outcome s (picked k)
        ≡ some (t, q))
      × (is_idle q ≡ true)
      × IsDone
          (try_outcome (outcome (fuel - 2)) (outcome (fuel - 3)))
          (except_outcome
            (outcome (fuel - 2))
            (outcome (fuel - 3))
            (outcome (fuel - 4))
            (outcome (fuel - 5)))
          k
          s
          t
process_request_worker-IsDone outcome fuel k s enough =
    let tried = try_outcome (outcome (fuel - 2)) (outcome (fuel - 3)) in
    let excepted =
      except_outcome (outcome (fuel - 2)) (outcome (fuel - 3)) (outcome (fuel - 4))
        (outcome (fuel - 5)) in
    subst (λ n. CallEnds outcome tried excepted k s n s (picked k)) (at_least_7 fuel enough)
      (picked-Ends outcome tried excepted k s (fuel - 7)
        (rw (back_2 fuel enough, back_3 fuel enough) refl)
        (rw (back_2 fuel enough, back_3 fuel enough, back_4 fuel enough, back_5 fuel enough) refl))
