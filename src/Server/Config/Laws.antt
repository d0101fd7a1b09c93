-- ===== src/Server/Config/Laws.antt =====
-- What the checks of `__init__` guarantee, and which arguments they refuse.
use xmlrpc_extended.Prelude.{
  ℕ, ◌+◌, ◌≤◌, ◌≡◌, ◌≢◌, refl, sym, ap, ap₂, ◌∙◌, ◌↔◌, ◌⊎◌, inl, inr, true, false, Option, none,
  some, arith,
}
use xmlrpc_extended.Prelude.Int.{ℤ, pos, pos_part, ◌≤ℤ◌, ◌+ℤ◌}
use xmlrpc_extended.Python.Float.{Float, finite, infinite, nan, is_positive}
use xmlrpc_extended.Server.Config.{
  ServerOverloadPolicy, value, text, Result, ok, raised, to_policy, ValueError, invalid_policy,
  max_workers_low, max_pending_low, request_queue_size_low, max_request_size_low,
  connection_timeout_low, XmlrpcServerConfig, Args, or_else, effective_pending, total_capacity,
  timeout_low, configure,
}

-- The value of a member names that member, and no other string names it.
pub to_policy-value : (p q : ServerOverloadPolicy) → (to_policy (text (value p)) ≡ ok q) ↔ (p ≡ q)
unfolding to_policy
to_policy-value p q = ground arith

-- A timeout is absent, positive, or the one number that compares with nothing.
abbrev pub IsAllowedTimeout : Option Float → Type 0
IsAllowedTimeout none = Unit
IsAllowedTimeout (some t) = (is_positive t ≡ true) ⊎ (t ≡ nan)

timeout_low-IsAllowedTimeout : (t : Option Float) → timeout_low t ≡ false → IsAllowedTimeout t
unfolding timeout_low is_positive
timeout_low-IsAllowedTimeout none h = tt
timeout_low-IsAllowedTimeout (some (finite n m e)) h = inl (ground arith)
timeout_low-IsAllowedTimeout (some (infinite n)) h = inl (ground arith)
timeout_low-IsAllowedTimeout (some nan) h = inr refl

IsAllowedTimeout-timeout_low : (t : Option Float) → IsAllowedTimeout t → timeout_low t ≡ false
unfolding timeout_low is_positive
IsAllowedTimeout-timeout_low none h = refl
IsAllowedTimeout-timeout_low (some t) h = ground arith

-- The number of pending requests that is meant: the one that is given, or as many as there are
-- workers.
abbrev pub IsPending : Option ℤ → (max_workers pending : ℤ) → Type 0
IsPending none max_workers pending = pending ≡ max_workers
IsPending (some n) max_workers pending = pending ≡ n

pub effective-IsPending :
    (given : Option ℤ) (max_workers : ℤ) → IsPending given max_workers (or_else given max_workers)
effective-IsPending none max_workers = refl
effective-IsPending (some n) max_workers = refl

IsPending-effective_pending :
    (given : Option ℤ) (max_workers pending : ℤ)
    → IsPending given max_workers pending
    → pending ≡ or_else given max_workers
IsPending-effective_pending none max_workers pending h = h
IsPending-effective_pending (some n) max_workers pending h = h

-- The documented bounds on the arguments.
pub record IsAllowed (a : Args) : Type 0 where
  pub workers : pos 1 ≤ℤ a.max_workers
  pub pending : (n : ℤ) → IsPending a.max_pending a.max_workers n → pos 0 ≤ℤ n
  pub backlog : pos 1 ≤ℤ a.request_queue_size
  pub size : pos 1 ≤ℤ a.max_request_size
  pub timeout : IsAllowedTimeout a.connection_timeout

-- The configuration that the arguments ask for.
abbrev pub requested : Args → ServerOverloadPolicy → (pending : ℤ) → XmlrpcServerConfig
requested a p pending = record {
  max_workers = a.max_workers;
  max_pending = some pending;
  request_queue_size = a.request_queue_size;
  overload_policy = p;
  max_request_size = a.max_request_size;
  overload_fault_code = a.overload_fault_code;
  overload_fault_string = a.overload_fault_string;
  connection_timeout = a.connection_timeout;
}

-- Allowed arguments with a known policy are accepted, and kept as they are given; an absent
-- `max_pending` becomes `max_workers`.
pub configure_of_IsAllowed :
    (a : Args) (p : ServerOverloadPolicy)
    → to_policy a.overload_policy ≡ ok p
    → IsAllowed a
    → configure a ≡ ok (requested a p (effective_pending a), total_capacity a)
unfolding configure
configure_of_IsAllowed a p e h =
    let enough = h.pending _ (effective-IsPending a.max_pending a.max_workers) in
    ground (arith, IsAllowedTimeout-timeout_low a.connection_timeout, enough)

-- Arguments that are accepted are allowed, and the policy is known.
pub configure-IsAllowed :
    (a : Args) (c : XmlrpcServerConfig) (n : ℤ)
    → configure a ≡ ok (c, n)
    → IsAllowed a × (to_policy a.overload_policy ≡ ok c.overload_policy)
unfolding configure
configure-IsAllowed a c n e = (
  record {
    workers = ground arith;
    pending = λ n h.
        let same = IsPending-effective_pending a.max_pending a.max_workers n h in ground arith;
    backlog = ground arith;
    size = ground arith;
    timeout = timeout_low-IsAllowedTimeout a.connection_timeout (ground arith);
  },
  ground arith,
)

-- The semaphore of an accepted configuration starts with one slot for each worker and one for each
-- pending request, and there is at least one worker.
pub configure-capacity :
    (a : Args) (c : XmlrpcServerConfig) (n : ℤ)
    → configure a ≡ ok (c, n)
    → (workers pending : ℕ) × (1 ≤ workers)
      × (c.max_workers ≡ pos workers)
      × (c.max_pending ≡ some (pos pending))
      × (n ≡ pos (workers + pending))
unfolding configure
configure-capacity a c n e = (
  pos_part a.max_workers,
  pos_part (effective_pending a),
  ground arith,
  ground arith,
  ground arith,
  ground arith,
)

ok-injective : {A : Type 0} (x y : A) → Result.ok x ≡ ok y → x ≡ y
ok-injective x y e = cc

-- The arguments that are accepted are the allowed ones with a known policy, and they are kept as
-- they are given; the number of pending requests is `max_pending`, or `max_workers` where that is
-- absent, and the semaphore starts with a slot for each worker and for each pending request.
pub configure_iff :
    (a : Args) (c : XmlrpcServerConfig) (n : ℤ)
    → (configure a ≡ ok (c, n)) ↔ (
        IsAllowed a
        × (to_policy a.overload_policy ≡ ok c.overload_policy)
        × ((pending : ℤ) × IsPending a.max_pending a.max_workers pending
            × (c ≡ requested a c.overload_policy pending)
            × (n ≡ a.max_workers +ℤ pending)))
configure_iff a c n = (
  λ e.
      let (allowed, known) = configure-IsAllowed a c n e in
      let same =
        ok-injective _ _ (sym e ∙ configure_of_IsAllowed a c.overload_policy known allowed) in
      (
        allowed,
        known,
        (
          effective_pending a,
          effective-IsPending a.max_pending a.max_workers,
          ap (λ r. r.0) same,
          ap (λ r. r.1) same,
        ),
      ),
  λ (allowed, known, (pending, meant, kept, capacity)).
      let same = IsPending-effective_pending a.max_pending a.max_workers pending meant in
      configure_of_IsAllowed a c.overload_policy known allowed
      ∙ ap₂ (λ x y. ok (x, y)) (ap (requested a c.overload_policy) (sym same) ∙ sym kept)
          (ap (◌+ℤ◌ a.max_workers) (sym same) ∙ sym capacity),
)

-- What is wrong with arguments that are refused by an error.
abbrev pub Reason : Args → ValueError → Type 0
Reason a invalid_policy = (p : ServerOverloadPolicy) → to_policy a.overload_policy ≢ ok p
Reason a max_workers_low = ¬ (pos 1 ≤ℤ a.max_workers)
Reason a max_pending_low = (n : ℤ) → IsPending a.max_pending a.max_workers n → ¬ (pos 0 ≤ℤ n)
Reason a request_queue_size_low = ¬ (pos 1 ≤ℤ a.request_queue_size)
Reason a max_request_size_low = ¬ (pos 1 ≤ℤ a.max_request_size)
Reason a connection_timeout_low = ¬ IsAllowedTimeout a.connection_timeout

-- Arguments that are refused are refused for the reason that the error names.
pub configure-raised : (a : Args) (e : ValueError) → configure a ≡ raised e → Reason a e
unfolding configure
configure-raised a invalid_policy h = λ p k. ground arith
configure-raised a max_workers_low h = ground arith
configure-raised a max_pending_low h = λ n k low.
    let same = IsPending-effective_pending a.max_pending a.max_workers n k in ground arith
configure-raised a request_queue_size_low h = ground arith
configure-raised a max_request_size_low h = ground arith
configure-raised a connection_timeout_low h =
    λ k. ground (arith, IsAllowedTimeout-timeout_low a.connection_timeout)
