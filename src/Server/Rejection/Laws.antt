-- ===== src/Server/Rejection/Laws.antt =====
-- What a rejected client gets, and the rejection as a run of the pool's accept thread.
use xmlrpc_extended.Prelude.{
  ℕ, suc, ◌+◌, ◌≡◌, ◌==◌, refl, ◌∙◌, Bool, true, false, [], Option, none, some, arith,
  if◌then◌else◌, ap, subst,
}
use mathlib.Core.Option.{some-injective}
use xmlrpc_extended.Prelude.Int.{ℤ}
use xmlrpc_extended.Python.Text.{Text, Bytes}
use xmlrpc_extended.Server.Config.{ServerOverloadPolicy, block, close, fault, http_503}
use xmlrpc_extended.Server.Stats.{record_rejected_close}
use xmlrpc_extended.Server.Pool.State.{
  Connection, Outcome, returns, raises, exits, call, shutdown_request, Server,
}
use xmlrpc_extended.Server.Pool.Accept.{
  AcceptPc, listening, rejected, replying, closing, raised, fatal, accept_step, reject, reply,
  unless_raised,
}
use xmlrpc_extended.Server.Pool.Calls.{closes, run_call, run_call-over, run_call-next}
use xmlrpc_extended.Server.Reject.{Peer}
use xmlrpc_extended.Server.Rejection.{
  Rejection, Sending, sent, unsent, after_sending, reject_by, reject_request,
}

-- `_reject_request` has ended, with or without an exception.
abbrev pub is_left : AcceptPc → Bool
is_left listening = true
is_left (raised r) = true
is_left (fatal r) = true
is_left _ = false

abbrev pub calls_shut : Rejection → ℕ
calls_shut r = if r.is_shut then 1 else 0

-- The accept thread of the pool can do the same from `rejected k`: count the same, call
-- `shutdown_request` as often, and leave `_reject_request` the same way.
pub record IsRun (k : Connection) (s : Server) (r : Rejection) (t : Server) : Type 0 where
  pub stats : t.stats ≡ r.stats
  pub capacity : t.capacity ≡ s.capacity
  pub executor : t.executor ≡ s.executor
  pub closed : closes k t.history.io ≡ closes k s.history.io + calls_shut r

abbrev pub Simulates : Connection → Server → Rejection → Type 0
Simulates k s r =
    (outcome : ℕ → Outcome) × (t : Server) × (run_call accept_step is_left 3 outcome s (rejected k)
      ≡ some (t, unless_raised r.ending k listening))
    × IsRun k s r t

is_left-unless_raised :
    (o : Outcome) (k : Connection) → is_left (unless_raised o k listening) ≡ true
is_left-unless_raised returns k = refl
is_left-unless_raised raises k = refl
is_left-unless_raised exits k = refl

module _ (k : Connection) (shut : Outcome) (s : Server) where
  -- `closing k` is left by its call of `shutdown_request`.
  closing-left :
      (fuel : ℕ) (outcome : ℕ → Outcome) (o : Outcome) (u : Server)
      → outcome fuel ≡ o
      → run_call accept_step is_left (suc fuel) outcome u (closing k)
        ≡ some (call (shutdown_request k) u, unless_raised o k listening)
  unfolding accept_step
  closing-left fuel outcome o u e =
      run_call-next accept_step is_left fuel outcome u _ (closing k) _ _ refl
        (rw (e, accept_step) refl)
        (run_call-over accept_step is_left fuel outcome _ _ (is_left-unless_raised o k))

  module _ (u : Server) (silent : reject s.config.overload_policy k s ≡ (u, closing k)) where
    silent-run :
        run_call accept_step is_left 3 (λ n. shut) s (rejected k)
        ≡ some (call (shutdown_request k) u, unless_raised shut k listening)
    unfolding accept_step
    silent-run =
        run_call-next accept_step is_left 2 (λ n. shut) s u (rejected k) (closing k) _ refl
          (ap {B = Option (Server × AcceptPc)} some silent) (closing-left 1 (λ n. shut) shut u refl)

  module _ (u v : Server) (answers : reject s.config.overload_policy k s ≡ (u, replying k))
      (answer : reply u.config.overload_policy k u ≡ v) where
    -- The response is sent.
    sent_last : ℕ → Outcome
    sent_last n = if n == 0 then shut else returns

    sent-run :
        run_call accept_step is_left 3 sent_last s (rejected k)
        ≡ some (call (shutdown_request k) v, unless_raised shut k listening)
    unfolding accept_step sent_last
    sent-run =
        run_call-next accept_step is_left 2 sent_last s u (rejected k) (replying k) _ refl
          (ap {B = Option (Server × AcceptPc)} some answers)
          (run_call-next accept_step is_left 1 sent_last u v (replying k) (closing k) _ refl
            (rw (answer, accept_step) refl) (closing-left 0 sent_last shut v refl))

    unsent-run : run_call accept_step is_left 3 (λ n. raises) s (rejected k) ≡ some (v, raised k)
    unfolding accept_step
    unsent-run =
        run_call-next accept_step is_left 2 (λ n. raises) s u (rejected k) (replying k) _ refl
          (ap {B = Option (Server × AcceptPc)} some answers)
          (run_call-next accept_step is_left 1 (λ n. raises) u v (replying k) (raised k) _ refl
            (rw (answer, accept_step) refl)
            (run_call-over accept_step is_left 1 (λ n. raises) v (raised k) refl))

    -- The answer changes nothing but the counters.
    record IsPlain : Type 0 where
      capacity : v.capacity ≡ s.capacity
      executor : v.executor ≡ s.executor
      closed : closes k v.history.io ≡ closes k s.history.io

    after_sending-Simulates :
        (sending : Option Sending) (r : Rejection)
        → IsPlain
        → after_sending shut v.stats sending ≡ some r
        → Simulates k s r
    unfolding after_sending closes
    after_sending-Simulates none r h e = cc
    after_sending-Simulates (some (sent calls)) r h e =
        subst (Simulates k s) (some-injective _ _ e) (
          sent_last,
          _,
          sent-run,
          record {
            stats = refl;
            capacity = h.capacity;
            executor = h.executor;
            closed = ground (arith, h.closed);
          },
        )
    after_sending-Simulates (some unsent) r h e = subst (Simulates k s) (some-injective _ _ e) (
      (λ n. raises),
      _,
      unsent-run,
      record {
        stats = refl;
        capacity = h.capacity;
        executor = h.executor;
        closed = omega (arith, h.closed);
      },
    )

  silent-Simulates :
      (p : ServerOverloadPolicy) (r : Rejection)
      → s.config.overload_policy ≡ p
      → reject p k s ≡ (record s { stats = record_rejected_close s.stats }, closing k)
      → after_sending shut (record_rejected_close s.stats) (some (sent [])) ≡ some r
      → Simulates k s r
  unfolding after_sending closes record_rejected_close
  silent-Simulates p r at silent e =
      let u = record s { stats = record_rejected_close s.stats } in
      subst (Simulates k s) (some-injective _ _ e) (
        (λ n. shut),
        _,
        silent-run u (ap {B = Server × AcceptPc} (λ q. reject q k s) at ∙ silent),
        record { stats = refl; capacity = refl; executor = refl; closed = ground arith },
      )

module _ (dumps_fault : ℤ → Text → Option Text) (encode : Text → Option Bytes) where
  reject_by-Simulates :
      (p : ServerOverloadPolicy) (fuel : ℕ) (peer : Peer) (shut : Outcome) (k : Connection)
      (s : Server) (r : Rejection)
      → s.config.overload_policy ≡ p
      → reject_by dumps_fault encode p fuel peer shut s.config s.stats ≡ some r
      → Simulates k s r
  unfolding reject_by reject reply closes
  reject_by-Simulates fault fuel peer shut k s r at e =
      let u = (reject fault k s).0 in
      after_sending-Simulates k shut s u (reply fault k u)
        (ap {B = Server × AcceptPc} (λ q. reject q k s) at) (ap {B = Server} (λ q. reply q k u) at)
        _ r (record { capacity = refl; executor = refl; closed = refl }) e
  reject_by-Simulates http_503 fuel peer shut k s r at e =
      let u = (reject http_503 k s).0 in
      after_sending-Simulates k shut s u (reply http_503 k u)
        (ap {B = Server × AcceptPc} (λ q. reject q k s) at) (ap {B = Server} (λ q. reply q k u) at)
        _ r (record { capacity = refl; executor = refl; closed = refl }) e
  reject_by-Simulates close fuel peer shut k s r at e = silent-Simulates k shut s close r at refl e
  reject_by-Simulates block fuel peer shut k s r at e = silent-Simulates k shut s block r at refl e

  -- When `_reject_request` comes to an end, the accept thread of the pool has a run from its first
  -- statement to where it is left that counts the same, calls `shutdown_request` for the connection
  -- as often, leaves capacity and queue alone, and ends the same way.
  pub reject_request-Simulates :
      (fuel : ℕ) (peer : Peer) (shut : Outcome) (k : Connection) (s : Server) (r : Rejection)
      → reject_request dumps_fault encode fuel peer shut s ≡ some r
      → Simulates k s r
  unfolding reject_request
  reject_request-Simulates fuel peer shut k s r e =
      reject_by-Simulates s.config.overload_policy fuel peer shut k s r refl e
