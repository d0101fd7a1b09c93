-- ===== src/Server/Pool/Process/Ends.antt =====
-- How a call of `process_request` ends, from the statements at which the connection is turned down.
use xmlrpc_extended.Prelude.{ℕ, suc, ◌<◌, ◌≡◌, refl, ◌∙◌, true, arith}
use xmlrpc_extended.Server.Config.{ServerOverloadPolicy, block, close, fault, http_503}
use xmlrpc_extended.Server.Pool.State.{release, Connection, Outcome, returns, raises, exits, Server}
use xmlrpc_extended.Server.Pool.Accept.{
  AcceptPc, listening, refused, released, rejected, replying, closing, raised, fatal, stopped,
  accept_step, unless_raised, unless_stopped, reply, reject,
}
use xmlrpc_extended.Server.Pool.Calls.{closes, Ends, Ends-over, Ends-step}
use xmlrpc_extended.Server.Pool.Process.{is_between}

abbrev pub CallEnds : (Server → Type 0) → ℕ → Server → AcceptPc → Type 0
CallEnds = Ends accept_step is_between

is_between-unless_stopped : (o : Outcome) → is_between (unless_stopped o) ≡ true
is_between-unless_stopped returns = refl
is_between-unless_stopped raises = refl
is_between-unless_stopped exits = refl

module _ (k : Connection) (P : Server → Type 0) where
  -- What is left to do for `P` after the state `s`: to close the connection.
  abbrev pub Closes : Server → Type 0
  Closes s =
      (t : Server)
      → t.executor ≡ s.executor
      → t.history.unstarted ≡ s.history.unstarted
      → t.capacity ≡ s.capacity
      → closes k s.history.io < closes k t.history.io
      → P t

  pub raised-Ends : (fuel : ℕ) (s : Server) → Closes s → CallEnds P (suc fuel) s (raised k)
  unfolding accept_step closes
  raised-Ends fuel s h = Ends-step accept_step is_between fuel s (raised k) refl λ o. (
    _,
    _,
    refl,
    Ends-over accept_step is_between fuel _ (unless_stopped o) (is_between-unless_stopped o)
        (h _ refl refl refl (ground arith)),
  )

  pub fatal-Ends : (fuel : ℕ) (s : Server) → Closes s → CallEnds P (suc fuel) s (fatal k)
  unfolding accept_step closes
  fatal-Ends fuel s h = Ends-step accept_step is_between fuel s (fatal k) refl λ o. (
    _,
    _,
    refl,
    Ends-over accept_step is_between fuel _ stopped refl (h _ refl refl refl (ground arith)),
  )

  -- Behind a call that may raise, where the connection is closed in each case.
  unless_raised-Ends :
      (fuel : ℕ) (s : Server) (o : Outcome) (next : AcceptPc)
      → Closes s
      → CallEnds P (suc fuel) s next
      → CallEnds P (suc fuel) s (unless_raised o k next)
  unless_raised-Ends fuel s returns next h e = e
  unless_raised-Ends fuel s raises next h e = raised-Ends fuel s h
  unless_raised-Ends fuel s exits next h e = fatal-Ends fuel s h

  closing-Ends : (fuel : ℕ) (s : Server) → Closes s → CallEnds P (suc (suc fuel)) s (closing k)
  unfolding accept_step closes
  closing-Ends fuel s h = Ends-step accept_step is_between (suc fuel) s (closing k) refl λ o. (
    _,
    _,
    refl,
    unless_raised-Ends fuel _ o listening (λ t e u c less. h t e u c (ground arith))
        (Ends-over accept_step is_between (suc fuel) _ listening refl
          (h _ refl refl refl (ground arith))),
  )

  -- A state that differs in nothing that matters here.
  pub record IsLike (s v : Server) : Type 0 where
    pub capacity : v.capacity ≡ s.capacity
    pub executor : v.executor ≡ s.executor
    pub unstarted : v.history.unstarted ≡ s.history.unstarted
    pub closed : closes k v.history.io ≡ closes k s.history.io

  IsLike-Closes : (s v : Server) → IsLike s v → Closes s → Closes v
  IsLike-Closes s v l h t e u c less =
      h t (e ∙ l.executor) (u ∙ l.unstarted) (c ∙ l.capacity) (omega (arith, l.closed, less))

  reply-IsLike : (p : ServerOverloadPolicy) (s : Server) → IsLike s (reply p k s)
  unfolding reply closes
  reply-IsLike fault s = record {
    capacity = refl;
    executor = refl;
    unstarted = refl;
    closed = refl;
  }
  reply-IsLike http_503 s = record {
    capacity = refl;
    executor = refl;
    unstarted = refl;
    closed = refl;
  }
  reply-IsLike block s = record {
    capacity = refl;
    executor = refl;
    unstarted = refl;
    closed = refl;
  }
  reply-IsLike close s = record {
    capacity = refl;
    executor = refl;
    unstarted = refl;
    closed = refl;
  }

  replying-Ends :
      (fuel : ℕ) (s : Server) → Closes s → CallEnds P (suc (suc (suc fuel))) s (replying k)
  unfolding accept_step
  replying-Ends fuel s h =
      let after = IsLike-Closes s _ (reply-IsLike s.config.overload_policy s) h in
      Ends-step accept_step is_between (suc (suc fuel)) s (replying k) refl λ o. (
        _,
        _,
        refl,
        unless_raised-Ends (suc fuel) _ o (closing k) after (closing-Ends fuel _ after),
      )

  reject-Ends :
      (fuel : ℕ) (p : ServerOverloadPolicy) (s : Server)
      → Closes s
      → CallEnds P (suc (suc (suc fuel))) (reject p k s).0 (reject p k s).1
  unfolding reject
  reject-Ends fuel fault s h = replying-Ends fuel _ h
  reject-Ends fuel http_503 s h = replying-Ends fuel _ h
  reject-Ends fuel block s h = closing-Ends (suc fuel) _ h
  reject-Ends fuel close s h = closing-Ends (suc fuel) _ h

  pub rejected-Ends :
      (fuel : ℕ) (s : Server) → Closes s → CallEnds P (suc (suc (suc (suc fuel)))) s (rejected k)
  unfolding accept_step
  rejected-Ends fuel s h =
      Ends-step accept_step is_between (suc (suc (suc fuel))) s (rejected k) refl
        λ o. (_, _, refl, reject-Ends fuel s.config.overload_policy s h)

  pub refused-Ends :
      (fuel : ℕ) (s : Server) → Closes (release s) → CallEnds P (suc (suc (suc fuel))) s (refused k)
  unfolding accept_step release closes
  refused-Ends fuel s h = Ends-step accept_step is_between (suc (suc fuel)) s (refused k) refl λ o.
      (
        _,
        _,
        refl,
        Ends-step accept_step is_between (suc fuel) _ (released k) refl λ o'. (
          _,
          _,
          refl,
          unless_raised-Ends fuel _ o' (raised k) (λ t e u c less. h t e u c (ground arith))
              (raised-Ends fuel _ (λ t e u c less. h t e u c (ground arith))),
        ),
      )
