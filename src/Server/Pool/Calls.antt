-- ===== src/Server/Pool/Calls.antt =====
-- One whole call of a method whose statements are the steps of a thread.
use xmlrpc_extended.Prelude.{
  ℕ, zero, suc, ◌-◌, ◌≤◌, ◌≡◌, refl, ◌==◌, Bool, true, false, List, [], ◌∷◌, Option, none, some,
  if◌then◌else◌, arith,
}
use xmlrpc_extended.Server.Pool.State.{Connection, Outcome, Io, shutdown_request, Server}

-- How often `shutdown_request` was called for a connection.
unfoldable pub closes : Connection → List Io → ℕ
closes k [] = 0
closes k (shutdown_request r ∷ io) = if r == k then suc (closes k io) else closes k io
closes k (_ ∷ io) = closes k io

pub at_least_7 : (n : ℕ) → 7 ≤ n → suc (suc (suc (suc (suc (suc (suc (n - 7))))))) ≡ n
at_least_7 n h = omega (arith, h)

module _ {Pc : Type 0} (next : Outcome → Server → Pc → Option (Server × Pc))
    (is_over : Pc → Bool) where
  continue : (Server → Pc → Option (Server × Pc)) → Option (Server × Pc) → Option (Server × Pc)
  continue rest none = none
  continue rest (some (s, p)) = rest s p

  -- At most `fuel` statements, where the calls of the statement with `n` to go end by `outcome n`.
  -- `none` if the call waits, or is not over then.
  unfoldable pub run_call : ℕ → (ℕ → Outcome) → Server → Pc → Option (Server × Pc)
  unfolding continue
  run_call zero outcome s p = if is_over p then some (s, p) else none
  run_call (suc fuel) outcome s p = elim (is_over p) [
    | true ↦ some (s, p)
    | false ↦ continue (run_call fuel outcome) (next (outcome fuel) s p)
  ]

  pub run_call-over :
      (fuel : ℕ) (outcome : ℕ → Outcome) (s : Server) (p : Pc)
      → is_over p ≡ true
      → run_call fuel outcome s p ≡ some (s, p)
  unfolding run_call
  run_call-over zero outcome s p h = rw (h, run_call) refl
  run_call-over (suc fuel) outcome s p h = rw (h, run_call) refl

  pub run_call-next :
      (fuel : ℕ) (outcome : ℕ → Outcome) (s t : Server) (p q : Pc) (r : Option (Server × Pc))
      → is_over p ≡ false
      → next (outcome fuel) s p ≡ some (t, q)
      → run_call fuel outcome t q ≡ r
      → run_call (suc fuel) outcome s p ≡ r
  unfolding run_call
  run_call-next fuel outcome s t p q r h e rest = rw (h, run_call, e, continue) rest

  -- The call is over within so many statements, in a state of which `P` holds.
  abbrev pub EndsBy : (ℕ → Outcome) → (Server → Type 0) → ℕ → Server → Pc → Type 0
  EndsBy outcome P fuel s p =
      (t : Server) × (q : Pc) × (run_call fuel outcome s p ≡ some (t, q)) × (is_over q ≡ true) × P t

  -- It is, whatever its calls do.
  abbrev pub Ends : (Server → Type 0) → ℕ → Server → Pc → Type 0
  Ends P fuel s p = (outcome : ℕ → Outcome) → EndsBy outcome P fuel s p

  module _ {P : Server → Type 0} where
    pub EndsBy-over :
        (outcome : ℕ → Outcome) (fuel : ℕ) (s : Server) (p : Pc)
        → is_over p ≡ true
        → P s
        → EndsBy outcome P fuel s p
    EndsBy-over outcome fuel s p h at = (s, p, run_call-over fuel outcome s p h, h, at)

    pub EndsBy-step :
        (outcome : ℕ → Outcome) (fuel : ℕ) (s t : Server) (p q : Pc)
        → is_over p ≡ false
        → next (outcome fuel) s p ≡ some (t, q)
        → EndsBy outcome P fuel t q
        → EndsBy outcome P (suc fuel) s p
    EndsBy-step outcome fuel s t p q h e (u, r, e', over, at) =
        (u, r, run_call-next fuel outcome s t p q _ h e e', over, at)

    pub Ends-over : (fuel : ℕ) (s : Server) (p : Pc) → is_over p ≡ true → P s → Ends P fuel s p
    Ends-over fuel s p h at outcome = EndsBy-over outcome fuel s p h at

    pub Ends-step :
        (fuel : ℕ) (s : Server) (p : Pc)
        → is_over p ≡ false
        → ((o : Outcome) → (t : Server) × (q : Pc) × (next o s p ≡ some (t, q)) × Ends P fuel t q)
        → Ends P (suc fuel) s p
    Ends-step fuel s p h step outcome =
        let (t, q, e, ends) = step (outcome fuel) in
        EndsBy-step outcome fuel s t p q h e (ends outcome)
