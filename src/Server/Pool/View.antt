-- ===== src/Server/Pool/View.antt =====
-- The server's threads as an `Admission`: what each place of a thread stands for there.
use xmlrpc_extended.Prelude.{
  ℕ, ◌+◌, ◌≡◌, refl, ap, ap₂, ◌∙◌, List, [], ◌∷◌, ◌++◌, Option, none, some, arith, get_elem?, set,
  total, total-set,
}
use xmlrpc_extended.Prelude.Bag.{to_bag, size}
use xmlrpc_extended.Server.Pool.State.{Connection}
use xmlrpc_extended.Server.Pool.Accept.{AcceptPc, arrived, timed, acquired, recorded}
use xmlrpc_extended.Server.Pool.Worker.{
  WorkerPc, idle, picked, started, served, finished, caught, handled, failed, leaving,
}
use xmlrpc_extended.Server.Pool.System.{System}
use xmlrpc_extended.Server.Pool.Weights.{busy}
use xmlrpc_extended.Server.Pool.Admission.{Admission}

-- The request that the accept thread is deciding.
abbrev pub deciding : AcceptPc → Option Connection
deciding (arrived k) = some k
deciding (timed k) = some k
deciding (acquired k) = some k
deciding (recorded k) = some k
deciding _ = none

-- The request that a worker is serving.
abbrev pub at_hand : WorkerPc → List Connection
at_hand idle = []
at_hand (picked k) = k ∷ []
at_hand (started k) = k ∷ []
at_hand (served k) = k ∷ []
at_hand (finished k) = k ∷ []
at_hand (caught k) = k ∷ []
at_hand (handled k) = k ∷ []
at_hand (failed k) = k ∷ []
at_hand (leaving k) = k ∷ []

unfoldable pub all_at_hand : List WorkerPc → List Connection
all_at_hand [] = []
all_at_hand (p ∷ ps) = at_hand p ++ all_at_hand ps

abbrev pub view : System → Admission
view s = record {
  closed = s.server.executor.is_shutdown;
  door = deciding s.accept;
  queue = s.server.executor.work_queue;
  serving = to_bag (all_at_hand s.workers);
}

total-append {ℓ} :
    {A : Type ℓ} (w : A → ℕ) (xs ys : List A) → total w (xs ++ ys) ≡ total w xs + total w ys
unfolding total
total-append w [] ys = omega arith
total-append w (x ∷ xs) ys = omega (arith, total-append w xs ys)

total-all_at_hand :
    (w : Connection → ℕ) (ps : List WorkerPc)
    → total w (all_at_hand ps) ≡ total (λ p. total w (at_hand p)) ps
unfolding total all_at_hand
total-all_at_hand w [] = refl
total-all_at_hand w (p ∷ ps) =
    total-append w (at_hand p) (all_at_hand ps)
    ∙ ap (◌+◌ (total w (at_hand p))) (total-all_at_hand w ps)

-- What a worker's step takes from its hand and puts there is all that changes.
pub all_at_hand-set :
    (ps : List WorkerPc) (i : ℕ) (p q : WorkerPc) (w : Connection → ℕ)
    → get_elem? ps i ≡ some p
    → total w (at_hand p) + total w (all_at_hand (set ps i q))
      ≡ total w (at_hand q) + total w (all_at_hand ps)
all_at_hand-set ps i p q w at = omega (
  arith,
  total-set (λ (x : WorkerPc). total w (at_hand x)) ps i p q at,
  total-all_at_hand w ps,
  total-all_at_hand w (set ps i q),
)

busy-at_hand : (p : WorkerPc) → total (λ k. 1) (at_hand p) ≡ busy p
unfolding total
busy-at_hand idle = refl
busy-at_hand p = refl

total-ext {ℓ} :
    {A : Type ℓ} (v w : A → ℕ) → ((a : A) → v a ≡ w a) → (xs : List A) → total v xs ≡ total w xs
unfolding total
total-ext v w h [] = refl
total-ext v w h (x ∷ xs) = ap₂ ◌+◌ (h x) (total-ext v w h xs)

-- As many requests are served as there are busy workers.
pub size-all_at_hand : (ps : List WorkerPc) → size (to_bag (all_at_hand ps)) ≡ total busy ps
unfolding size
size-all_at_hand ps =
    total-all_at_hand (λ k. 1) ps ∙ total-ext (λ p. total (λ k. 1) (at_hand p)) busy busy-at_hand ps
