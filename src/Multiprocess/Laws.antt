-- ===== src/Multiprocess/Laws.antt =====
-- Which processes run after `spawn_workers`, and what is done to a socket.
use xmlrpc_extended.Prelude.{
  ℕ, zero, suc, ◌+◌, ◌<◌, ◌≡◌, refl, ap, subst, ◌∙◌, ◌⊎◌, inl, inr, Bool, true, false, Bool-cases,
  ◌==◌, ◌&&◌, List, [], ◌∷◌, ◌++◌, Option, none, some, arith,
}
use xmlrpc_extended.Prelude.Int.{ℤ, pos, negsuc}
use xmlrpc_extended.Python.Text.{Text}
use xmlrpc_extended.Multiprocess.{
  SocketCall, socket, setsockopt_reuseaddr, setsockopt_reuseport, bind, listen, make_calls,
  create_reuseport_socket, rounds, Spawned, spawn_loop, spawn_workers,
}

-- The numbers from `k` on, `n` of them.
unfoldable pub numbers : (k n : ℕ) → List ℕ
numbers k zero = []
numbers k (suc n) = k ∷ numbers (suc k) n

-- How many processes the arguments stand for: as many as are asked for, none for a negative number;
-- and as many as there are processors, or one when their number is unknown or zero, where none are
-- asked for.
abbrev pub IsAsked : Option ℤ → Option ℕ → ℕ → Type 0
IsAsked (some (pos n)) cpu_count k = k ≡ n
IsAsked (some (negsuc n)) cpu_count k = k ≡ 0
IsAsked none none k = k ≡ 1
IsAsked none (some zero) k = k ≡ 1
IsAsked none (some (suc n)) k = k ≡ suc n

rounds-IsAsked :
    (num_workers : Option ℤ) (cpu_count : Option ℕ)
    → IsAsked num_workers cpu_count (rounds num_workers cpu_count)
rounds-IsAsked (some (pos n)) cpu_count = refl
rounds-IsAsked (some (negsuc n)) cpu_count = refl
rounds-IsAsked none none = refl
rounds-IsAsked none (some zero) = refl
rounds-IsAsked none (some (suc n)) = ground arith

-- What `spawn_workers` comes to for `n` processes.
pub data Spawns (starts : ℕ → Bool) (n : ℕ) (s : Spawned) : Type 0 where
  all_started :
      ((i : ℕ) → i < n → starts i ≡ true)
      → s ≡ record { running = numbers 0 n; returned = some (numbers 0 n) }
      → Spawns starts n s
  start_raised :
      (k : ℕ)
      → k < n
      → ((i : ℕ) → i < k → starts i ≡ true)
      → starts k ≡ false
      → s ≡ record { running = numbers 0 k; returned = none }
      → Spawns starts n s

numbers-snoc : (k n : ℕ) → numbers k n ++ (k + n) ∷ [] ≡ numbers k (suc n)
unfolding numbers
numbers-snoc k zero = ap (λ m. m ∷ []) (omega arith)
numbers-snoc k (suc n) =
    ap (◌∷◌ k) (ap (λ m. numbers (suc k) n ++ m ∷ []) (omega arith) ∙ numbers-snoc (suc k) n)

numbers-append : (k : ℕ) → numbers 0 k ++ k ∷ [] ≡ numbers 0 (suc k)
numbers-append k = ap (λ m. numbers 0 k ++ m ∷ []) (omega arith) ∙ numbers-snoc 0 k

up_to :
    (starts : ℕ → Bool) (k : ℕ)
    → ((i : ℕ) → i < k → starts i ≡ true)
    → starts k ≡ true
    → (i : ℕ) → i < suc k
    → starts i ≡ true
up_to starts k before ok i h = elim (Bool-cases (i == k)) [
  | inl same ↦ subst (λ j. starts j ≡ true) (ground arith) ok
  | inr other ↦ before i (ground arith)
]

spawn_loop-Spawns :
    (starts : ℕ → Bool) (n k : ℕ)
    → ((i : ℕ) → i < k → starts i ≡ true)
    → Spawns starts (k + n) (spawn_loop starts n k (numbers 0 k))
unfolding spawn_loop
spawn_loop-Spawns starts zero k before =
    subst (λ m. Spawns starts m (record { running = numbers 0 k; returned = some (numbers 0 k) }))
      (omega arith) (all_started before refl)
spawn_loop-Spawns starts (suc n) k before = elim (Bool-cases (starts k)) [
  | inl ok ↦
      rw (ok, numbers-append k)
        (subst (λ m. Spawns starts m (spawn_loop starts n (suc k) (numbers 0 (suc k))))
          (omega arith) (spawn_loop-Spawns starts n (suc k) (up_to starts k before ok)))
  | inr bad ↦ rw bad (start_raised k (omega arith) before bad refl)
]

-- As many processes are to be started as `num_workers` says, none when it is negative; where it is
-- absent, as many as there are processors, or one when that is unknown or zero. Either all of them
-- were started and the list of them is returned in their order; or the first that could not be
-- started ends it, those before it run, and no list of them is returned.
pub spawn_workers-Spawns :
    (starts : ℕ → Bool) (num_workers : Option ℤ) (cpu_count : Option ℕ)
    → (n : ℕ) × IsAsked num_workers cpu_count n
      × Spawns starts n (spawn_workers starts num_workers cpu_count)
unfolding spawn_workers numbers
spawn_workers-Spawns starts num_workers cpu_count =
    let n = rounds num_workers cpu_count in
    (
      n,
      rounds-IsAsked num_workers cpu_count,
      subst (λ m. Spawns starts m (spawn_loop starts n 0 [])) (omega arith)
          (spawn_loop-Spawns starts n 0 (λ i h. ground arith)),
    )

-- The calls before one.
unfoldable pub MadeAll : (SocketCall → Bool) → List SocketCall → Type 0
MadeAll succeeds [] = Unit {0}
MadeAll succeeds (c ∷ cs) = (succeeds c ≡ true) × MadeAll succeeds cs

-- The calls that were made are the first ones of the list: all of them, each of which returned, or
-- those up to the first that raised.
pub data Trace (succeeds : SocketCall → Bool) (calls : List SocketCall) (r : List SocketCall × Bool)
    : Type 0 where
  all_returned : MadeAll succeeds calls → r ≡ (calls, true) → Trace succeeds calls r
  one_raised :
      (before after : List SocketCall) (c : SocketCall)
      → calls ≡ before ++ c ∷ after
      → MadeAll succeeds before
      → succeeds c ≡ false
      → r ≡ (before ++ c ∷ [], false)
      → Trace succeeds calls r

Trace-cons :
    (succeeds : SocketCall → Bool) (c : SocketCall) (cs made : List SocketCall) (done : Bool)
    → succeeds c ≡ true
    → Trace succeeds cs (made, done)
    → Trace succeeds (c ∷ cs) (c ∷ made, done)
unfolding MadeAll
Trace-cons succeeds c cs made done ok (all_returned all e) =
    all_returned (ok, all) (ap (λ r. (c ∷ r.0, r.1)) e)
Trace-cons succeeds c cs made done ok (one_raised before after d e all bad r) =
    one_raised (c ∷ before) after d (ap (◌∷◌ c) e) (ok, all) bad (ap (λ r. (c ∷ r.0, r.1)) r)

make_calls-Trace :
    (succeeds : SocketCall → Bool) (calls : List SocketCall)
    → Trace succeeds calls (make_calls succeeds calls)
unfolding make_calls MadeAll
make_calls-Trace succeeds [] = all_returned tt refl
make_calls-Trace succeeds (c ∷ cs) = elim (Bool-cases (succeeds c)) [
  | inl ok ↦ rw ok (Trace-cons succeeds c cs _ _ ok (make_calls-Trace succeeds cs))
  | inr bad ↦ rw bad (one_raised [] cs c refl tt bad refl)
]

-- Where the platform has the option, a socket is made, gets both options, is bound and listens, in
-- that order, until a call raises; the calls end there, so that a socket that could not be set up
-- is not closed. On another platform no call is made.
pub create_reuseport_socket-Trace :
    (is_linux has_reuseport : Bool) (succeeds : SocketCall → Bool) (host : Text) (port backlog : ℤ)
    → ((create_reuseport_socket is_linux has_reuseport succeeds host port backlog ≡ none)
        × ((is_linux && has_reuseport) ≡ false))
      ⊎ ((r : List SocketCall × Bool) × (create_reuseport_socket is_linux has_reuseport succeeds
              host port backlog
            ≡ some r)
          × ((is_linux && has_reuseport) ≡ true)
          × Trace succeeds
              (socket
                ∷ setsockopt_reuseaddr
                ∷ setsockopt_reuseport
                ∷ bind host port
                ∷ listen backlog
                ∷ [])
              r)
unfolding create_reuseport_socket
create_reuseport_socket-Trace is_linux has_reuseport succeeds host port backlog =
    elim (Bool-cases (is_linux && has_reuseport)) [
      | inr off ↦ rw off (inl (refl, refl))
      | inl on ↦ rw on (inr (_, refl, refl, make_calls-Trace succeeds _))
    ]
