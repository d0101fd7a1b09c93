-- ===== src/Multiprocess.antt =====
-- multiprocess.py: `create_reuseport_socket` and `spawn_workers`.
pub mod Laws
mod Tests
use xmlrpc_extended.Prelude.{
  ℕ, zero, suc, ◌==◌, Bool, true, false, not, ◌&&◌, List, [], ◌∷◌, ◌++◌, Option, none, some,
  if◌then◌else◌,
}
use xmlrpc_extended.Prelude.Int.{ℤ, pos, negsuc}
use xmlrpc_extended.Python.Text.{Text}

-- The calls of the operating system on the new socket.
pub data SocketCall : Type 0 where
  socket setsockopt_reuseaddr setsockopt_reuseport : SocketCall
  bind : (host : Text) (port : ℤ) → SocketCall
  listen : (backlog : ℤ) → SocketCall

-- The calls are made until one raises: those made, that one with them, and whether all returned.
unfoldable pub make_calls : (SocketCall → Bool) → List SocketCall → List SocketCall × Bool
make_calls succeeds [] = ([], true)
make_calls succeeds (c ∷ cs) =
    let (made, done) = make_calls succeeds cs in
    if succeeds c then (c ∷ made, done) else (c ∷ [], false)

-- `none` is the `OSError` of a platform without `SO_REUSEPORT`, raised before any call.
unfoldable pub create_reuseport_socket :
    (is_linux has_reuseport : Bool) (succeeds : SocketCall → Bool)
    → Text
    → ℤ
    → ℤ
    → Option (List SocketCall × Bool)
unfolding make_calls
create_reuseport_socket is_linux has_reuseport succeeds host port backlog =
    if not (is_linux && has_reuseport)
    then none
    else some (
        make_calls succeeds (
          socket
          ∷ setsockopt_reuseaddr
          ∷ setsockopt_reuseport
          ∷ bind host port
          ∷ listen backlog
          ∷ []))

-- `os.cpu_count() or 1`
abbrev pub cpus_or_one : Option ℕ → ℕ
cpus_or_one none = 1
cpus_or_one (some n) = if n == 0 then 1 else n

-- The length of `range(num_workers)`.
abbrev pub range_length : ℤ → ℕ
range_length (pos n) = n
range_length (negsuc n) = 0

abbrev pub rounds : Option ℤ → Option ℕ → ℕ
rounds none cpu_count = cpus_or_one cpu_count
rounds (some n) cpu_count = range_length n

-- The processes that run afterwards, numbered as they were made, and whether the list of them is
-- returned: `start` may raise.
pub record Spawned : Type 0 where
  pub running : List ℕ
  pub returned : Option (List ℕ)

-- The loop, from the process `k` on, with the list `processes`.
unfoldable pub spawn_loop : (ℕ → Bool) → (n k : ℕ) → List ℕ → Spawned
spawn_loop starts zero k processes = record { running = processes; returned = some processes }
spawn_loop starts (suc n) k processes =
    let rest = spawn_loop starts n (suc k) (processes ++ k ∷ []) in
    if starts k then rest else record { running = processes; returned = none }

unfoldable pub spawn_workers :
    (ℕ → Bool) → (num_workers : Option ℤ) (cpu_count : Option ℕ) → Spawned
unfolding spawn_loop
spawn_workers starts num_workers cpu_count = spawn_loop starts (rounds num_workers cpu_count) 0 []
