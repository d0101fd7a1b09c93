-- ===== src/Multiprocess/Tests.antt =====
-- Runs at concrete outcomes of the operating system's calls.
use xmlrpc_extended.Prelude.{
  ℕ, ◌≡◌, ◌⊎◌, ◌&&◌, ltb, refl, Bool, true, false, List, [], ◌∷◌, none, some,
}
use xmlrpc_extended.Prelude.Int.{pos, negsuc}
use xmlrpc_extended.Python.Text.{codes}
use xmlrpc_extended.Multiprocess.{
  SocketCall, socket, setsockopt_reuseaddr, setsockopt_reuseport, bind, listen, make_calls,
  create_reuseport_socket, spawn_loop, spawn_workers,
}
use xmlrpc_extended.Multiprocess.Laws.{
  IsAsked, Spawns, Trace, spawn_workers-Spawns, create_reuseport_socket-Trace,
}

-- Two processes can be started.
abbrev two_start : ℕ → Bool
two_start k = ltb k 2

two_started :
    spawn_workers two_start (some (pos 3)) none ≡ record { running = 0 ∷ 1 ∷ []; returned = none }
unfolding spawn_workers spawn_loop
two_started = refl

none_asked :
    spawn_workers two_start (some (negsuc 4)) none ≡ record { running = []; returned = some [] }
unfolding spawn_workers spawn_loop
none_asked = refl

spawn_workers-Spawns_example :
    (n : ℕ) × IsAsked none (some 3) n × Spawns two_start n (spawn_workers two_start none (some 3))
spawn_workers-Spawns_example = spawn_workers-Spawns two_start none (some 3)

-- The address is in use.
abbrev no_bind : SocketCall → Bool
no_bind (bind host port) = false
no_bind _ = true

bind_raises :
    create_reuseport_socket true true no_bind (codes "0.0.0.0") (pos 8_000) (pos 64)
    ≡ some (
      socket
          ∷ setsockopt_reuseaddr
          ∷ setsockopt_reuseport
          ∷ bind (codes "0.0.0.0") (pos 8_000)
          ∷ [],
      false,
    )
unfolding create_reuseport_socket make_calls
bind_raises = refl

create_reuseport_socket-Trace_example :
    ((create_reuseport_socket true true no_bind (codes "0.0.0.0") (pos 8_000) (pos 64) ≡ none)
      × ((true && true) ≡ false))
    ⊎ ((r : List SocketCall × Bool) × (create_reuseport_socket true true no_bind
            (codes "0.0.0.0")
            (pos 8_000)
            (pos 64)
          ≡ some r)
        × ((true && true) ≡ true)
        × Trace no_bind
            (socket
              ∷ setsockopt_reuseaddr
              ∷ setsockopt_reuseport
              ∷ bind (codes "0.0.0.0") (pos 8_000)
              ∷ listen (pos 64)
              ∷ [])
            r)
create_reuseport_socket-Trace_example =
    create_reuseport_socket-Trace true true no_bind (codes "0.0.0.0") (pos 8_000) (pos 64)
