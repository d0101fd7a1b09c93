-- ===== src/Asgi/Jobs.antt =====
-- The functions that the application has given to threads: `loop.run_in_executor` and
-- `asyncio.to_thread` in asgi.py, and what `self._executor.shutdown(wait=True)` waits for.
use xmlrpc_extended.Prelude.{
  ℕ, Bool, true, false, not, List, [], ◌∷◌, ◌&&◌, ◌||◌, ◌==◌, Option, none, some, if◌then◌else◌,
}
use xmlrpc_extended.Python.Text.{codes, text_eq}
use xmlrpc_extended.Asgi.Body.{Event}
use xmlrpc_extended.Asgi.Dispatch.{Place, in_pool}

-- The functions that run in threads, or wait for one, each with the request that it was called for.
-- The function of a request that was interrupted runs on.
abbrev pub Jobs : Type 0
Jobs = List (ℕ × Place)

abbrev pub has_job : ℕ → Jobs → Bool
has_job i [] = false
has_job i ((j, place) ∷ jobs) = j == i || has_job i jobs

abbrev pub end_job : ℕ → Jobs → Jobs
end_job i [] = []
end_job i ((j, place) ∷ jobs) = if j == i then jobs else (j, place) ∷ end_job i jobs

abbrev pub is_in : ℕ → Place → Bool
is_in p (in_pool q) = p == q
is_in p _ = false

abbrev pub is_drained : ℕ → Jobs → Bool
is_drained p [] = true
is_drained p ((j, place) ∷ jobs) = not (is_in p place) && is_drained p jobs

-- `self._executor.shutdown(wait=True)` comes back when no function runs in the pool any more.
abbrev pub may_shut : Option ℕ → Jobs → Bool
may_shut none jobs = true
may_shut (some p) jobs = is_drained p jobs

-- Whether the loop can take the event: a shutdown holds it until the pool is drained.
abbrev pub may_take : Option ℕ → Jobs → Event → Bool
may_take executor jobs e =
    if text_eq e.type (codes "lifespan.shutdown") then may_shut executor jobs else true
