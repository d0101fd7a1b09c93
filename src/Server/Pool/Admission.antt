-- ===== src/Server/Pool/Admission.antt =====
-- What the server promises about requests, without threads, places and the semaphore: a bounded
-- queue with a door. `Server.Pool.Refine` is about how the threads keep the promise.
use xmlrpc_extended.Prelude.{
  ℕ, ◌+◌, ◌≤◌, ◌<◌, ◌≡◌, ◌≢◌, Bool, true, false, List, [], ◌∷◌, ◌++◌, Option, none, some, arith,
  length, length-append, ap,
}
use xmlrpc_extended.Prelude.Bag.{Bag, to_bag, add, size, size-add}
use xmlrpc_extended.Server.Config.{XmlrpcServerConfig}
use xmlrpc_extended.Server.Pool.State.{Connection, is_block}

-- Which thread serves a request is forgotten, and so is the order in which the threads stand.
pub record Admission : Type 0 where
  pub closed : Bool
  pub door : Option Connection  -- the request that is being decided
  pub queue : List Connection
  pub serving : Bag Connection

abbrev pub at_start : Admission
at_start = record { closed = false; door = none; queue = []; serving = to_bag [] }

-- The requests that are let in and have not ended.
abbrev pub inside : Admission → ℕ
inside a = length a.queue + size a.serving

-- What a client of the server can tell that it does.
pub data Move : Type 0 where
  arrives abandons rejects turns_away admits begins finishes : Connection → Move
  shuts : Move

-- What may happen under the configuration `c`, with room for `limit` requests.
pub data Permits (c : XmlrpcServerConfig) (limit : ℕ) (a b : Admission) : Move → Type 0 where
  arrive :
      (k : Connection)
      → a.door ≡ none
      → b ≡ record a { door = some k }
      → Permits c limit a b (arrives k)
  -- Its socket takes no timeout.
  abandon :
      (k : Connection)
      → a.door ≡ some k
      → c.connection_timeout ≢ none
      → b ≡ record a { door = none }
      → Permits c limit a b (abandons k)
  -- There is no room, and the policy is not to wait for it.
  reject :
      (k : Connection)
      → a.door ≡ some k
      → inside a ≡ limit
      → is_block c.overload_policy ≡ false
      → b ≡ record a { door = none }
      → Permits c limit a b (rejects k)
  turn_away :
      (k : Connection)
      → a.door ≡ some k
      → a.closed ≡ true
      → b ≡ record a { door = none }
      → Permits c limit a b (turns_away k)
  -- There is room, and the server is open.
  admit :
      (k : Connection)
      → a.door ≡ some k
      → inside a < limit
      → a.closed ≡ false
      → b ≡ record a { door = none; queue = a.queue ++ k ∷ [] }
      → Permits c limit a b (admits k)
  -- The oldest request is served first.
  begin :
      (k : Connection) (rest : List Connection)
      → a.queue ≡ k ∷ rest
      → b ≡ record a { queue = rest; serving = add k a.serving }
      → Permits c limit a b (begins k)
  finish :
      (k : Connection)
      → a.serving ≡ add k b.serving
      → b ≡ record a { serving = b.serving }
      → Permits c limit a b (finishes k)
  shut : b ≡ record a { closed = true } → Permits c limit a b shuts

-- The moves lead from one state to the other.
pub data Performs (c : XmlrpcServerConfig) (limit : ℕ) (d : Admission)
    : Admission → List Move → Type 0 where
  nothing : Performs c limit d d []
  first :
      {a b : Admission} {ms : List Move} (m : Move)
      → Permits c limit a b m
      → Performs c limit d b ms
      → Performs c limit d a (m ∷ ms)

module _ {c : XmlrpcServerConfig} {limit : ℕ} where
  Permits-inside :
      {a b : Admission} (m : Move) → Permits c limit a b m → inside a ≤ limit → inside b ≤ limit
  Permits-inside m (arrive k at e) h = rw e h
  Permits-inside m (abandon k at timed e) h = rw e h
  Permits-inside m (reject k at full may e) h = rw e h
  Permits-inside m (turn_away k at closed e) h = rw e h
  Permits-inside {a} m (admit k at room open' e) h =
      rw e (omega (arith, length-append a.queue (k ∷ [])))
  Permits-inside {a} m (begin k rest at e) h =
      rw e (omega (arith, ap (λ (q : List Connection). length q) at, size-add k a.serving, h))
  Permits-inside {a} {b} m (finish k at e) h =
      rw e (omega (arith, ap size at, size-add k b.serving, h))
  Permits-inside m (shut e) h = rw e h

  -- There is never more inside than there is room.
  pub Performs-inside :
      {d : Admission} {ms : List Move} {a : Admission}
      → Performs c limit d a ms
      → inside a ≤ limit
      → inside d ≤ limit
  Performs-inside nothing h = h
  Performs-inside (first m p r) h = Performs-inside r (Permits-inside m p h)
