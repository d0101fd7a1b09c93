-- ===== src/Client.antt =====
-- client.py: `XMLRPCClient` and `_TimeoutTransport`.
pub mod Laws
mod Tests
use xmlrpc_extended.Prelude.{◌≡◌, Bool, false, Option, none, some}
use xmlrpc_extended.Python.Float.{Float}
use xmlrpc_extended.Python.Text.{Text}

-- The fields of `_TimeoutTransport`, its own and those of its base class.
pub record TimeoutTransport : Type 0 where
  pub timeout : Float
  pub use_datetime : Bool
  pub use_builtin_types : Bool

-- What the module uses of `xmlrpc.client`.
pub record Library : Type 1 where
  pub World : Type 0
  pub ServerProxy : Type 0
  pub HttpConnection : Type 0
  -- `ServerProxy(uri, transport=..., allow_none=...)`; `none` means that it raises.
  pub server_proxy : Text → TimeoutTransport → Bool → World → Option (ServerProxy × World)
  -- The transport that a proxy makes its connections with.
  pub transport_of : ServerProxy → TimeoutTransport
  -- `ServerProxy.__exit__`
  pub exit_proxy : ServerProxy → World → World
  -- Whether the proxy's transport has an open connection.
  pub is_open : ServerProxy → World → Bool
  -- `Transport.make_connection`, and the `timeout` of a connection.
  pub make_connection : TimeoutTransport → Text → World → HttpConnection × World
  pub set_timeout : HttpConnection → Float → HttpConnection
  pub timeout_of : HttpConnection → Float

-- A proxy uses the transport that it is made with, `__exit__` of a proxy closes its connection, and
-- an attribute that is set can be read.
pub record IsLibrary (library : Library) : Type 0 where
  pub uses :
      (uri : Text) (transport : TimeoutTransport) (allow_none : Bool) (w w' : library.World)
      (p : library.ServerProxy)
      → library.server_proxy uri transport allow_none w ≡ some (p, w')
      → library.transport_of p ≡ transport
  pub closes :
      (p : library.ServerProxy) (w : library.World)
      → library.is_open p (library.exit_proxy p w) ≡ false
  pub keeps :
      (c : library.HttpConnection) (t : Float) → library.timeout_of (library.set_timeout c t) ≡ t

module _ (library : Library) where
  open library use {World, ServerProxy, HttpConnection}

  -- `_TimeoutTransport.make_connection`
  unfoldable pub make_connection : TimeoutTransport → Text → World → HttpConnection × World
  make_connection transport host w =
      let (conn, w') = library.make_connection transport host w in
      (library.set_timeout conn transport.timeout, w')

  pub record XmlrpcClient : Type 0 where
    pub uri : Text
    pub timeout : Float
    pub allow_none : Bool
    pub use_builtin_types : Bool
    pub proxy : Option ServerProxy

  -- `__init__`
  unfoldable pub new_client : Text → Float → (allow_none use_builtin_types : Bool) → XmlrpcClient
  new_client uri timeout allow_none use_builtin_types = record {
    uri = uri;
    timeout = timeout;
    allow_none = allow_none;
    use_builtin_types = use_builtin_types;
    proxy = none;
  }

  -- The transport that `__enter__` makes.
  abbrev pub transport_of : XmlrpcClient → TimeoutTransport
  transport_of c = record {
    timeout = c.timeout;
    use_datetime = false;
    use_builtin_types = c.use_builtin_types;
  }

  unfoldable pub entered :
      XmlrpcClient → Option (ServerProxy × World) → Option (ServerProxy × XmlrpcClient × World)
  entered c none = none
  entered c (some (p, w)) = some (p, record c { proxy = some p }, w)

  -- `__enter__`; `none` means that `ServerProxy` raises.
  unfoldable pub enter : XmlrpcClient → World → Option (ServerProxy × XmlrpcClient × World)
  unfolding entered
  enter c w = entered c (library.server_proxy c.uri (transport_of c) c.allow_none w)

  exited : Option ServerProxy → XmlrpcClient → World → XmlrpcClient × World
  exited none c w = (c, w)
  exited (some p) c w = (record c { proxy = none }, library.exit_proxy p w)

  -- `__exit__`
  unfoldable pub exit : XmlrpcClient → World → XmlrpcClient × World
  unfolding exited
  exit c w = exited c.proxy c w
