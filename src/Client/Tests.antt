-- ===== src/Client/Tests.antt =====
-- A client of a library that keeps the open proxies, and a connection's timeout.
use xmlrpc_extended.Prelude.{◌≡◌, refl, sym, ap, Bool, true, false, none, some}
use mathlib.Core.Option.{some-injective}
use xmlrpc_extended.Prelude.Int.{pos}
use xmlrpc_extended.Python.Float.{Float, finite}
use xmlrpc_extended.Python.Text.{Text, codes}
use xmlrpc_extended.Client.{
  TimeoutTransport, Library, IsLibrary, make_connection, XmlrpcClient, new_client, entered, enter,
  exit,
}
use xmlrpc_extended.Client.Laws.{IsClosed, with_block}

-- There is one proxy, which is its transport; the state says whether it is open.
abbrev library : Library
library = record {
  World = Bool;
  ServerProxy = TimeoutTransport;
  HttpConnection = Float;
  server_proxy = λ uri transport allow_none w. some (transport, w);
  transport_of = λ p. p;
  exit_proxy = λ p w. false;
  is_open = λ p w. w;
  make_connection = λ transport host w. (finite false 0 (pos 0), w);
  set_timeout = λ c t. t;
  timeout_of = λ c. c;
}

library-IsLibrary : IsLibrary library
library-IsLibrary = record {
  uses = λ uri transport allow_none w w' p e. ap (λ r. r.0) (sym (some-injective _ _ e));
  closes = λ p w. refl;
  keeps = λ c t. refl;
}

abbrev five : Float
five = finite false 5 (pos 0)

abbrev client : XmlrpcClient library
client = record {
  uri = codes "http://h/";
  timeout = five;
  allow_none = false;
  use_builtin_types = false;
  proxy = none;
}

client_made : new_client library (codes "http://h/") five false false ≡ client
unfolding new_client
client_made = refl

abbrev timed : TimeoutTransport
timed = record { timeout = five; use_datetime = false; use_builtin_types = false }

abbrev inside : XmlrpcClient library
inside = record client { proxy = some timed }

client_entered : enter library client false ≡ some (timed, inside, false)
unfolding enter entered
client_entered = refl

-- The block makes a call, which opens the connection of the proxy.
with_block_example :
    IsClosed library client timed (exit library inside true)
    × ((host : Text) (v : Bool)
        → library.timeout_of (make_connection library timed host v).0 ≡ five)
with_block_example =
    with_block library client inside timed false false (λ w. true) library-IsLibrary client_entered
