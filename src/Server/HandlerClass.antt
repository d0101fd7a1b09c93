-- ===== src/Server/HandlerClass.antt =====
-- server.py: `_build_request_handler`, which derives the server's own handler class from the one
-- that its caller gives, and what a request to that class runs.
pub mod Laws
mod Tests
use xmlrpc_extended.Prelude.{ℕ, List, [], ◌∷◌, ◌++◌, Option, none, some, if◌then◌else◌}
use xmlrpc_extended.Prelude.Int.{ℤ}
use xmlrpc_extended.Python.Class.{Class, attribute, occurs, new_type}
use xmlrpc_extended.Python.Headers.{Headers}
use xmlrpc_extended.Python.Text.{Text, codes}
use xmlrpc_extended.Server.Config.{default_config}
use xmlrpc_extended.Server.Handler.{Reply, do_post}

-- What the namespaces of the classes hold: sizes, paths and functions, those of the standard
-- library and of the server's caller by a number.
pub data Attribute : Type 0 where
  size : ℤ → Attribute
  paths : List Text → Attribute
  limited_do_post limited_log_error : Attribute
  function : ℕ → Attribute

abbrev pub HandlerClass : Type 0
HandlerClass = List (Class Attribute)

abbrev pub max_request_size : Text
max_request_size = codes "max_request_size"

abbrev pub rpc_paths : Text
rpc_paths = codes "rpc_paths"

abbrev pub do_post_name : Text
do_post_name = codes "do_POST"

-- `LimitedXMLRPCRequestHandler` by itself; it is the first class that this module makes.
unfoldable pub limited : Class Attribute
limited = record {
  id = 0;
  name = codes "LimitedXMLRPCRequestHandler";
  namespace =
      (max_request_size, size default_config.max_request_size)
      ∷ (codes "log_error", limited_log_error)
      ∷ (do_post_name, limited_do_post)
      ∷ [];
}

-- The namespace of the new class.
abbrev pub overrides : ℤ → Option (List Text) → List (Text × Attribute)
overrides limit none = (max_request_size, size limit) ∷ []
overrides limit (some given) = (max_request_size, size limit) ∷ (rpc_paths, paths given) ∷ []

abbrev pub name_of : HandlerClass → Text
name_of [] = []
name_of (c ∷ order) = c.name

module _ (simple : HandlerClass) where
  -- The order of `LimitedXMLRPCRequestHandler`, from that of `SimpleXMLRPCRequestHandler`.
  abbrev pub limited_class : HandlerClass
  limited_class = limited ∷ simple

  -- `id` is the new class's identity; `none` is a `TypeError`.
  unfoldable pub build_request_handler :
      (id : ℕ) (request_handler : HandlerClass) → ℤ → Option (List Text) → Option HandlerClass
  unfolding occurs new_type limited
  build_request_handler id request_handler limit given =
      let name = name_of request_handler ++ codes "WithSizeLimit" in
      if occurs limited.id request_handler
      then new_type id name (request_handler ∷ []) (overrides limit given)
      else new_type id name (limited_class ∷ request_handler ∷ []) (overrides limit given)

-- `self.max_request_size` in a handler of the class.
abbrev pub limit_of : Option Attribute → Option ℤ
limit_of (some (size limit)) = some limit
limit_of _ = none

abbrev pub run_limited : ℕ → Option ℤ → Headers → Option Reply
run_limited digits none headers = none
run_limited digits (some limit) headers = some (do_post digits limit headers)

-- What `do_POST` does for an instance of the class, where it is the one of
-- `LimitedXMLRPCRequestHandler`; `none` stands for any other function.
abbrev pub run_do_post : ℕ → Headers → Option ℤ → Option Attribute → Option Reply
run_do_post digits headers limit (some limited_do_post) = run_limited digits limit headers
run_do_post digits headers limit _ = none

unfoldable pub serve_post : ℕ → HandlerClass → Headers → Option Reply
unfolding attribute do_post
serve_post digits handler headers =
    run_do_post digits headers (limit_of (attribute max_request_size handler))
      (attribute do_post_name handler)
