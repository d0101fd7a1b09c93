-- ===== src/Server/Init/Tests.antt =====
-- Servers made from concrete arguments, with a base class that returns or raises.
use xmlrpc_extended.Prelude.{ℕ, ◌≡◌, ◌≤◌, ◌==◌, refl, true, false, [], ◌∷◌, none, some, inr, arith}
use xmlrpc_extended.Prelude.Int.{pos}
use xmlrpc_extended.Python.Class.{occurs, attribute}
use xmlrpc_extended.Python.Class.Laws.{IsDistinct}
use xmlrpc_extended.Python.Text.{codes}
use xmlrpc_extended.Server.Config.{
  member, http_503, ok, to_policy, Args, default_args, max_workers_low, configure,
}
use xmlrpc_extended.Server.Config.Laws.{IsAllowed, IsPending, requested}
use xmlrpc_extended.Server.HandlerClass.{HandlerClass, limited, limited_do_post, do_post_name}
use xmlrpc_extended.Server.HandlerClass.Laws.{Enforces}
use xmlrpc_extended.Server.Pool.State.{Server}
use xmlrpc_extended.Server.Pool.System.{init}
use xmlrpc_extended.Server.Init.{returned, raised_at_bind, refused, failed, constructed, construct}
use xmlrpc_extended.Server.Init.Laws.{IsLeftShut, calls_of, construct-starts, construct-fails}

-- max_workers=4, overload_policy=ServerOverloadPolicy.HTTP_503
abbrev args : Args
args = record default_args { max_workers = pos 4; overload_policy = member http_503 }

abbrev simple : HandlerClass
simple = record { id = 1; name = codes "SimpleXMLRPCRequestHandler"; namespace = [] } ∷ []

args-IsAllowed : IsAllowed args
args-IsAllowed = record {
  workers = omega arith;
  pending = λ n h. ground arith;
  backlog = omega arith;
  size = omega arith;
  timeout = tt;
}

args_policy : to_policy args.overload_policy ≡ ok http_503
unfolding to_policy
args_policy = refl

simple-IsDistinct : IsDistinct simple
unfolding IsDistinct occurs
simple-IsDistinct = (refl, tt)

simple_other : occurs limited.id simple ≡ false
unfolding occurs limited
simple_other = refl

two_fresh : (2 == limited.id) ≡ false
unfolding limited
two_fresh = refl

no_workers :
    construct simple 2 (record args { max_workers = pos 0 }) simple none returned
    ≡ refused max_workers_low
unfolding construct configure to_policy
no_workers = refl

-- The default handler class.
default-IsDistinct : IsDistinct (limited ∷ simple)
unfolding IsDistinct occurs limited
default-IsDistinct = (refl, (refl, tt))

default_limited : occurs limited.id (limited ∷ simple) ≡ true
unfolding occurs limited
default_limited = refl

default_do_post : attribute do_post_name (limited ∷ simple) ≡ some limited_do_post
unfolding attribute limited
default_do_post = refl

construct-starts_example :
    (workers : ℕ) × (pending : ℕ) × (built : HandlerClass) × (construct simple 2 args
        (limited ∷ simple)
        none
        returned
      ≡ constructed (init (requested args http_503 (pos pending)) workers pending).server built)
    × (1 ≤ workers)
    × (pos 4 ≡ pos workers)
    × IsPending none (pos 4) (pos pending)
    × Enforces args.max_request_size built
construct-starts_example =
    construct-starts 2 args none http_503 limited (limited ∷ []) simple simple args_policy
      args-IsAllowed refl default-IsDistinct two_fresh (inr (default_limited, default_do_post))

construct-fails_example :
    (s : Server) × (construct simple 2 args simple none (raised_at_bind true) ≡ failed s)
    × IsLeftShut (calls_of (raised_at_bind true)) s
construct-fails_example =
    construct-fails 2 args none http_503 _ [] simple [] args_policy args-IsAllowed refl
      simple-IsDistinct simple_other two_fresh (raised_at_bind true) refl
