-- ===== src/Server/Config/Tests.antt =====
-- The argument checks at concrete arguments.
use xmlrpc_extended.Prelude.{◌≡◌, refl, ◌↔◌, inr, some, arith}
use xmlrpc_extended.Prelude.Int.{ℤ, pos, negsuc, ◌+ℤ◌}
use xmlrpc_extended.Python.Float.{nan}
use xmlrpc_extended.Python.Text.{codes}
use xmlrpc_extended.Server.Config.{
  fault, text, ok, raised, to_policy, max_workers_low, max_pending_low, Args, XmlrpcServerConfig,
  default_args, configure,
}
use xmlrpc_extended.Server.Config.Laws.{
  IsAllowed, IsPending, requested, configure_iff, Reason, configure-raised,
}

-- max_workers=2, max_pending=3, overload_policy="fault"
abbrev small : Args
small = record default_args {
  max_workers = pos 2;
  max_pending = some (pos 3);
  overload_policy = text (codes "fault");
}

-- a timeout that is not a number
abbrev odd : Args
odd = record small { connection_timeout = some nan }

small_policy : to_policy small.overload_policy ≡ ok fault
unfolding to_policy
small_policy = refl

small_accepted : configure small ≡ ok (requested small fault (pos 3), pos 5)
unfolding configure
small_accepted = refl

refusals :
    (configure (record small { max_workers = pos 0 }) ≡ raised max_workers_low)
    × (configure (record small { max_pending = some (negsuc 0) }) ≡ raised max_pending_low)
unfolding configure
refusals = (refl, refl)

small-IsAllowed : IsAllowed small
small-IsAllowed = record {
  workers = omega arith;
  pending = λ n h. ground arith;
  backlog = omega arith;
  size = omega arith;
  timeout = tt;
}

odd-IsAllowed : IsAllowed odd
odd-IsAllowed = record {
  workers = omega arith;
  pending = λ n h. ground arith;
  backlog = omega arith;
  size = omega arith;
  timeout = inr refl;
}

abbrev asked : XmlrpcServerConfig
asked = requested odd fault (pos 3)

configure_iff_example : (configure odd ≡ ok (asked, pos 5)) ↔ (
    IsAllowed odd
    × (to_policy odd.overload_policy ≡ ok fault)
    × ((pending : ℤ) × IsPending odd.max_pending odd.max_workers pending
        × (asked ≡ requested odd fault pending)
        × (pos 5 ≡ odd.max_workers +ℤ pending)))
configure_iff_example = configure_iff odd asked (pos 5)

-- A negative number of pending requests.
abbrev broken : Args
broken = record small { max_pending = some (negsuc 0) }

broken_refused : configure broken ≡ raised max_pending_low
unfolding configure
broken_refused = refl

configure-raised_example : Reason broken max_pending_low
configure-raised_example = configure-raised broken max_pending_low broken_refused
