-- ===== src/Server/Rejection/Tests.antt =====
-- Rejections of a client that sends two pieces and then ends its stream.
use xmlrpc_extended.Prelude.{ℕ, zero, suc, ◌<◌, ◌≡◌, refl, true, [], ◌∷◌, Option, none, some, arith}
use xmlrpc_extended.Prelude.Int.{ℤ}
use xmlrpc_extended.Python.Text.{Text, Bytes}
use xmlrpc_extended.Server.Config.{ServerOverloadPolicy, fault, default_config}
use xmlrpc_extended.Server.Stats.{record_rejected_fault}
use xmlrpc_extended.Server.Pool.State.{returns, Server, new_server}
use xmlrpc_extended.Server.Reject.{Recv, received, closed, Peer}
use xmlrpc_extended.Server.Reject.Laws.{HasBytes}
use xmlrpc_extended.Server.Rejection.{Rejection, reject_request}
use xmlrpc_extended.Server.Rejection.Laws.{Simulates, reject_request-Simulates}
use xmlrpc_extended.Server.Rejection.Answers.{raised_with, Answered, reject_request-Answered}

-- The stand-in for the marshaller keeps the text; one encoder takes every text, one takes none.
abbrev plain_dumps : ℤ → Text → Option Text
plain_dumps code text = some text

abbrev encode_all : Text → Option Bytes
encode_all text = some text

abbrev encode_none : Text → Option Bytes
encode_none text = none

abbrev two_pieces : ℕ → Recv
two_pieces zero = received (60 ∷ [])
two_pieces (suc zero) = received (62 ∷ [])
two_pieces (suc (suc n)) = closed

abbrev peer : Peer
peer = record { takes_response = true; shuts_down = true; takes_timeout = true; recv = two_pieces }

two_pieces-HasBytes : (j : ℕ) → j < 2 → HasBytes (two_pieces j)
two_pieces-HasBytes zero h = tt
two_pieces-HasBytes (suc zero) h = tt
two_pieces-HasBytes (suc (suc j)) h = absurd (omega arith)

abbrev full : ServerOverloadPolicy → Server
full p = new_server (record default_config { overload_policy = p }) 0

reject_request-Answered_example :
    (r : Rejection) × (reject_request plain_dumps encode_all 9 peer returns (full fault) ≡ some r)
    × Answered plain_dumps encode_all (full fault) 3 returns r
reject_request-Answered_example =
    reject_request-Answered plain_dumps encode_all 2 9 peer returns (full fault) (omega arith)
      (record { takes_response = refl; shuts_down = refl; takes_timeout = refl })
      two_pieces-HasBytes (λ h. h)

abbrev unencoded : Rejection
unencoded = raised_with (record_rejected_fault (full fault).stats)

unencoded_lem : reject_request plain_dumps encode_none 9 peer returns (full fault) ≡ some unencoded
unfolding reject_request
unencoded_lem = refl

reject_request-Simulates_example : Simulates 5 (full fault) unencoded
reject_request-Simulates_example =
    reject_request-Simulates plain_dumps encode_none 9 peer returns 5 (full fault) unencoded
      unencoded_lem
