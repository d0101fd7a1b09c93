-- ===== src/Server/Rejection.antt =====
-- server.py: `_reject_request` as a whole, with the bytes that the rejected client is sent: the
-- statement of the pool's accept thread together with what Reject says of the responses.
pub mod Laws
pub mod Answers
mod Tests
use xmlrpc_extended.Prelude.{ℕ, Bool, true, false, List, [], Option, none, some}
use xmlrpc_extended.Prelude.Int.{ℤ}
use xmlrpc_extended.Python.Text.{Text, Bytes}
use xmlrpc_extended.Server.Config.{ServerOverloadPolicy, fault, http_503, XmlrpcServerConfig}
use xmlrpc_extended.Server.Stats.{
  StatsTracker, record_rejected_close, record_rejected_fault, record_rejected_503,
}
use xmlrpc_extended.Server.Pool.State.{Outcome, raises, Server}
use xmlrpc_extended.Server.Reject.{Peer, SocketCall, deliver, fault_response, unavailable_response}

-- How the sending of a response ends: with its calls on the socket, or by an exception before them.
pub data Sending : Type 0 where
  sent : List SocketCall → Sending
  unsent : Sending

abbrev pub delivered : Option (List SocketCall) → Option Sending
delivered none = none
delivered (some calls) = some (sent calls)

-- What `_reject_request` comes to: the counters, the calls on the socket before `shutdown_request`,
-- whether that was called, and how the call ended.
pub record Rejection : Type 0 where
  pub stats : StatsTracker
  pub calls : List SocketCall
  pub is_shut : Bool
  pub ending : Outcome

-- `shut` is how `shutdown_request` ends.
after_sending : Outcome → StatsTracker → Option Sending → Option Rejection
after_sending shut stats none = none
after_sending shut stats (some (sent calls)) =
    some (record { stats = stats; calls = calls; is_shut = true; ending = shut })
after_sending shut stats (some unsent) =
    some (record { stats = stats; calls = []; is_shut = false; ending = raises })

-- `fuel` bounds the rounds of the loop that drains the connection; `none` is its end.
unfoldable pub send_503_response : ℕ → Peer → Option Sending
unfolding deliver unavailable_response
send_503_response fuel peer = delivered (deliver fuel peer unavailable_response)

send_response : ℕ → Peer → Option Bytes → Option Sending
unfolding deliver
send_response fuel peer none = some unsent
send_response fuel peer (some response) = delivered (deliver fuel peer response)

module _ (dumps_fault : ℤ → Text → Option Text) (encode : Text → Option Bytes) where
  unfoldable pub send_fault_response : ℕ → Peer → XmlrpcServerConfig → Option Sending
  unfolding send_response fault_response
  send_fault_response fuel peer c = send_response fuel peer (fault_response dumps_fault encode c)

  reject_by :
      ServerOverloadPolicy
      → ℕ
      → Peer
      → Outcome
      → XmlrpcServerConfig
      → StatsTracker
      → Option Rejection
  unfolding after_sending send_fault_response send_503_response record_rejected_close
      record_rejected_fault record_rejected_503
  reject_by fault fuel peer shut c stats =
      after_sending shut (record_rejected_fault stats) (send_fault_response fuel peer c)
  reject_by http_503 fuel peer shut c stats =
      after_sending shut (record_rejected_503 stats) (send_503_response fuel peer)
  reject_by _ fuel peer shut c stats =
      after_sending shut (record_rejected_close stats) (some (sent []))

  unfoldable pub reject_request : ℕ → Peer → Outcome → Server → Option Rejection
  unfolding reject_by
  reject_request fuel peer shut s =
      reject_by s.config.overload_policy fuel peer shut s.config s.stats
