-- ===== src/Server/Reject/Tests.antt =====
-- Responses and deliveries at concrete peers.
use xmlrpc_extended.Prelude.{◌≡◌, refl, true, [], ◌∷◌, ◌++◌, Option, none, some, length}
use xmlrpc_extended.Prelude.Int.{ℤ}
use xmlrpc_extended.Python.Number.{str}
use xmlrpc_extended.Python.Text.{Text, Bytes, codes}
use xmlrpc_extended.Server.Config.{default_config}
use xmlrpc_extended.Server.Reject.{
  received, Peer, deliver, fault_head, fault_response, encoded_payload,
}
use xmlrpc_extended.Server.Reject.Parse.{parse_response}
use xmlrpc_extended.Server.Reject.Laws.{fault_response-parses, deliver_endless}

-- The stand-in for the marshaller keeps the text, and every text can be encoded.
abbrev plain_dumps : ℤ → Text → Option Text
plain_dumps code text = some text

abbrev encode_all : Text → Option Bytes
encode_all text = some text

abbrev overloaded : Bytes
overloaded = fault_head 17 ++ codes "Server overloaded"

overloaded_sent : fault_response plain_dumps encode_all default_config ≡ some overloaded
unfolding fault_response
overloaded_sent = refl

fault_response-parses_example :
    (body : Bytes) × (encoded_payload plain_dumps encode_all
        (plain_dumps default_config.overload_fault_code default_config.overload_fault_string)
      ≡ some body)
    × (parse_response 3 overloaded
        ≡ some (record {
          status_line = codes "HTTP/1.1 200 OK";
          headers =
              (codes "Content-Type", codes "text/xml")
              ∷ (codes "Content-Length", str (length body))
              ∷ (codes "Connection", codes "close")
              ∷ [];
          body = body;
        }))
fault_response-parses_example =
    fault_response-parses plain_dumps encode_all default_config overloaded overloaded_sent

abbrev tireless_peer : Peer
tireless_peer = record {
  takes_response = true;
  shuts_down = true;
  takes_timeout = true;
  recv = λ n. received (60 ∷ []);
}

deliver_endless_example : deliver 1_000 tireless_peer overloaded ≡ none
deliver_endless_example =
    deliver_endless 1_000 tireless_peer overloaded
      (record { takes_response = refl; shuts_down = refl; takes_timeout = refl }) (λ n. tt)
