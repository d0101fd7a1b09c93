-- ===== src/Server/Rejection/Answers.antt =====
-- What a rejected client gets that takes its response.
use xmlrpc_extended.Prelude.{
  ℕ, suc, ◌<◌, ◌≡◌, ◌≢◌, ◌∙◌, refl, ap, inl, inr, Option-cases, true, false, [], ◌∷◌, Option, none,
  some, length, replicate, arith,
}
use xmlrpc_extended.Prelude.Int.{ℤ}
use xmlrpc_extended.Python.Number.{str, digits_onto}
use xmlrpc_extended.Python.Text.{Text, Bytes, codes}
use xmlrpc_extended.Server.Config.{
  ServerOverloadPolicy, block, close, fault, http_503, XmlrpcServerConfig,
}
use xmlrpc_extended.Server.Stats.{
  StatsTracker, record_rejected_close, record_rejected_fault, record_rejected_503,
}
use xmlrpc_extended.Server.Pool.State.{Outcome, raises, Server}
use xmlrpc_extended.Server.Reject.{
  with_head, Peer, sendall, shutdown_wr, settimeout, recv_4096, deliver, fault_response,
  encoded_payload, unavailable_response,
}
use xmlrpc_extended.Server.Reject.Parse.{Response, parse_response}
use xmlrpc_extended.Server.Reject.Laws.{HasBytes, IsOpen, deliver_ends, fault_response-parses}
use xmlrpc_extended.Server.Rejection.{
  Rejection, delivered, after_sending, send_response, send_503_response, send_fault_response,
  reject_by, reject_request,
}

-- The response was sent, the write side was shut, `n` reads drained the connection, and it was
-- closed.
abbrev pub sent_with : Bytes → ℕ → Outcome → StatsTracker → Rejection
sent_with response n shut stats = record {
  stats = stats;
  calls = sendall response ∷ shutdown_wr ∷ settimeout ∷ replicate n recv_4096;
  is_shut = true;
  ending = shut;
}

abbrev pub closed_with : Outcome → StatsTracker → Rejection
closed_with shut stats = record { stats = stats; calls = []; is_shut = true; ending = shut }

-- The exception came before anything was sent.
abbrev pub raised_with : StatsTracker → Rejection
raised_with stats = record { stats = stats; calls = []; is_shut = false; ending = raises }

abbrev pub fault_message : Bytes → Response
fault_message body = record {
  status_line = codes "HTTP/1.1 200 OK";
  headers =
      (codes "Content-Type", codes "text/xml")
      ∷ (codes "Content-Length", str (length body))
      ∷ (codes "Connection", codes "close")
      ∷ [];
  body = body;
}

abbrev pub unavailable_message : Response
unavailable_message = record {
  status_line = codes "HTTP/1.1 503 Service Unavailable";
  headers =
      (codes "Content-Type", codes "text/plain")
      ∷ (codes "Content-Length", codes "19")
      ∷ (codes "Retry-After", codes "1")
      ∷ (codes "Connection", codes "close")
      ∷ [];
  body = codes "Service Unavailable";
}

unavailable_response-parses : parse_response 4 unavailable_response ≡ some unavailable_message
unfolding parse_response unavailable_response digits_onto
unavailable_response-parses = refl

module _ (dumps_fault : ℤ → Text → Option Text) (encode : Text → Option Bytes) where
  abbrev pub encoded_fault : XmlrpcServerConfig → Option Bytes
  encoded_fault c =
      encoded_payload dumps_fault encode (dumps_fault c.overload_fault_code c.overload_fault_string)

  -- The client reads the configured fault, or a 503, or nothing, by the policy.
  pub data Answered (s : Server) (n : ℕ) (shut : Outcome) : Rejection → Type 0 where
    fault_sent :
        s.config.overload_policy ≡ fault
        → (body response : Bytes) → encoded_fault s.config ≡ some body
        → parse_response 3 response ≡ some (fault_message body)
        → Answered s n shut (sent_with response n shut (record_rejected_fault s.stats))
    fault_raised :
        s.config.overload_policy ≡ fault
        → encoded_fault s.config ≡ none
        → Answered s n shut (raised_with (record_rejected_fault s.stats))
    unavailable_sent :
        s.config.overload_policy ≡ http_503
        → (response : Bytes) → parse_response 4 response ≡ some unavailable_message
        → Answered s n shut (sent_with response n shut (record_rejected_503 s.stats))
    closed_only :
        s.config.overload_policy ≢ fault
        → s.config.overload_policy ≢ http_503
        → Answered s n shut (closed_with shut (record_rejected_close s.stats))

  -- A fault that was encoded is sent.
  fault_response-none :
      (c : XmlrpcServerConfig) → fault_response dumps_fault encode c ≡ none → encoded_fault c ≡ none
  unfolding fault_response with_head
  fault_response-none c e = elim (Option-cases (encoded_fault c)) [
    | inl none_sent ↦ none_sent
    | inr (body, good) ↦ absurd (ground arith)
  ]

  module _ (n fuel : ℕ) (peer : Peer) (shut : Outcome) (s : Server) (few : n < fuel)
      (all_well : IsOpen peer) (more : (j : ℕ) → j < n → HasBytes (peer.recv j))
      (last : ¬ HasBytes (peer.recv n)) where
    delivered-sent :
        (response : Bytes) (stats : StatsTracker)
        → after_sending shut stats (delivered (deliver fuel peer response))
          ≡ some (sent_with response (suc n) shut stats)
    unfolding after_sending
    delivered-sent response stats =
        ap {B = Option Rejection} (λ c. after_sending shut stats (delivered c))
          (deliver_ends n fuel peer response few all_well more last)

    fault-Answered :
        s.config.overload_policy ≡ fault
        → (r : Rejection) × (after_sending shut
              (record_rejected_fault s.stats)
              (send_fault_response dumps_fault encode fuel peer s.config)
            ≡ some r)
          × Answered s (suc n) shut r
    unfolding send_fault_response send_response after_sending
    fault-Answered at = elim (Option-cases (fault_response dumps_fault encode s.config)) [
      | inl e ↦ (
        _,
        ap {B = Option Rejection}
            (λ c. after_sending shut (record_rejected_fault s.stats) (send_response fuel peer c)) e,
        fault_raised at (fault_response-none s.config e),
      )
      | inr (response, e) ↦
          let (body, good, read) = fault_response-parses dumps_fault encode s.config response e in
          (
            _,
            ap {B = Option Rejection}
                  (λ c.
                    after_sending shut (record_rejected_fault s.stats) (send_response fuel peer c))
                  e
                ∙ delivered-sent response (record_rejected_fault s.stats),
            fault_sent at body response good read,
          )
    ]

    reject_by-Answered :
        (p : ServerOverloadPolicy)
        → s.config.overload_policy ≡ p
        → (r : Rejection) × (reject_by dumps_fault encode p fuel peer shut s.config s.stats
            ≡ some r)
          × Answered s (suc n) shut r
    unfolding reject_by send_503_response after_sending
    reject_by-Answered fault at = fault-Answered at
    reject_by-Answered http_503 at = (
      _,
      delivered-sent unavailable_response _,
      unavailable_sent at _ unavailable_response-parses,
    )
    reject_by-Answered close at = (_, refl, closed_only (λ e. cc) (λ e. cc))
    reject_by-Answered block at = (_, refl, closed_only (λ e. cc) (λ e. cc))

    -- When the peer takes what it is sent and its `recv` with number `n` is the first to bring no
    -- bytes, `_reject_request` comes to an end (with more fuel than `n`). Under FAULT the client
    -- reads the configured fault, or is sent nothing when the fault cannot be encoded, which raises;
    -- under HTTP_503 it reads a 503; under another policy it is sent nothing. Its connection is shut
    -- in each case but the raised one, after `n + 1` reads where something was sent, and the
    -- policy's counter is up by one.
    pub reject_request-Answered :
        (r : Rejection) × (reject_request dumps_fault encode fuel peer shut s ≡ some r)
        × Answered s (suc n) shut r
    unfolding reject_request
    reject_request-Answered = reject_by-Answered s.config.overload_policy refl
