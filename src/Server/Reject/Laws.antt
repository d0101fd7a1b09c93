-- ===== src/Server/Reject/Laws.antt =====
-- What a rejected client can read, and how long the accept thread is kept by it.
use xmlrpc_extended.Prelude.{
  ℕ, zero, suc, ◌+◌, ◌%◌, ◌/◌, ◌<◌, ◌≡◌, refl, ◌∙◌, ap, subst, sym, inl, inr, Option-cases, true,
  [], ◌∷◌, ◌++◌, append_assoc, Option, none, some, arith, length, replicate,
}
use mathlib.Core.Option.{some-injective}
use native.Mathlib.Nat.{add-zero}
use xmlrpc_extended.Prelude.Int.{ℤ}
use xmlrpc_extended.Python.Number.{str, digits_onto, is_digit}
use xmlrpc_extended.Python.Text.{Text, Bytes, codes}
use xmlrpc_extended.Server.Config.{XmlrpcServerConfig}
use xmlrpc_extended.Server.Reject.{
  Recv, received, closed, failed, Peer, sendall, shutdown_wr, settimeout, recv_4096, drain, deliver,
  fault_head, fault_response, encoded_payload,
}
use xmlrpc_extended.Server.Reject.Parse.{parse_response, read_line-IsDigits, IsDigits}

digits_onto-IsDigits :
    (fuel n : ℕ) (rest : Text) → n < fuel → IsDigits rest → IsDigits (digits_onto fuel n rest)
unfolding digits_onto is_digit
digits_onto-IsDigits zero n rest h d = elim h [ ]
digits_onto-IsDigits (suc fuel) n rest h d =
    ground (arith, digits_onto-IsDigits fuel (n / 10) ((b'0' + n % 10) ∷ rest))

str-IsDigits : (n : ℕ) → IsDigits (str n)
unfolding str
str-IsDigits n = digits_onto-IsDigits (suc n) n [] (omega arith) tt

-- The head of the fault response, read by a client, for any body.
parse_response-fault_head :
    (n : ℕ) (body : Bytes)
    → parse_response 3 (fault_head n ++ body)
      ≡ some (record {
        status_line = codes "HTTP/1.1 200 OK";
        headers =
            (codes "Content-Type", codes "text/xml")
            ∷ (codes "Content-Length", str n)
            ∷ (codes "Connection", codes "close")
            ∷ [];
        body = body;
      })
unfolding parse_response fault_head
parse_response-fault_head n body =
    rw (append_assoc (str n) (codes "\r\nConnection: close\r\n\r\n") body)
      (rw (read_line-IsDigits (str n) (codes "Connection: close\r\n\r\n" ++ body) (str-IsDigits n)))

module _ (dumps_fault : ℤ → Text → Option Text) (encode : Text → Option Bytes) where
  -- A fault response that is sent is one that a client reads: status 200, XML, with the length of
  -- the encoded fault announced, and the encoded fault of the configured code and text as its body.
  pub fault_response-parses :
      (c : XmlrpcServerConfig) (response : Bytes)
      → fault_response dumps_fault encode c ≡ some response
      → (body : Bytes) × (encoded_payload dumps_fault encode
            (dumps_fault c.overload_fault_code c.overload_fault_string)
          ≡ some body)
        × (parse_response 3 response
            ≡ some (record {
              status_line = codes "HTTP/1.1 200 OK";
              headers =
                  (codes "Content-Type", codes "text/xml")
                  ∷ (codes "Content-Length", str (length body))
                  ∷ (codes "Connection", codes "close")
                  ∷ [];
              body = body;
            }))
  unfolding fault_response
  fault_response-parses c response e =
      elim (Option-cases (
        encoded_payload dumps_fault encode
          (dumps_fault c.overload_fault_code c.overload_fault_string))) [
            | inl bad ↦ absurd (ground arith)
            | inr (body, good) ↦ (
              body,
              good,
              rw (sym (some-injective _ _ (rw good at e)))
                  (parse_response-fault_head (length body) body),
            )
          ]

-- Bytes that are not the end of the stream.
abbrev pub HasBytes : Recv → Type 0
HasBytes (received (c ∷ s)) = Unit {0}
HasBytes _ = ⊥

drain-stops :
    (fuel : ℕ) (recv : ℕ → Recv) (n : ℕ) (r : Recv)
    → recv n ≡ r
    → ¬ HasBytes r
    → drain (suc fuel) recv n ≡ some (suc n)
unfolding drain
drain-stops fuel recv n (received []) e h = rw (e, drain)
drain-stops fuel recv n (received (c ∷ s)) e h = absurd (h tt)
drain-stops fuel recv n closed e h = rw (e, drain)
drain-stops fuel recv n failed e h = rw (e, drain)

drain-goes :
    (fuel : ℕ) (recv : ℕ → Recv) (n : ℕ) (r : Recv)
    → recv n ≡ r
    → HasBytes r
    → drain (suc fuel) recv n ≡ drain fuel recv (suc n)
unfolding drain
drain-goes fuel recv n (received (c ∷ s)) e h = rw (e, drain)
drain-goes fuel recv n r e h = absurd h

drain_from :
    (k n : ℕ) (recv : ℕ → Recv) (fuel : ℕ)
    → k < fuel
    → ((j : ℕ) → j < k → HasBytes (recv (n + j)))
    → ¬ HasBytes (recv (n + k))
    → drain fuel recv n ≡ some (suc (n + k))
drain_from k n recv zero few more last = absurd (omega arith)
drain_from zero n recv (suc fuel) few more last =
    drain-stops fuel recv n (recv n) refl (rw (add-zero n) at last) ∙ rw (add-zero n)
drain_from (suc k) n recv (suc fuel) few more last =
    drain-goes fuel recv n (recv n) refl (rw (add-zero n) at (more 0 (omega arith)))
    ∙ drain_from k (suc n) recv fuel (omega arith)
        (λ j h. subst (λ i. HasBytes (recv i)) (omega arith) (more (suc j) (omega arith)))
        (subst (λ i. ¬ HasBytes (recv i)) (omega arith) last)
    ∙ ap {B = Option ℕ} some (omega arith)

drain_ends :
    (k : ℕ) (recv : ℕ → Recv) (fuel : ℕ)
    → k < fuel
    → ((j : ℕ) → j < k → HasBytes (recv j))
    → ¬ HasBytes (recv k)
    → drain fuel recv 0 ≡ some (suc k)
drain_ends k recv fuel few more last =
    drain_from k 0 recv fuel few (λ j h. subst (λ i. HasBytes (recv i)) (omega arith) (more j h))
      (subst (λ i. ¬ HasBytes (recv i)) (omega arith) last)
    ∙ ap {B = Option ℕ} some (omega arith)

drain_endless :
    (recv : ℕ → Recv) → ((n : ℕ) → HasBytes (recv n)) → (fuel n : ℕ) → drain fuel recv n ≡ none
unfolding drain
drain_endless recv more zero n = refl
drain_endless recv more (suc fuel) n =
    drain-goes fuel recv n (recv n) refl (more n) ∙ drain_endless recv more fuel (suc n)

-- A peer on which no call before the reading fails.
pub record IsOpen (peer : Peer) : Type 0 where
  pub takes_response : peer.takes_response ≡ true
  pub shuts_down : peer.shuts_down ≡ true
  pub takes_timeout : peer.takes_timeout ≡ true

-- A peer takes the whole response, then the write side is shut, then what the client still sends is
-- read off: when `recv` with number `k` is the first to bring no bytes, the delivery ends with it.
pub deliver_ends :
    (k fuel : ℕ) (peer : Peer) (response : Bytes)
    → k < fuel
    → IsOpen peer
    → ((j : ℕ) → j < k → HasBytes (peer.recv j))
    → ¬ HasBytes (peer.recv k)
    → deliver fuel peer response
      ≡ some (sendall response ∷ shutdown_wr ∷ settimeout ∷ replicate (suc k) recv_4096)
unfolding deliver
deliver_ends k fuel peer response few all_well more last =
    rw (all_well.takes_response, all_well.shuts_down, all_well.takes_timeout)
      (rw (drain_ends k peer.recv fuel few more last))

-- A client that goes on sending keeps the delivery, and so the accept thread that runs it, busy for
-- ever: however many rounds are allowed, it has not ended.
pub deliver_endless :
    (fuel : ℕ) (peer : Peer) (response : Bytes)
    → IsOpen peer
    → ((n : ℕ) → HasBytes (peer.recv n))
    → deliver fuel peer response ≡ none
unfolding deliver
deliver_endless fuel peer response all_well more =
    rw (all_well.takes_response, all_well.shuts_down, all_well.takes_timeout)
      (rw (drain_endless peer.recv more fuel 0))
