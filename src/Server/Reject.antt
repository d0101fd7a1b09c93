-- ===== src/Server/Reject.antt =====
-- server.py: `_send_fault_response` and `_send_503_response`: the bytes of the two responses, and
-- the calls on the socket that deliver them.
pub mod Parse
pub mod Laws
mod Tests
use xmlrpc_extended.Prelude.{
  ℕ, zero, suc, ◌+◌, Bool, true, false, List, [], ◌∷◌, ◌++◌, Option, none, some, length, replicate,
}
use xmlrpc_extended.Prelude.Int.{ℤ}
use xmlrpc_extended.Python.Number.{str}
use xmlrpc_extended.Python.Text.{Text, Bytes, codes}
use xmlrpc_extended.Server.Config.{XmlrpcServerConfig}

-- What `recv(4096)` comes to: some bytes, the end of the stream, or an `OSError` or a timeout.
pub data Recv : Type 0 where
  received : Bytes → Recv
  closed failed : Recv

-- The other end of the connection: whether the calls succeed, and what each `recv` comes to.
pub record Peer : Type 0 where
  pub takes_response : Bool
  pub shuts_down : Bool
  pub takes_timeout : Bool
  pub recv : ℕ → Recv

pub data SocketCall : Type 0 where
  sendall : Bytes → SocketCall
  shutdown_wr settimeout recv_4096 : SocketCall

-- `while request.recv(4096): pass`, from the call with number `n` on: the number of calls made.
-- `none` is the end of the fuel. An empty result is the end of the stream too.
unfoldable pub drain : ℕ → (ℕ → Recv) → ℕ → Option ℕ
drain zero recv n = none
drain (suc fuel) recv n = elim (recv n) [
  | received [] ↦ some (suc n)
  | received (_ ∷ _) ↦ drain fuel recv (suc n)
  | closed ↦ some (suc n)
  | failed ↦ some (suc n)
]

drained : Bytes → Option ℕ → Option (List SocketCall)
drained response none = none
drained response (some n) =
    some (sendall response ∷ shutdown_wr ∷ settimeout ∷ replicate n recv_4096)

abbrev pub when {ℓ} : {A : Type ℓ} → Bool → A → A → A
when true a b = a
when false a b = b

-- The calls on the socket for a response.
unfoldable pub deliver : ℕ → Peer → Bytes → Option (List SocketCall)
unfolding drained
deliver fuel peer response =
    when peer.takes_response
      (when peer.shuts_down
        (when peer.takes_timeout (drained response (drain fuel peer.recv 0))
          (some (sendall response ∷ shutdown_wr ∷ settimeout ∷ [])))
        (some (sendall response ∷ shutdown_wr ∷ [])))
      (some (sendall response ∷ []))

-- The head of the fault response, for a body of `n` bytes.
unfoldable pub fault_head : ℕ → Bytes
fault_head n =
    codes "HTTP/1.1 200 OK\r\nContent-Type: text/xml\r\nContent-Length: "
    ++ (str n ++ codes "\r\nConnection: close\r\n\r\n")

unfoldable pub unavailable_response : Bytes
unfolding str
unavailable_response =
    let body = codes "Service Unavailable" in
    codes "HTTP/1.1 503 Service Unavailable\r\nContent-Type: text/plain\r\nContent-Length: "
    ++ (str (length body) ++ (codes "\r\nRetry-After: 1\r\nConnection: close\r\n\r\n" ++ body))

-- `xmlrpc.client.dumps` of a fault as a method response, which fails at a code that is no `<int>`,
-- and the encoding of a text, which fails at a character that the encoding lacks.
module _ (dumps_fault : ℤ → Text → Option Text) (encode : Text → Option Bytes) where
  -- `payload.encode(...)`
  abbrev pub encoded_payload : Option Text → Option Bytes
  encoded_payload none = none
  encoded_payload (some payload) = encode payload

  unfoldable pub with_head : Option Bytes → Option Bytes
  with_head none = none
  with_head (some body) = some (fault_head (length body) ++ body)

  -- `none` is the exception of `dumps`, or the `UnicodeEncodeError` of the encoding.
  unfoldable pub fault_response : XmlrpcServerConfig → Option Bytes
  unfolding with_head
  fault_response c =
      with_head (encoded_payload (dumps_fault c.overload_fault_code c.overload_fault_string))
