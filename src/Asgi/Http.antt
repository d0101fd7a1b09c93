-- ===== src/Asgi/Http.antt =====
-- `_send_http_response` and `_handle_http`.
pub mod Laws
pub mod Escapes
pub mod Extends
use xmlrpc_extended.Prelude.{
  ℕ, ◌-◌, not, List, [], ◌∷◌, map, Option, none, some, length, leb, ◌&&◌, if◌then◌else◌,
}
use xmlrpc_extended.Prelude.Int.{pos, ltb_ℤ}
use xmlrpc_extended.Python.Number.{str}
use xmlrpc_extended.Python.Text.{Text, Bytes, codes, text_eq}
use xmlrpc_extended.Python.Headers.{Headers, or_default}
use xmlrpc_extended.Asgi.Host.{Outcome, value, fault, exception, Host}
use xmlrpc_extended.Asgi.App.{App}
use xmlrpc_extended.Asgi.Body.{Event, read_body}
use xmlrpc_extended.Asgi.Dispatch.{async_marshaled_dispatch}

-- What the application sends.
pub data Message : Type 0 where
  response_start : (status : ℕ) → Headers → Message
  response_body : Bytes → Message
  startup_complete shutdown_complete : Message

-- `upper`, at the letters of ASCII.
upper_char : ℕ → ℕ
upper_char c = if leb b'a' c && leb c b'z' then c - 32 else c

unfoldable pub upper : Text → Text
unfolding upper_char
upper = map upper_char

-- The keys of a scope that are read; each may be missing.
pub record Scope : Type 0 where
  pub type : Option Text
  pub path : Option Text
  pub method : Option Text

unfoldable pub send_http_response :
    (status : ℕ) (body : Bytes) (content_type : Text) (extra_headers : Headers) → List Message
send_http_response status body content_type extra_headers =
    response_start status (
      (codes "content-type", content_type)
      ∷ (codes "content-length", str (length body))
      ∷ extra_headers)
    ∷ response_body body
    ∷ []

abbrev pub plain_text : Text
plain_text = codes "text/plain; charset=utf-8"

abbrev pub xml_text : Text
xml_text = codes "text/xml; charset=utf-8"

abbrev pub not_found : List Message
not_found = send_http_response 404 (codes "Not Found") plain_text []

abbrev pub method_not_allowed : List Message
method_not_allowed =
    send_http_response 405 (codes "Method Not Allowed") plain_text
      ((codes "allow", codes "POST") ∷ [])

abbrev pub payload_too_large : List Message
payload_too_large = send_http_response 413 (codes "Payload Too Large") plain_text []

abbrev pub success : Bytes → List Message
success body = send_http_response 200 body xml_text []

-- The end of a call: the application, the messages that were sent or the exception that goes on to
-- the server, and the events that were left in the channel.
pub record Done (Object : Type 0) : Type 0 where
  pub app : App Object
  pub sent : Outcome (List Message)
  pub left : List Event

abbrev pub sent_response : Outcome Bytes → Outcome (List Message)
sent_response (value body) = value (success body)
sent_response (fault c m) = fault c m
sent_response (exception n m) = exception n m

module _ (host : Host) where
  open host use {Object}

  -- The dispatch of a body of the permitted size.
  abbrev pub dispatched : List Event → App Object × Outcome Bytes → Done Object
  dispatched left (a, response) = record { app = a; sent = sent_response response; left = left }

  unfoldable pub with_body : ℕ → App Object → Bytes × List Event → Done Object
  with_body k a (body, left) =
      if ltb_ℤ a.max_request_size (pos (length body))
      then record { app = a; sent = value payload_too_large; left = left }
      else dispatched left (async_marshaled_dispatch host k a body)

  abbrev pub read_and_dispatch : ℕ → App Object → Option (Bytes × List Event) → Option (Done Object)
  read_and_dispatch k a none = none
  read_and_dispatch k a (some got) = some (with_body k a got)

  -- The call for the request with the number `k`; `none` means that it waits for the rest of the
  -- body.
  unfoldable pub handle_http : ℕ → App Object → Scope → List Event → Option (Done Object)
  unfolding with_body
  handle_http k a scope events =
      if not (text_eq (or_default scope.path (codes "/")) a.rpc_path)
      then some (record { app = a; sent = value not_found; left = events })
      else if not (text_eq (upper (or_default scope.method (codes "GET"))) (codes "POST"))
      then some (record { app = a; sent = value method_not_allowed; left = events })
      else read_and_dispatch k a (read_body events)
