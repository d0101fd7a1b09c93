-- ===== src/Server/Handler.antt =====
-- server.py: `LimitedXMLRPCRequestHandler`, the checks of a request before the standard library's
-- `do_POST` reads and dispatches it.
pub mod Laws
mod Tests
use xmlrpc_extended.Prelude.{ℕ, Bool, true, Option, none, some, if◌then◌else◌}
use xmlrpc_extended.Prelude.Int.{ℤ, pos, ltb_ℤ}
use xmlrpc_extended.Python.Headers.{Headers, get, or_default}
use xmlrpc_extended.Python.Number.{int}
use xmlrpc_extended.Python.Text.{Text, codes, text_eq, lower}

-- What the handler does with a request.
pub data Reply : Type 0 where
  send_error : (code : ℕ) (message : Text) → Reply
  super_do_post : Reply

abbrev pub chunked_unsupported : Reply
chunked_unsupported = send_error 501 (codes "Chunked transfer encoding is not supported")

abbrev pub length_required : Reply
length_required = send_error 411 (codes "Content-Length header is required")

abbrev pub length_invalid : Reply
length_invalid = send_error 400 (codes "Content-Length must be a valid non-negative integer")

abbrev pub too_large : Reply
too_large = send_error 413 (codes "XML-RPC request body too large")

abbrev pub is_chunked : Headers → Bool
is_chunked h =
    text_eq (lower (or_default (get h (codes "transfer-encoding")) (codes ""))) (codes "chunked")

-- The two tests of the size: `None` and negative numbers, then the limit.
unfoldable pub check_size : ℤ → Option ℤ → Reply
check_size max_request_size none = length_invalid
check_size max_request_size (some size) =
    if ltb_ℤ size (pos 0)
    then length_invalid
    else if ltb_ℤ max_request_size size
    then too_large
    else super_do_post

unfoldable pub check_length : ℕ → ℤ → Option Text → Reply
unfolding check_size
check_length digits max_request_size none = length_required
check_length digits max_request_size (some content_length) =
    check_size max_request_size (int digits content_length)

-- `do_POST`. The first argument is the interpreter's limit on the digits of a number.
unfoldable pub do_post : ℕ → ℤ → Headers → Reply
unfolding check_length
do_post digits max_request_size headers =
    if is_chunked headers
    then chunked_unsupported
    else check_length digits max_request_size (get headers (codes "content-length"))

-- `log_error` writes when the server's `logRequests` says so, or has no such attribute.
unfoldable pub log_error : Option Bool → Bool
log_error none = true
log_error (some log_requests) = log_requests
