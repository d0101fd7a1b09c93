-- ===== src/Asgi/Http/Escapes.antt =====
-- A request that gets no response: an exception goes on from `_handle_http` to the ASGI server.
use xmlrpc_extended.Prelude.{ℕ, ◌≡◌, refl, Bool-cases, inl, inr, List, some, arith, length}
use xmlrpc_extended.Prelude.Int.{ℤ, pos, ◌≤ℤ◌, ltb_ℤ}
use xmlrpc_extended.Python.Text.{Text, Bytes, codes, text_eq_refl}
use xmlrpc_extended.Asgi.Host.{value, fault, exception, Call, Host}
use xmlrpc_extended.Asgi.App.{App}
use xmlrpc_extended.Asgi.Body.{Event, read_body}
use xmlrpc_extended.Asgi.Dispatch.{async_dispatch, async_marshaled_dispatch, method_name}
use xmlrpc_extended.Asgi.Dispatch.Replies.{unmarshalled_fault}
use xmlrpc_extended.Asgi.Http.{Scope, handle_http, with_body, sent_response}
use xmlrpc_extended.Asgi.Http.Laws.{request_path, request_method}

module _ (host : Host) (k : ℕ) where
  open host use {Value, Object}

  -- What is done for a POST request on the path of the application, of a permitted size.
  handle_http-post :
      (a : App Object) (scope : Scope) (events left : List Event) (body : Bytes)
      → request_path scope ≡ a.rpc_path
      → request_method scope ≡ codes "POST"
      → read_body events ≡ some (body, left)
      → pos (length body) ≤ℤ a.max_request_size
      → handle_http host k a scope events
        ≡ some (record {
          app = (async_marshaled_dispatch host k a body).0;
          sent = sent_response (async_marshaled_dispatch host k a body).1;
          left = left;
        })
  unfolding handle_http with_body
  handle_http-post a scope events left body here post got fits =
      rw (here, text_eq_refl a.rpc_path, post, text_eq_refl (codes "POST"), got)
        (elim (Bool-cases (ltb_ℤ a.max_request_size (pos (length body)))) [
          | inl over ↦ absurd (ground arith)
          | inr within ↦ rw within refl
        ])

  -- A call may raise a fault that cannot be marshalled, such as one whose code is no `<int>`. Then
  -- a POST request on the application's path, of a permitted size, that could be parsed, is sent no
  -- message at all, and what `dumps` raises goes on to the ASGI server.
  pub fault_escapes :
      (a : App Object) (scope : Scope) (events left : List Event) (body : Bytes)
      (request : Call Value) (c : ℤ) (m n text : Text)
      → request_path scope ≡ a.rpc_path
      → request_method scope ≡ codes "POST"
      → read_body events ≡ some (body, left)
      → pos (length body) ≤ℤ a.max_request_size
      → host.loads body ≡ value request
      → (async_dispatch host k a (method_name host request.method) request.params).outcome
        ≡ fault c m
      → host.dumps_fault c m ≡ exception n text
      → handle_http host k a scope events
        ≡ some (record {
          app = (async_marshaled_dispatch host k a body).0;
          sent = exception n text;
          left = left;
        })
  fault_escapes a scope events left body request c m n text here post got fits parsed raised bad =
      let escaped = unmarshalled_fault host k a body request c m n text parsed raised bad in
      rw (handle_http-post a scope events left body here post got fits, escaped) refl
