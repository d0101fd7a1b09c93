-- ===== src/Asgi/Loop/Follows.antt =====
-- One request's task, held against `_handle_http` run alone.
use xmlrpc_extended.Prelude.{
  ℕ, ◌≡◌, refl, sym, ap, subst, ◌∙◌, ◌⊎◌, inl, inr, Bool-cases, Bool, true, false, not, List, [],
  ◌∷◌, ◌++◌, append_assoc, Option, none, some, length,
}
use xmlrpc_extended.Prelude.Int.{pos, ltb_ℤ}
use xmlrpc_extended.Python.Headers.{or_default}
use xmlrpc_extended.Python.Text.{Text, Bytes, codes, text_eq}
use xmlrpc_extended.Asgi.Host.{Outcome, value, fault, exception, Call, Host}
use xmlrpc_extended.Asgi.App.{App, Pools}
use xmlrpc_extended.Asgi.Body.{
  Event, body_chunk, has_more, append_chunk, join, read_from, read_body,
}
use xmlrpc_extended.Asgi.Dispatch.{
  Place, Target, function, hook, unsupported, target, run_target, run_function, async_dispatch,
  async_marshaled_dispatch, marshaled, encoded, answer_fault, marshal, method_name,
}
use xmlrpc_extended.Asgi.Http.{
  not_found, method_not_allowed, Message, Scope, Done, handle_http, with_body, read_and_dispatch,
  sent_response, upper,
}
use xmlrpc_extended.Asgi.Loop.{
  Await, receiving, calling, sending, finished, raised, cut_off, start_http, respond, on_result,
  at_handler, on_call, on_body, on_event,
}

module _ (host : Host) (k : ℕ) where
  open host use {Value, Object}

  -- Run alone on its events, the request sends `o`, or ends by the exception `o`.
  abbrev pub Sends : App Object → Scope → List Event → Outcome (List Message) → Type 0
  Sends a scope es o = (d : Done Object) × (handle_http host k a scope es ≡ some d) × (d.sent ≡ o)

  abbrev pub HasNoValue : Outcome (List Message) → Type 0
  HasNoValue (value sent) = ⊥
  HasNoValue _ = Unit {0}

  -- A request that stands at this `await` has sent what it would have sent alone, up to here.
  abbrev pub Follows : App Object → Scope → List Event → List Message → Await host → Type 0
  Follows a scope es sent (receiving chunks) =
      (sent ≡ [])
      × ((rest : List Event)
          → handle_http host k a scope (es ++ rest)
            ≡ read_and_dispatch host k a (read_from chunks rest))
  Follows a scope es sent (calling place result) =
      (sent ≡ [])
      × Sends a scope es (sent_response (encoded host (answer_fault host (marshal host result))))
  Follows a scope es sent (sending ms) = Sends a scope es (value (sent ++ ms))
  Follows a scope es sent finished = Sends a scope es (value sent)
  Follows a scope es sent raised =
      (sent ≡ []) × ((o : Outcome (List Message)) × Sends a scope es o × HasNoValue o)
  Follows a scope es sent cut_off =
      (sent ≡ []) ⊎ ((ms : List Message) × Sends a scope es (value (sent ++ ms)))

  module _ (a : App Object) (scope : Scope) where
    pub start_http-Follows : Follows a scope [] [] (start_http host a scope)
    unfolding start_http handle_http read_body
    start_http-Follows =
        elim (Bool-cases (not (text_eq (or_default scope.path (codes "/")) a.rpc_path))) [
          | inl elsewhere ↦
              rw (elsewhere, start_http)
                (
                  record { app = a; sent = value not_found; left = [] },
                  rw (elsewhere, handle_http) refl,
                  refl,
                )
          | inr here ↦
              elim (Bool-cases
                (not (text_eq (upper (or_default scope.method (codes "GET"))) (codes "POST")))) [
                  | inl other ↦
                      rw (here, other, start_http)
                        (
                          record { app = a; sent = value method_not_allowed; left = [] },
                          rw (here, other, handle_http) refl,
                          refl,
                        )
                  | inr post ↦
                      rw (here, post, start_http) (refl, λ rest. rw (here, post, handle_http) refl)
                ]
        ]

    module _ (es : List Event) where
      respond-Follows :
          (r : Outcome Bytes)
          → Sends a scope es (sent_response r)
          → Follows a scope es [] (respond host r)
      unfolding respond
      respond-Follows (value body) s = s
      respond-Follows (fault c m) s = (refl, (fault c m, s, tt))
      respond-Follows (exception n m) s = (refl, (exception n m, s, tt))

      pub on_result-Follows :
          (r : Outcome Value)
          → Sends a scope es (sent_response (encoded host (answer_fault host (marshal host r))))
          → Follows a scope es [] (on_result host r)
      unfolding on_result
      on_result-Follows r s = respond-Follows _ s

      at_handler-Follows :
          (r : Outcome Value) (place : Option Place)
          → Sends a scope es (sent_response (encoded host (answer_fault host (marshal host r))))
          → Follows a scope es [] (at_handler host r place)
      at_handler-Follows r none s = on_result-Follows r s
      at_handler-Follows r (some place) s = (refl, s)

    -- The executor makes no difference to what a call answers.
    module _ (e : Option ℕ) (p : Pools) where
      abbrev other : App Object
      other = record a { executor = e; pools = p }

      run_function-outcome :
          (f : Object) (params : List Value) (is_async : Bool)
          → (run_function host k other f params is_async).outcome
            ≡ (run_function host k a f params is_async).outcome
      run_function-outcome f params true = refl
      run_function-outcome f params false = refl

      run_target-outcome :
          (method : Text) (params : List Value) (g : Target host)
          → (run_target host k other method params g).outcome
            ≡ (run_target host k a method params g).outcome
      run_target-outcome method params (function f) = run_function-outcome f params _
      run_target-outcome method params (hook f) = refl
      run_target-outcome method params unsupported = refl

      on_call-Follows :
          (es : List Event) (call : Outcome (Call Value))
          → Sends a scope es (sent_response (marshaled host k a call).1)
          → Follows a scope es [] (on_call host k other call).1
      unfolding on_call async_dispatch target
      on_call-Follows es (value request) s = at_handler-Follows es _ _ (
          subst
            (λ r.
              Sends a scope es (sent_response (encoded host (answer_fault host (marshal host r)))))
            (sym (
              run_target-outcome (method_name host request.method) request.params
                (target host a (method_name host request.method))))
            s)
      on_call-Follows es (fault c m) s = respond-Follows es _ s
      on_call-Follows es (exception n m) s = respond-Follows es _ s

      on_body-Follows :
          (es : List Event) (body : Bytes)
          → handle_http host k a scope es ≡ some (with_body host k a (body, []))
          → Follows a scope es [] (on_body host k other body).1
      unfolding on_body with_body async_marshaled_dispatch
      on_body-Follows es body h = elim (Bool-cases (ltb_ℤ a.max_request_size (pos (length body)))) [
        | inl large ↦ rw (large, on_body) (_, h, rw (large, with_body) refl)
        | inr fits ↦
            rw (fits, on_body)
              (on_call-Follows es (host.loads body) (_, h, rw (fits, with_body) refl))
      ]

      pub on_event-Follows :
          (es : List Event) (chunks : List Bytes) (event : Event)
          → Follows a scope es [] (receiving chunks)
          → Follows a scope (es ++ event ∷ []) [] (on_event host k other chunks event).1
      unfolding on_event read_from
      on_event-Follows es chunks event (none_sent, h) = elim (Bool-cases (has_more event)) [
        | inl more ↦
            rw (more, on_event)
              (
                refl,
                λ rest.
                    ap (handle_http host k a scope) (append_assoc es (event ∷ []) rest)
                    ∙ h (event ∷ rest)
                    ∙ rw (more, read_from) refl,
              )
        | inr last ↦
            rw (last, on_event)
              (on_body-Follows (es ++ event ∷ []) (join (append_chunk chunks (body_chunk event)))
                (h (event ∷ []) ∙ rw (last, read_from) refl))
      ]
