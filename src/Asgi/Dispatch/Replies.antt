-- ===== src/Asgi/Dispatch/Replies.antt =====
-- What `_async_marshaled_dispatch` replies, and what it leaves to the server.
use xmlrpc_extended.Prelude.{ℕ, ◌≡◌, refl, subst, Bool, true, false, List, ◌++◌, arith}
use xmlrpc_extended.Prelude.Int.{ℤ, pos, negsuc, ◌≤ℤ◌}
use xmlrpc_extended.Python.Text.{Text, Bytes, codes}
use xmlrpc_extended.Asgi.Host.{Outcome, value, fault, exception, Call, Host}
use xmlrpc_extended.Asgi.App.{App}
use xmlrpc_extended.Asgi.Dispatch.{
  Target, function, hook, unsupported, target, run_function, run_target, async_dispatch,
  async_marshaled_dispatch, marshaled, marshal, answer_fault, encoded, method_name,
}

-- A fault code that `xmlrpc.client.dumps` takes for an `<int>`.
abbrev pub IsCode : ℤ → Type 0
IsCode c = (negsuc 2_147_483_647 ≤ℤ c) × (c ≤ℤ pos 2_147_483_647)

module _ (host : Host) (k : ℕ) where
  open host use {Value, Object}

  -- The code and the message of the fault that stands for what was raised.
  pub data IsFailure {ℓ} {A : Type ℓ} (o : Outcome A) (c : ℤ) (m : Text) : Type ℓ where
    own : o ≡ fault c m → IsFailure o c m
    foreign :
        (name text : Text)
        → o ≡ exception name text
        → c ≡ pos 1
        → m ≡ name ++ (codes ": " ++ text)
        → IsFailure o c m

  -- What a call that ended in such a way is replied to with: its result, the fault for what it
  -- raised, or the fault for what the marshalling of its result raised.
  pub data Reply (o : Outcome Value) : Outcome Bytes → Type 0 where
    result :
        (v : Value) (text : Text)
        → o ≡ value v
        → host.dumps_response v ≡ value text
        → Reply o (value (host.encode text))
    failed :
        (c : ℤ) (m : Text) (text : Text)
        → IsFailure o c m
        → host.dumps_fault c m ≡ value text
        → Reply o (value (host.encode text))
    undumped :
        (v : Value) (c : ℤ) (m : Text) (text : Text)
        → o ≡ value v
        → IsFailure (host.dumps_response v) c m
        → host.dumps_fault c m ≡ value text
        → Reply o (value (host.encode text))

  -- A body that can be parsed is replied to by its call, another one with the fault -32700.
  pub data IsReply (a : App Object) (body : Bytes) : Outcome Bytes → Type 0 where
    replied :
        (request : Call Value) (r : Outcome Bytes)
        → host.loads body ≡ value request
        → Reply (async_dispatch host k a (method_name host request.method) request.params).outcome r
        → IsReply a body r
    unparsed :
        (text : Text)
        → ((request : Call Value) → ¬ (host.loads body ≡ value request))
        → host.dumps_fault
            (negsuc 32_699)
            (codes "Parse error: " ++ host.exception_text (host.loads body))
          ≡ value text
        → IsReply a body (value (host.encode text))

  -- No fault of another code than `<int>` can hold comes out of a call.
  pub record HasCodes : Type 0 where
    pub called :
        (f : Object) (params : List Value) (c : ℤ) (m : Text)
        → host.call k f params ≡ fault c m
        → IsCode c
    pub hooked :
        (f : Object) (method : Text) (params : List Value) (c : ℤ) (m : Text)
        → host.call_dispatch k f method params ≡ fault c m
        → IsCode c
    pub dumped : (v : Value) (c : ℤ) (m : Text) → host.dumps_response v ≡ fault c m → IsCode c
    pub marshals :
        (c : ℤ) (m : Text) → IsCode c → (text : Text) × (host.dumps_fault c m ≡ value text)

  run_function-IsCode :
      (codes_ok : HasCodes) (a : App Object) (f : Object) (params : List Value) (is_async : Bool)
      (c : ℤ) (m : Text)
      → (run_function host k a f params is_async).outcome ≡ fault c m
      → IsCode c
  run_function-IsCode codes_ok a f params true c m h = codes_ok.called f params c m h
  run_function-IsCode codes_ok a f params false c m h = codes_ok.called f params c m h

  fault-code : (c d : ℤ) (m n : Text) → ◌≡◌ {A = Outcome Value} (fault c m) (fault d n) → c ≡ d
  fault-code c d m n e = cc

  run_target-IsCode :
      (codes_ok : HasCodes) (a : App Object) (method : Text) (params : List Value) (t : Target host)
      (c : ℤ) (m : Text)
      → (run_target host k a method params t).outcome ≡ fault c m
      → IsCode c
  run_target-IsCode codes_ok a method params (function f) c m h =
      run_function-IsCode codes_ok a f params _ c m h
  run_target-IsCode codes_ok a method params (hook f) c m h = codes_ok.hooked f method params c m h
  run_target-IsCode codes_ok a method params unsupported c m h =
      subst IsCode (fault-code _ _ _ _ h) (ground arith, ground arith)

  raised-Reply :
      (ok : HasCodes) (o : Outcome Value) (c : ℤ) (m : Text)
      → IsFailure o c m
      → IsCode c
      → Reply o (encoded host (host.dumps_fault c m))
  raised-Reply ok o c m h small =
      let (text, e) = ok.marshals c m small in rw e (failed c m text h e)

  dumped-Reply :
      (ok : HasCodes) (v : Value) (r : Outcome Text)
      → host.dumps_response v ≡ r
      → Reply (value v) (encoded host (answer_fault host r))
  dumped-Reply ok v (value text) e = result v text refl e
  dumped-Reply ok v (fault c m) e =
      let (text, f) = ok.marshals c m (ok.dumped v c m e) in
      rw f (undumped v c m text refl (own e) f)
  dumped-Reply ok v (exception n m) e =
      let (text, f) = ok.marshals (pos 1) (n ++ (codes ": " ++ m)) (ground arith, ground arith) in
      rw f (undumped v _ _ text refl (foreign n m e refl refl) f)

  marshal-Reply :
      (ok : HasCodes) (o : Outcome Value)
      → ((c : ℤ) (m : Text) → o ≡ fault c m → IsCode c)
      → Reply o (encoded host (answer_fault host (marshal host o)))
  marshal-Reply ok (value v) small = dumped-Reply ok v _ refl
  marshal-Reply ok (fault c m) small = raised-Reply ok _ c m (own refl) (small c m refl)
  marshal-Reply ok (exception n m) small =
      raised-Reply ok _ _ _ (foreign n m refl refl refl) (ground arith, ground arith)

  unparsed-IsReply :
      (ok : HasCodes) (a : App Object) (body : Bytes)
      → ((request : Call Value) → ¬ (host.loads body ≡ value request))
      → IsReply a body (
          encoded host (
            host.dumps_fault
              (negsuc 32_699)
              (codes "Parse error: " ++ host.exception_text (host.loads body))))
  unparsed-IsReply ok a body bad =
      let (text, e) =
        ok.marshals (negsuc 32_699) (codes "Parse error: " ++ host.exception_text (host.loads body))
          (ground arith, ground arith) in
      rw e (unparsed text bad e)

  marshaled-IsReply :
      (ok : HasCodes) (a : App Object) (body : Bytes) (r : Outcome (Call Value))
      → host.loads body ≡ r
      → IsReply a body (marshaled host k a r).1
  unfolding async_dispatch
  marshaled-IsReply ok a body (value request) e = replied request _ e (
      marshal-Reply ok _ (
        run_target-IsCode ok a (method_name host request.method) request.params
          (target host a (method_name host request.method))))
  marshaled-IsReply ok a body (fault c m) e =
      subst
        (λ r. IsReply a body (
          encoded host
            (host.dumps_fault (negsuc 32_699) (codes "Parse error: " ++ host.exception_text r))))
        e (unparsed-IsReply ok a body (λ request h. ground arith))
  marshaled-IsReply ok a body (exception n m) e =
      subst
        (λ r. IsReply a body (
          encoded host
            (host.dumps_fault (negsuc 32_699) (codes "Parse error: " ++ host.exception_text r))))
        e (unparsed-IsReply ok a body (λ request h. ground arith))

  -- Where the faults that the request's call or the marshalling of its result raises have codes that
  -- `<int>` can hold, and faults with such codes can be marshalled: a body that can be parsed is
  -- replied to with the marshalled result of its call, with the fault that the call or the
  -- marshalling raised, or with the fault 1 that names another exception of either; a body that
  -- cannot be parsed is replied to with the fault -32700.
  pub async_marshaled_dispatch-IsReply :
      (a : App Object) (body : Bytes)
      → HasCodes
      → IsReply a body (async_marshaled_dispatch host k a body).1
  unfolding async_marshaled_dispatch
  async_marshaled_dispatch-IsReply a body ok = marshaled-IsReply ok a body (host.loads body) refl

  pub unmarshalled_fault :
      (a : App Object) (body : Bytes) (request : Call Value) (c : ℤ) (m n text : Text)
      → host.loads body ≡ value request
      → (async_dispatch host k a (method_name host request.method) request.params).outcome
        ≡ fault c m
      → host.dumps_fault c m ≡ exception n text
      → (async_marshaled_dispatch host k a body).1 ≡ exception n text
  unfolding async_marshaled_dispatch
  unmarshalled_fault a body request c m n text parsed raised unmarshalled =
      rw (parsed, raised, unmarshalled) refl
