-- ===== src/Asgi/Tests.antt =====
-- The application at a concrete object, with a function that adds two numbers.
mod Calls
mod Requests
mod Sessions
mod Loops
use xmlrpc_extended.Prelude.{
  ℕ, ◌+◌, ◌≡◌, refl, false, List, [], ◌∷◌, Option, none, some, if◌then◌else◌,
}
use xmlrpc_extended.Prelude.Int.{ℤ, pos, ltb_ℤ}
use xmlrpc_extended.Python.Number.{str}
use xmlrpc_extended.Python.Text.{Text, Bytes, codes, text_eq}
use xmlrpc_extended.Asgi.Host.{Outcome, value, exception, Call, Host}
use xmlrpc_extended.Asgi.App.{App, init, made}
use xmlrpc_extended.Asgi.App.Laws.{IsTidy}

-- An object `calculator` with the methods `add` and `_secret`.
data Thing : Type 0 where
  calculator add secret : Thing

abbrev attribute_of : Thing → Text → Option Thing
attribute_of calculator name =
    if text_eq name (codes "add")
    then some add
    else if text_eq name (codes "_secret")
    then some secret
    else none
attribute_of _ name = none

abbrev run_add : Thing → List ℕ → Outcome ℕ
run_add add (x ∷ y ∷ []) = value (x + y)
run_add _ params = exception (codes "TypeError") (codes "arguments")

-- The body is the method's name, and the parameters are 2 and 3.
abbrev loads_name : Bytes → Outcome (Call ℕ)
loads_name [] = exception (codes "ExpatError") (codes "no element found")
loads_name (c ∷ name) = value (record { params = 2 ∷ 3 ∷ []; method = some (c ∷ name) })

abbrev dumps_text : ℤ → Text → Outcome Text
dumps_text c m =
    if ltb_ℤ (pos 2_147_483_647) c
    then exception (codes "OverflowError") (codes "int exceeds XML-RPC limits")
    else value m

abbrev host_of : (Thing → List ℕ → Outcome ℕ) → Host
host_of run = record {
  Value = ℕ;
  Object = Thing;
  getattr = attribute_of;
  is_none = λ f. false;
  is_coroutine = λ f. false;
  call = λ k f params. run f params;
  call_dispatch = λ k f method params. value 0;
  loads = loads_name;
  exception_text = λ r. codes "no element found";
  dumps_response = λ v. value (str v);
  dumps_fault = dumps_text;
  encode = λ text. text;
}

abbrev host : Host
host = host_of run_add

-- The application with the calculator as its instance.
abbrev app : App Thing
app = record {
  max_request_size = pos 8;
  rpc_path = codes "/RPC2";
  max_workers = pos 4;
  executor = none;
  funcs = (codes "plus", add) ∷ [];
  instance_object = some calculator;
  allow_dotted_names = false;
  pools = record { made = 0; live = [] };
}

app-IsTidy : IsTidy app
app-IsTidy = record { live = refl }

made_app :
    init (pos 4) (pos 8) (codes "/RPC2") (record { made = 0; live = [] })
    ≡ made (record app { funcs = []; instance_object = none })
unfolding init
made_app = refl

abbrev started : App Thing
started = record app { executor = some 0; pools = record { made = 1; live = 0 ∷ [] } }
