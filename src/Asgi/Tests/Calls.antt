-- ===== src/Asgi/Tests/Calls.antt =====
-- Calls of the calculator, and their replies.
use xmlrpc_extended.Prelude.{ℕ, ◌≡◌, refl, Bool-cases, inl, inr, List, [], ◌∷◌, some, arith}
use xmlrpc_extended.Prelude.Int.{ℤ, pos, ltb_ℤ}
use xmlrpc_extended.Python.Number.{str, digits_onto}
use xmlrpc_extended.Python.Text.{Text, codes}
use xmlrpc_extended.Asgi.Host.{value, fault}
use xmlrpc_extended.Asgi.App.{make_executor, get_executor, executor_or_made}
use xmlrpc_extended.Asgi.Dispatch.{
  in_pool, find, walk, resolve_dotted_attribute, function, target, async_dispatch,
  async_marshaled_dispatch,
}
use xmlrpc_extended.Asgi.Dispatch.Laws.{Callable, target-Callable}
use xmlrpc_extended.Asgi.Dispatch.Runs.{dispatch_all}
use xmlrpc_extended.Asgi.Dispatch.Replies.{
  IsCode, HasCodes, IsReply, async_marshaled_dispatch-IsReply,
}
use xmlrpc_extended.Asgi.Tests.{
  Thing, calculator, add, secret, host, app, started, run_add, dumps_text,
}

plus_found : target host app (codes "plus") ≡ function add
unfolding target find
plus_found = refl

add_found : target host app (codes "add") ≡ function add
unfolding target find resolve_dotted_attribute walk
add_found = refl

target-Callable_example : Callable host app (codes "add") add
target-Callable_example = target-Callable host app (codes "add") add add_found

plus_place : (async_dispatch host 0 app (codes "plus") (2 ∷ 3 ∷ [])).place ≡ some (in_pool 0)
unfolding async_dispatch target find get_executor executor_or_made
plus_place = refl

add_place :
    (async_dispatch host 0
      (dispatch_all host
        ((1, codes "unknown", []) ∷ [])
        (async_dispatch host 0 app (codes "plus") (2 ∷ 3 ∷ [])).app)
      (codes "add")
      (4 ∷ 5 ∷ [])).place
    ≡ some (in_pool 0)
unfolding dispatch_all async_dispatch target find get_executor executor_or_made make_executor
    resolve_dotted_attribute walk
add_place = refl

run_add-no_fault :
    (f : Thing) (params : List ℕ) (c : ℤ) (m : Text) → ¬ (run_add f params ≡ fault c m)
run_add-no_fault add (x ∷ y ∷ []) c m h = ground arith
run_add-no_fault add [] c m h = ground arith
run_add-no_fault add (x ∷ []) c m h = ground arith
run_add-no_fault add (x ∷ y ∷ z ∷ params) c m h = ground arith
run_add-no_fault calculator params c m h = ground arith
run_add-no_fault secret params c m h = ground arith

dumped_small : (c : ℤ) (m : Text) → IsCode c → (text : Text) × (dumps_text c m ≡ value text)
dumped_small c m small = elim (Bool-cases (ltb_ℤ (pos 2_147_483_647) c)) [
  | inl big ↦ absurd (ground arith)
  | inr fits ↦ (m, rw fits refl)
]

host-HasCodes : HasCodes host 0
host-HasCodes = record {
  called = λ f params c m h. absurd (run_add-no_fault f params c m h);
  hooked = λ f method params c m h. absurd (ground arith);
  dumped = λ v c m h. absurd (ground arith);
  marshals = λ c m small. dumped_small c m small;
}

async_marshaled_dispatch-IsReply_example :
    IsReply host 0 app (codes "add") (async_marshaled_dispatch host 0 app (codes "add")).1
async_marshaled_dispatch-IsReply_example =
    async_marshaled_dispatch-IsReply host 0 app (codes "add") host-HasCodes

add_reply : async_marshaled_dispatch host 0 app (codes "add") ≡ (started, value (codes "5"))
unfolding async_marshaled_dispatch async_dispatch target find get_executor executor_or_made
    make_executor resolve_dotted_attribute walk digits_onto str
add_reply = refl
