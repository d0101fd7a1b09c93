-- ===== src/Server/HandlerClass/Tests.antt =====
-- Handler classes made from concrete ones.
use xmlrpc_extended.Prelude.{ℕ, ◌≡◌, ◌==◌, refl, inl, false, List, [], ◌∷◌, none, some}
use xmlrpc_extended.Prelude.Int.{pos}
use xmlrpc_extended.Python.Class.{
  Class, occurs, merge, candidate, in_tails, all_empty, lengths, new_type,
}
use xmlrpc_extended.Python.Class.Laws.{IsDistinct}
use xmlrpc_extended.Python.Text.{Text, codes}
use xmlrpc_extended.Server.HandlerClass.{
  Attribute, function, paths, HandlerClass, rpc_paths, do_post_name, limited, build_request_handler,
}
use xmlrpc_extended.Server.HandlerClass.Laws.{Enforces, built-Enforces}

abbrev class : ℕ → Text → List (Text × Attribute) → Class Attribute
class id name namespace = record { id = id; name = name; namespace = namespace }

-- The library's handler and its bases.
abbrev simple : HandlerClass
simple =
    class 1 (codes "SimpleXMLRPCRequestHandler")
      ((rpc_paths, paths (codes "/RPC2" ∷ [])) ∷ (do_post_name, function 1) ∷ [])
    ∷ class 2 (codes "BaseHTTPRequestHandler") []
    ∷ class 3 (codes "object") []
    ∷ []

-- A handler of a user, with a `do_POST` of its own.
abbrev mine : Class Attribute
mine = class 10 (codes "Mine") ((do_post_name, function 7) ∷ [])

mine-IsDistinct : IsDistinct (mine ∷ simple)
unfolding IsDistinct occurs
mine-IsDistinct = (refl, (refl, (refl, (refl, tt))))

mine_other : occurs limited.id (mine ∷ simple) ≡ false
unfolding occurs limited
mine_other = refl

twenty_fresh : (20 == limited.id) ≡ false
unfolding limited
twenty_fresh = refl

built-Enforces_example :
    (built : HandlerClass) × (build_request_handler simple 20
        (mine ∷ simple)
        (pos 8)
        (some (codes "/a" ∷ []))
      ≡ some built)
    × Enforces (pos 8) built
built-Enforces_example =
    built-Enforces 20 (pos 8) (some (codes "/a" ∷ [])) mine (mine ∷ []) simple simple refl
      mine-IsDistinct twenty_fresh (inl mine_other)

-- `type` refuses bases that contradict one another.
abbrev first : Class Attribute
first = class 4 (codes "First") []

abbrev second : Class Attribute
second = class 5 (codes "Second") []

contradiction :
    new_type 9 (codes "Both") ((first ∷ second ∷ []) ∷ (second ∷ first ∷ []) ∷ []) [] ≡ none
unfolding new_type merge lengths all_empty candidate in_tails occurs
contradiction = refl
