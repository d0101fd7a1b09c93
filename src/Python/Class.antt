-- ===== src/Python/Class.antt =====
-- Python's classes: a class by its method resolution order, attribute lookup along it, and the order
-- that `type(name, bases, namespace)` computes.
pub mod Laws
use xmlrpc_extended.Prelude.{
  ℕ, zero, suc, ◌+◌, ◌==◌, ◌||◌, Bool, true, false, List, [], ◌∷◌, ◌++◌, map, Option, none, some,
  if◌then◌else◌, length,
}
use xmlrpc_extended.Python.Text.{Text, text_eq}

-- A class by itself: its identity, its `__name__` and its `__dict__`.
pub record Class {ℓ} (V : Type ℓ) : Type ℓ where
  pub id : ℕ
  pub name : Text
  pub namespace : List (Text × V)

module _ {ℓ} {V : Type ℓ} where
  unfoldable pub find : Text → List (Text × V) → Option V
  unfolding text_eq
  find name [] = none
  find name ((key, v) ∷ rest) = if text_eq key name then some v else find name rest

  abbrev pub or_else : Option V → Option V → Option V
  or_else none later = later
  or_else (some v) later = some v

  -- The first class of the order that has the attribute gives it; `none` is `AttributeError`.
  unfoldable pub attribute : Text → List (Class V) → Option V
  unfolding find
  attribute name [] = none
  attribute name (c ∷ order) = or_else (find name c.namespace) (attribute name order)

  -- `super()` in a method of the class with identity `id`: the lookup starts behind that class.
  unfoldable pub behind : ℕ → List (Class V) → List (Class V)
  behind id [] = []
  behind id (c ∷ order) = if c.id == id then order else behind id order

  -- Whether the class is in the order; at the order of a class it is `issubclass`.
  unfoldable pub occurs : ℕ → List (Class V) → Bool
  occurs id [] = false
  occurs id (c ∷ order) = c.id == id || occurs id order

  abbrev pub tail : List (Class V) → List (Class V)
  tail [] = []
  tail (c ∷ order) = order

  unfoldable pub in_tails : ℕ → List (List (Class V)) → Bool
  unfolding occurs
  in_tails id [] = false
  in_tails id (order ∷ orders) = occurs id (tail order) || in_tails id orders

  -- The first head that is in no tail.
  unfoldable pub candidate : List (List (Class V)) → List (List (Class V)) → Option (Class V)
  unfolding in_tails
  candidate [] all = none
  candidate ([] ∷ orders) all = candidate orders all
  candidate ((c ∷ order) ∷ orders) all =
      let later = candidate orders all in if in_tails c.id all then later else some c

  abbrev pub advance : ℕ → List (Class V) → List (Class V)
  advance id [] = []
  advance id (c ∷ order) = if c.id == id then order else c ∷ order

  unfoldable pub all_empty : List (List (Class V)) → Bool
  all_empty [] = true
  all_empty ([] ∷ orders) = all_empty orders
  all_empty ((c ∷ order) ∷ orders) = false

  abbrev pub prepend : Class V → Option (List (Class V)) → Option (List (Class V))
  prepend c none = none
  prepend c (some order) = some (c ∷ order)

  -- `none` is the `TypeError` of orders that contradict one another, or the end of the fuel.
  unfoldable pub merge : ℕ → List (List (Class V)) → Option (List (Class V))
  unfolding candidate all_empty
  merge zero orders = if all_empty orders then some [] else none
  merge (suc fuel) orders = if all_empty orders then some [] else (elim (candidate orders orders) [
    | none ↦ none
    | some c ↦ prepend c (merge fuel (map (advance c.id) orders))
  ])

  abbrev pub heads : List (List (Class V)) → List (Class V)
  heads [] = []
  heads ([] ∷ orders) = heads orders
  heads ((c ∷ order) ∷ orders) = c ∷ heads orders

  -- As many rounds as there are classes to place.
  unfoldable pub lengths : List (List (Class V)) → ℕ
  lengths [] = 0
  lengths (order ∷ orders) = length order + lengths orders

  -- `type(name, bases, namespace)`, with the bases by their orders, and the new class's identity.
  unfoldable pub new_type :
      ℕ → Text → List (List (Class V)) → List (Text × V) → Option (List (Class V))
  unfolding merge lengths
  new_type id name bases namespace =
      prepend (record { id = id; name = name; namespace = namespace })
        (merge (lengths bases) (bases ++ heads bases ∷ []))
