-- ===== src/Python/Class/Laws.antt =====
-- The order of a class with two bases, of which the first adds one class to what the second has.
use xmlrpc_extended.Prelude.{
  ℕ, zero, suc, ◌+◌, ◌≤◌, ◌≡◌, refl, ap, ◌==◌, ◌||◌, true, false, List, [], ◌∷◌, ◌++◌, some, length,
  length-append, arith,
}
use xmlrpc_extended.Python.Text.{Text}
use xmlrpc_extended.Python.Class.{
  Class, occurs, tail, in_tails, candidate, advance, all_empty, prepend, merge, lengths, new_type,
}

module _ {ℓ} {V : Type ℓ} where
  -- No class is in the order twice.
  unfoldable pub IsDistinct : List (Class V) → Type 0
  IsDistinct [] = Unit {0}
  IsDistinct (c ∷ order) = (occurs c.id order ≡ false) × IsDistinct order

  occurs-append :
      (id : ℕ) (xs ys : List (Class V)) → occurs id (xs ++ ys) ≡ (occurs id xs || occurs id ys)
  unfolding occurs
  occurs-append id [] ys = refl
  occurs-append id (x ∷ xs) ys = ground (arith, occurs-append id xs ys)

  advance-absent :
      (id : ℕ) (order : List (Class V)) → occurs id order ≡ false → advance id order ≡ order
  unfolding occurs
  advance-absent id [] h = refl
  advance-absent id (c ∷ order) h = ground arith

  advance-head : (c : Class V) (order : List (Class V)) → advance c.id (c ∷ order) ≡ order
  advance-head c order = ground arith

  occurs-middle :
      (own : List (Class V)) (c : Class V) (order : List (Class V))
      → occurs c.id (own ++ c ∷ order) ≡ true
  unfolding occurs
  occurs-middle own c order = ground (arith, occurs-append c.id own (c ∷ order))

  -- What is nowhere in an order is not in its end.
  occurs-suffix :
      (id : ℕ) (own : List (Class V)) (c : Class V) (order : List (Class V))
      → occurs id (own ++ c ∷ order) ≡ false
      → ((c.id == id) ≡ false) × (occurs id order ≡ false)
  unfolding occurs
  occurs-suffix id own c order h =
      let split = occurs-append id own (c ∷ order) in (ground arith, ground arith)

  -- Two equal orders, when all else is placed.
  merge-same :
      (fuel : ℕ) (order : List (Class V))
      → IsDistinct order
      → length order ≤ fuel
      → merge fuel (order ∷ order ∷ [] ∷ []) ≡ some order
  unfolding merge candidate in_tails occurs all_empty IsDistinct
  merge-same zero [] d h = refl
  merge-same (suc fuel) [] d h = refl
  merge-same zero (c ∷ order) d h = absurd (omega arith)
  merge-same (suc fuel) (c ∷ order) d h =
      rw (d.0, advance-head c order) (ap (prepend c) (merge-same fuel order d.1 (omega arith)))

  candidate-alone :
      (order : List (Class V)) (x : Class V) (last : List (Class V))
      → tail last ≡ []
      → occurs x.id order ≡ false
      → candidate ([] ∷ (x ∷ order) ∷ last ∷ []) ([] ∷ (x ∷ order) ∷ last ∷ []) ≡ some x
  unfolding candidate in_tails occurs
  candidate-alone order x last t h = rw (h, t) refl

  -- A class that comes later in the other order has to wait.
  candidate-own :
      (own order : List (Class V)) (x c : Class V) (last : List (Class V))
      → tail last ≡ []
      → occurs x.id (own ++ c ∷ order) ≡ false
      → candidate
          ((c ∷ order) ∷ (x ∷ own ++ c ∷ order) ∷ last ∷ [])
          ((c ∷ order) ∷ (x ∷ own ++ c ∷ order) ∷ last ∷ [])
        ≡ some x
  unfolding candidate in_tails occurs
  candidate-own own order x c last t h =
      let (ne, later) = occurs-suffix x.id own c order h in rw (h, later, t) (rw (waits) refl)
    where
      waits : (occurs c.id order || (occurs c.id (own ++ c ∷ order) || false)) ≡ true
      waits = ground (arith, occurs-middle own c order)

  -- The order of one base is the end of the other's.
  merge-suffix :
      (fuel : ℕ) (own order : List (Class V))
      → IsDistinct (own ++ order)
      → length own + length order ≤ fuel
      → merge fuel (order ∷ (own ++ order) ∷ [] ∷ []) ≡ some (own ++ order)
  unfolding merge all_empty IsDistinct
  merge-suffix fuel [] order d h = merge-same fuel order d (omega arith)
  merge-suffix zero (x ∷ own) order d h = absurd (omega arith)
  merge-suffix (suc fuel) (x ∷ own) [] d h =
      rw (candidate-alone (own ++ []) x [] refl d.0, advance-head x (own ++ []))
        (ap (prepend x) (merge-suffix fuel own [] d.1 (omega arith)))
  merge-suffix (suc fuel) (x ∷ own) (c ∷ order) d h =
      let (ne, later) = occurs-suffix x.id own c order d.0 in
      rw (candidate-own own order x c [] refl d.0, candidate, ne, advance-head x (own ++ c ∷ order))
        (ap (prepend x) (merge-suffix fuel own (c ∷ order) d.1 (omega arith)))

  -- The same, with the head of the second base in the list of the bases.
  merge-headed :
      (fuel : ℕ) (own order : List (Class V)) (x : Class V)
      → IsDistinct (x ∷ own ++ order)
      → suc (length own + length order) ≤ fuel
      → merge fuel (order ∷ (x ∷ own ++ order) ∷ (x ∷ []) ∷ []) ≡ some (x ∷ own ++ order)
  unfolding merge all_empty IsDistinct
  merge-headed zero own order x d h = absurd (omega arith)
  merge-headed (suc fuel) own [] x d h =
      rw
        (
          candidate-alone (own ++ []) x (x ∷ []) refl d.0,
          candidate,
          advance-head x (own ++ []),
          advance-head x [],
        )
        (ap (prepend x) (merge-suffix fuel own [] d.1 (omega arith)))
  merge-headed (suc fuel) own (c ∷ order) x d h =
      let (ne, later) = occurs-suffix x.id own c order d.0 in
      rw
        (
          candidate-own own order x c (x ∷ []) refl d.0,
          candidate,
          ne,
          advance-head x (own ++ c ∷ order),
          advance-head x [],
        )
        (ap (prepend x) (merge-suffix fuel own (c ∷ order) d.1 (omega arith)))

  merge-headed_same :
      (fuel : ℕ) (order : List (Class V)) (c : Class V)
      → IsDistinct (c ∷ order)
      → suc (length order) ≤ fuel
      → merge fuel ((c ∷ order) ∷ (c ∷ order) ∷ (c ∷ []) ∷ []) ≡ some (c ∷ order)
  unfolding merge candidate in_tails occurs all_empty IsDistinct
  merge-headed_same zero order c d h = absurd (omega arith)
  merge-headed_same (suc fuel) order c d h =
      rw (d.0, advance-head c order, advance-head c [])
        (ap (prepend c) (merge-same fuel order d.1 (omega arith)))

  candidate-first :
      (l x : Class V) (order rest : List (Class V))
      → occurs l.id order ≡ false
      → occurs l.id (x ∷ rest) ≡ false
      → candidate
          ((l ∷ order) ∷ (x ∷ rest) ∷ (l ∷ x ∷ []) ∷ [])
          ((l ∷ order) ∷ (x ∷ rest) ∷ (l ∷ x ∷ []) ∷ [])
        ≡ some l
  unfolding candidate in_tails occurs
  candidate-first l x order rest h k = ground arith

  merge-first :
      (fuel : ℕ) (l x : Class V) (order rest : List (Class V))
      → occurs l.id order ≡ false
      → occurs l.id (x ∷ rest) ≡ false
      → merge (suc fuel) ((l ∷ order) ∷ (x ∷ rest) ∷ (l ∷ x ∷ []) ∷ [])
        ≡ prepend l (merge fuel (order ∷ (x ∷ rest) ∷ (x ∷ []) ∷ []))
  unfolding merge all_empty
  merge-first fuel l x order rest h k =
      rw
        (
          candidate-first l x order rest h k,
          candidate,
          advance-head l order,
          advance-head l (x ∷ []),
          advance-absent l.id (x ∷ rest) k,
        )
        refl

  occurs-end :
      (id : ℕ) (xs ys : List (Class V)) → occurs id (xs ++ ys) ≡ false → occurs id ys ≡ false
  occurs-end id xs ys h = let split = occurs-append id xs ys in ground arith

  -- A class is derived from `l` and another class, and both from the classes of `order`, which end
  -- the other class's order. The new class comes first, then `l`, then the other class's order as
  -- it is: no class changes places, and `type` does not refuse.
  pub new_type-mixin :
      (id : ℕ) (name : Text) (namespace : List (Text × V)) (l x : Class V)
      (own order rest : List (Class V))
      → own ++ order ≡ x ∷ rest
      → IsDistinct (own ++ order)
      → occurs l.id (own ++ order) ≡ false
      → new_type id name ((l ∷ order) ∷ (own ++ order) ∷ []) namespace
        ≡ some (record { id = id; name = name; namespace = namespace } ∷ l ∷ own ++ order)
  unfolding new_type lengths
  new_type-mixin id name namespace l x [] [] rest e d h = cc
  new_type-mixin id name namespace l x [] (c ∷ order) rest e d h =
      let fuel = length (c ∷ order) + length (c ∷ order) in
      let enough : suc (length (c ∷ order)) + (length (c ∷ order) + 0) ≡ suc fuel = omega arith in
      rw (enough, merge-first fuel l c (c ∷ order) order h h)
        (ap (prepend _) (ap (prepend l) (merge-headed_same fuel order c d (omega arith))))
  new_type-mixin id name namespace l x (y ∷ own) order rest e d h =
      let fuel = length order + suc (length (own ++ order)) in
      let enough : suc (length order) + (suc (length (own ++ order)) + 0) ≡ suc fuel =
        omega arith in
      rw (enough, merge-first fuel l y order (own ++ order) (occurs-end l.id (y ∷ own) order h) h)
        (ap (prepend _) (
          ap (prepend l)
            (merge-headed fuel own order y d (omega (arith, length-append own order)))))

  merge-alone :
      (fuel : ℕ) (order : List (Class V))
      → IsDistinct order
      → length order ≤ fuel
      → merge fuel (order ∷ [] ∷ []) ≡ some order
  unfolding merge candidate in_tails occurs all_empty IsDistinct
  merge-alone zero [] d h = refl
  merge-alone (suc fuel) [] d h = refl
  merge-alone zero (c ∷ order) d h = absurd (omega arith)
  merge-alone (suc fuel) (c ∷ order) d h =
      rw (d.0, advance-head c order) (ap (prepend c) (merge-alone fuel order d.1 (omega arith)))

  -- A class with a single base comes before that base's order.
  pub new_type-single :
      (id : ℕ) (name : Text) (namespace : List (Text × V)) (x : Class V) (rest : List (Class V))
      → IsDistinct (x ∷ rest)
      → new_type id name ((x ∷ rest) ∷ []) namespace
        ≡ some (record { id = id; name = name; namespace = namespace } ∷ x ∷ rest)
  unfolding new_type lengths merge candidate in_tails occurs all_empty IsDistinct
  new_type-single id name namespace x rest d =
      let enough : suc (length rest) + 0 ≡ suc (length rest) = omega arith in
      rw (enough, d.0, advance-head x rest, advance-head x [])
        (ap (prepend _) (ap (prepend x) (merge-alone (length rest) rest d.1 (omega arith))))
