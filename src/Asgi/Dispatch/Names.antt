-- ===== src/Asgi/Dispatch/Names.antt =====
-- The parts of a method's name, and the entries of the registry.
use xmlrpc_extended.Prelude.{
  ℕ, ◌≡◌, ◌≢◌, refl, sym, subst, ap, ◌∙◌, inl, inr, Bool, true, false, List, [], ◌∷◌, ◌++◌, Option,
  none, some, arith, Bool-cases, ◌==◌, ◌||◌,
}
use mathlib.Core.Option.{some-injective}
use xmlrpc_extended.Python.Text.{Text, text_eq, text_eq_sound, text_eq_refl}
use xmlrpc_extended.Asgi.Dispatch.{find, split_dots, onto_first, is_private}

-- The parts of a dotted name, put together again.
unfoldable pub join_dots : List Text → Text
join_dots [] = []
join_dots (part ∷ []) = part
join_dots (part ∷ next ∷ parts) = part ++ (b'.' ∷ join_dots (next ∷ parts))

join_dots-onto_first :
    (c : ℕ) (parts : List Text) → join_dots (onto_first c parts) ≡ c ∷ join_dots parts
unfolding join_dots onto_first
join_dots-onto_first c [] = refl
join_dots-onto_first c (part ∷ []) = refl
join_dots-onto_first c (part ∷ next ∷ parts) = refl

-- A split of a text has a first part.
data IsCons : List Text → Type 0 where
  is_cons : (part : Text) (parts : List Text) → IsCons (part ∷ parts)

onto_first-IsCons : (c : ℕ) (parts : List Text) → IsCons (onto_first c parts)
unfolding onto_first
onto_first-IsCons c [] = is_cons _ _
onto_first-IsCons c (part ∷ parts) = is_cons _ _

split_dots-IsCons : (s : Text) → IsCons (split_dots s)
unfolding split_dots
split_dots-IsCons [] = is_cons _ _
split_dots-IsCons (c ∷ s) = elim (Bool-cases (c == b'.')) [
  | inl dot ↦ rw dot (is_cons _ _)
  | inr other ↦ rw other (onto_first-IsCons c (split_dots s))
]

join_dots-empty :
    (parts : List Text) → IsCons parts → join_dots ([] ∷ parts) ≡ b'.' ∷ join_dots parts
unfolding join_dots
join_dots-empty _ (is_cons part parts) = refl

pub join_dots-split_dots : (s : Text) → join_dots (split_dots s) ≡ s
unfolding join_dots split_dots
join_dots-split_dots [] = refl
join_dots-split_dots (c ∷ s) = elim (Bool-cases (c == b'.')) [
  | inl dot ↦ rw dot (
      join_dots-empty (split_dots s) (split_dots-IsCons s)
      ∙ ap (◌∷◌ b'.') (join_dots-split_dots s)
      ∙ ap (λ d. d ∷ s) (ground arith))
  | inr other ↦
      rw other (join_dots-onto_first c (split_dots s) ∙ ap (◌∷◌ c) (join_dots-split_dots s))
]

-- No name of the list is the method's.
abbrev pub IsAbsent {ℓ} : {A : Type ℓ} → Text → List (Text × A) → Type 0
IsAbsent method [] = Unit {0}
IsAbsent method ((name, f) ∷ rest) = (name ≢ method) × IsAbsent method rest

-- The first entry of the list with the method's name.
pub data IsFirst {A : Type 0} (method : Text) (f : A) : List (Text × A) → Type 0 where
  here : (rest : List (Text × A)) → IsFirst method f ((method, f) ∷ rest)
  behind :
      (name : Text) (g : A) (rest : List (Text × A))
      → name ≢ method
      → IsFirst method f rest
      → IsFirst method f ((name, g) ∷ rest)

pub option_clash : {A : Type 0} {x : A} → Option.none ≡ some x → ⊥
option_clash e = ground arith

text_eq-ne : (s t : Text) → text_eq s t ≡ false → s ≢ t
text_eq-ne s t h e =
    let same : text_eq s t ≡ true = subst (λ u. text_eq s u ≡ true) e (text_eq_refl s) in
    ground arith

pub find-IsFirst :
    {A : Type 0} (method : Text) (f : A) (entries : List (Text × A))
    → find method entries ≡ some f
    → IsFirst method f entries
unfolding find
find-IsFirst method f [] h = absurd (ground arith)
find-IsFirst method f ((name, g) ∷ rest) h = elim (Bool-cases (text_eq name method)) [
  | inl same ↦
      subst (λ n. IsFirst method f ((n, g) ∷ rest)) (sym (text_eq_sound _ _ same))
        (subst (λ x. IsFirst method f ((method, x) ∷ rest))
          (sym (some-injective _ _ (rw same at h))) (here rest))
  | inr other ↦
      behind name g rest (text_eq-ne _ _ other) (find-IsFirst method f rest (rw other at h))
]

pub find-IsAbsent :
    {A : Type 0} (method : Text) (entries : List (Text × A))
    → find method entries ≡ none
    → IsAbsent method entries
unfolding find
find-IsAbsent method [] h = tt
find-IsAbsent method ((name, g) ∷ rest) h = elim (Bool-cases (text_eq name method)) [
  | inl same ↦ absurd (option_clash (sym (rw same at h)))
  | inr other ↦ (text_eq-ne _ _ other, find-IsAbsent method rest (rw other at h))
]

pub IsAbsent-find :
    {A : Type 0} (method : Text) (entries : List (Text × A))
    → IsAbsent method entries
    → find method entries ≡ none
unfolding find
IsAbsent-find method [] h = refl
IsAbsent-find method ((name, g) ∷ rest) h = elim (Bool-cases (text_eq name method)) [
  | inl same ↦ absurd (h.0 (text_eq_sound _ _ same))
  | inr other ↦ rw other (IsAbsent-find method rest h.1)
]

unfoldable pub any_private : List Text → Bool
any_private [] = false
any_private (name ∷ names) = is_private name || any_private names
