-- ===== src/Asgi/Dispatch/Laws.antt =====
-- What a method's name may reach, where it runs, and that a reply is made.
use xmlrpc_extended.Prelude.{
  ℕ, if◌then◌else◌, ◌≡◌, refl, subst, ap, ◌∙◌, ◌⊎◌, inl, inr, Bool, true, false, List, [], ◌∷◌,
  Option, none, some, arith, Bool-cases, Option-cases,
}
use mathlib.Core.Option.{some-injective}
use xmlrpc_extended.Python.Text.{Text, codes}
use xmlrpc_extended.Asgi.Host.{Host}
use xmlrpc_extended.Asgi.App.{App}
use xmlrpc_extended.Asgi.Dispatch.{
  find, split_dots, is_private, walk, resolve_dotted_attribute, Target, function, hook, unsupported,
  target, unless_none, resolved, from_hook, from_instance, from_funcs, unsupported_fault,
  async_dispatch,
}
use xmlrpc_extended.Asgi.Dispatch.Names.{
  join_dots, join_dots-split_dots, IsAbsent, IsFirst, find-IsFirst, find-IsAbsent, IsAbsent-find,
  option_clash, any_private,
}

module _ (host : Host) where
  open host use {Value, Object}

  -- The attribute at the end of a path of names that do not begin with an underscore.
  pub data Leads : Object → List Text → Object → Type 0 where
    stop : (o : Object) → Leads o [] o
    step :
        (o inner f : Object) (name : Text) (names : List Text)
        → is_private name ≡ false
        → host.getattr o name ≡ some inner
        → Leads inner names f
        → Leads o (name ∷ names) f

  walk-Leads : (o f : Object) (names : List Text) → walk host o names ≡ some f → Leads o names f
  unfolding walk
  walk-Leads o f [] h = subst (Leads o []) (some-injective _ _ h) (stop o)
  walk-Leads o f (name ∷ names) h = elim (Bool-cases (is_private name)) [
    | inl private ↦ absurd (ground arith)
    | inr public ↦ elim (Option-cases (host.getattr o name)) [
      | inl e ↦ absurd (option_clash (rw (public, e) at h))
      | inr (inner, e) ↦
          step o inner f name names public e (walk-Leads inner f names (rw (public, e) at h))
    ]
  ]

  -- The registry has no function for the name: no entry, or `None`.
  pub data IsUnregistered (a : App Object) (method : Text) : Type 0 where
    no_entry : IsAbsent method a.funcs → IsUnregistered a method
    none_entry :
        (g : Object) → IsFirst method g a.funcs → host.is_none g ≡ true → IsUnregistered a method

  -- How a method's name reaches a function: it was registered under that name, and the first such
  -- entry counts; or the registry has no function for it, and it is a path of public attributes of
  -- an instance that has no `_dispatch`, of one attribute unless dotted names are allowed.
  pub data Callable (a : App Object) (method : Text) (f : Object) : Type 0 where
    registered : IsFirst method f a.funcs → host.is_none f ≡ false → Callable a method f
    attribute :
        (o : Object) (names : List Text)
        → IsUnregistered a method
        → a.instance_object ≡ some o
        → host.getattr o (codes "_dispatch") ≡ none
        → Leads o names f
        → join_dots names ≡ method
        → ((a.allow_dotted_names ≡ true) ⊎ (names ≡ method ∷ []))
        → host.is_none f ≡ false
        → Callable a method f

  walk-hidden :
      (o : Object) (names : List Text) → any_private names ≡ true → walk host o names ≡ none
  unfolding walk any_private
  walk-hidden o [] h = absurd (ground arith)
  walk-hidden o (name ∷ names) h = elim (Bool-cases (is_private name)) [
    | inl private ↦ rw private refl
    | inr public ↦ elim (Option-cases (host.getattr o name)) [
      | inl e ↦ rw (public, e) refl
      | inr (inner, e) ↦ rw (public, e) (walk-hidden inner names (rw public at h))
    ]
  ]

  names-path :
      (allow : Bool) (method : Text)
      → (join_dots (if allow then split_dots method else method ∷ []) ≡ method)
        × ((allow ≡ true) ⊎ ((if allow then split_dots method else method ∷ []) ≡ method ∷ []))
  unfolding join_dots
  names-path true method = (join_dots-split_dots method, inl refl)
  names-path false method = (refl, inr refl)

  function-injective : (f g : Object) → ◌≡◌ {A = Target host} (function f) (function g) → f ≡ g
  function-injective f g e = cc

  unsupported_clash : (f : Object) → ◌≡◌ {A = Target host} unsupported (function f) → ⊥
  unsupported_clash f e = ground arith

  hook_clash : (g f : Object) → ◌≡◌ {A = Target host} (hook g) (function f) → ⊥
  hook_clash g f e = ground arith

  unless_none-function :
      (g f : Object) → unless_none host g ≡ function f → (g ≡ f) × (host.is_none f ≡ false)
  unless_none-function g f h = elim (Bool-cases (host.is_none g)) [
    | inl e ↦ absurd (unsupported_clash f (rw e at h))
    | inr e ↦
        let same = function-injective g f (rw e at h) in
        (same, subst (λ x. host.is_none x ≡ false) same e)
  ]

  resolved-Callable :
      (a : App Object) (method : Text) (f o : Object) (r : Option Object)
      → IsUnregistered a method
      → a.instance_object ≡ some o
      → host.getattr o (codes "_dispatch") ≡ none
      → resolve_dotted_attribute host o method a.allow_dotted_names ≡ r
      → resolved host r ≡ function f
      → Callable a method f
  unfolding resolve_dotted_attribute
  resolved-Callable a method f o none absent i d e h = absurd (unsupported_clash f h)
  resolved-Callable a method f o (some g) absent i d e h =
      let (same, real) = unless_none-function g f h in
      let (joined, plain) = names-path a.allow_dotted_names method in
      attribute o _ absent i d (walk-Leads o f _ (e ∙ ap some same)) joined plain real

  from_hook-Callable :
      (a : App Object) (method : Text) (f o : Object) (r : Option Object)
      → IsUnregistered a method
      → a.instance_object ≡ some o
      → host.getattr o (codes "_dispatch") ≡ r
      → from_hook host a o method r ≡ function f
      → Callable a method f
  from_hook-Callable a method f o none absent i d h =
      resolved-Callable a method f o _ absent i d refl h
  from_hook-Callable a method f o (some g) absent i d h = absurd (hook_clash g f h)

  from_instance-Callable :
      (a : App Object) (method : Text) (f : Object) (r : Option Object)
      → IsUnregistered a method
      → a.instance_object ≡ r
      → from_instance host a method r ≡ function f
      → Callable a method f
  from_instance-Callable a method f none absent i h = absurd (unsupported_clash f h)
  from_instance-Callable a method f (some o) absent i h =
      from_hook-Callable a method f o _ absent i refl h

  from_funcs-Callable :
      (a : App Object) (method : Text) (f : Object) (r : Option Object)
      → find method a.funcs ≡ r
      → from_funcs host a method r ≡ function f
      → Callable a method f
  from_funcs-Callable a method f none e h =
      from_instance-Callable a method f _ (no_entry (find-IsAbsent method a.funcs e)) refl h
  from_funcs-Callable a method f (some g) e h = elim (Bool-cases (host.is_none g)) [
    | inl no_function ↦
        from_instance-Callable a method f _
          (none_entry g (find-IsFirst method g a.funcs e) no_function) refl (rw no_function at h)
    | inr real ↦
        let same = function-injective g f (rw real at h) in
        registered (find-IsFirst method f a.funcs (e ∙ ap some same))
          (subst (λ x. host.is_none x ≡ false) same real)
  ]

  -- A function that a call runs with the parameters is the first registered one of the method's
  -- name; or, when the registry has none for it and the instance has no `_dispatch`, it is the
  -- attribute of the instance at the end of a path of names none of which begins with an
  -- underscore: the method's name itself, or its dotted parts where dotted names are allowed.
  pub target-Callable :
      (a : App Object) (method : Text) (f : Object)
      → target host a method ≡ function f
      → Callable a method f
  unfolding target
  target-Callable a method f h = from_funcs-Callable a method f _ refl h

  -- A name that is not registered, and of which some part begins with an underscore (the name
  -- itself, unless dotted names are allowed): nothing that an instance without `_dispatch` has is
  -- run, the call is answered by the fault -32601, and the application is left as it was.
  pub hidden_is_refused :
      (k : ℕ) (a : App Object) (method : Text) (params : List Value) (o : Object)
      → IsAbsent method a.funcs
      → a.instance_object ≡ some o
      → host.getattr o (codes "_dispatch") ≡ none
      → any_private (if a.allow_dotted_names then split_dots method else method ∷ []) ≡ true
      → async_dispatch host k a method params
        ≡ record { app = a; place = none; outcome = unsupported_fault host method }
  unfolding async_dispatch target resolve_dotted_attribute
  hidden_is_refused k a method params o absent i d hidden =
      rw (IsAbsent-find method a.funcs absent, i, d, walk-hidden o _ hidden) refl
