-- ===== src/Server/HandlerClass/Laws.antt =====
-- What the server's own handler class has of its own, and what of the class that it is made from.
use xmlrpc_extended.Prelude.{
  ℕ, ◌≡◌, ◌==◌, ◌⊎◌, inl, inr, refl, true, false, List, ◌∷◌, ◌++◌, Option, none, some, ◌∙◌,
}
use xmlrpc_extended.Prelude.Int.{ℤ}
use xmlrpc_extended.Python.Class.{Class, find, or_else, attribute, behind, occurs}
use xmlrpc_extended.Python.Class.Laws.{IsDistinct, new_type-mixin, new_type-single}
use xmlrpc_extended.Python.Headers.{Headers}
use xmlrpc_extended.Python.Text.{Text, codes, text_eq}
use xmlrpc_extended.Server.Handler.{Reply, do_post}
use xmlrpc_extended.Server.Handler.Laws.{Answers, do_post-Answers}
use xmlrpc_extended.Server.HandlerClass.{
  Attribute, size, limited_do_post, HandlerClass, max_request_size, rpc_paths, do_post_name,
  limited, overrides, name_of, build_request_handler, serve_post,
}

abbrev new_class : ℕ → HandlerClass → ℤ → Option (List Text) → Class Attribute
new_class id handler limit given = record {
  id = id;
  name = name_of handler ++ codes "WithSizeLimit";
  namespace = overrides limit given;
}

-- The attributes that the new class has of its own.
abbrev pub HasOverrides : ℤ → Option (List Text) → (handler built : HandlerClass) → Type 0
HasOverrides limit given handler built =
    (attribute max_request_size built ≡ some (size limit))
    × (attribute rpc_paths built
        ≡ or_else (find rpc_paths (overrides limit given)) (attribute rpc_paths handler))

-- What a class that is not derived from `LimitedXMLRPCRequestHandler` is made to.
pub record IsGuarded (limit : ℤ) (given : Option (List Text)) (handler built : HandlerClass)
    : Type 0 where
  pub overridden : HasOverrides limit given handler built
  pub guard : attribute do_post_name built ≡ some limited_do_post
  pub super_do_post :
      attribute do_post_name (behind limited.id built) ≡ attribute do_post_name handler
  pub others :
      (name : Text)
      → find name (overrides limit given) ≡ none
      → find name limited.namespace ≡ none
      → attribute name built ≡ attribute name handler

new_class-IsGuarded :
    (id : ℕ) (limit : ℤ) (given : Option (List Text)) (handler : HandlerClass)
    → (id == limited.id) ≡ false
    → IsGuarded limit given handler (new_class id handler limit given ∷ limited ∷ handler)
unfolding attribute find limited behind text_eq
new_class-IsGuarded id limit none handler fresh = record {
  overridden = (refl, refl);
  guard = refl;
  super_do_post = rw fresh refl;
  others = λ name h k. rw (h, k) refl;
}
new_class-IsGuarded id limit (some p) handler fresh = record {
  overridden = (refl, refl);
  guard = refl;
  super_do_post = rw fresh refl;
  others = λ name h k. rw (h, k) refl;
}

module _ (id : ℕ) (limit : ℤ) (given : Option (List Text)) (x : Class Attribute)
    (own simple rest : HandlerClass) where
  -- From a handler class that is derived from the library's, and not from
  -- `LimitedXMLRPCRequestHandler`, a class can be made. It has the configured limit, and the given
  -- paths or else the handler's; its `do_POST` is the one with the checks, and goes on to the
  -- handler's; and every other attribute that the module does not define is the handler's.
  pub build_request_handler-IsGuarded :
      own ++ simple ≡ x ∷ rest
      → IsDistinct (own ++ simple)
      → occurs limited.id (own ++ simple) ≡ false
      → (id == limited.id) ≡ false
      → (built : HandlerClass) × (build_request_handler simple id (own ++ simple) limit given
          ≡ some built)
        × IsGuarded limit given (own ++ simple) built
  unfolding build_request_handler
  build_request_handler-IsGuarded nonempty distinct other fresh = (
    new_class id (own ++ simple) limit given ∷ limited ∷ own ++ simple,
    rw other (
        new_type-mixin id _ (overrides limit given) limited x own simple rest nonempty distinct
          other),
    new_class-IsGuarded id limit given (own ++ simple) fresh,
  )

-- A class with overrides before its only base.
abbrev pub IsDerived : ℤ → Option (List Text) → (handler built : HandlerClass) → Type 0
IsDerived limit given handler built =
    HasOverrides limit given handler built
    × ((name : Text)
        → find name (overrides limit given) ≡ none
        → attribute name built ≡ attribute name handler)

new_class-IsDerived :
    (id : ℕ) (limit : ℤ) (given : Option (List Text)) (handler : HandlerClass)
    → IsDerived limit given handler (new_class id handler limit given ∷ handler)
unfolding attribute find text_eq
new_class-IsDerived id limit none handler = ((refl, refl), λ name h. rw h refl)
new_class-IsDerived id limit (some p) handler = ((refl, refl), λ name h. rw h refl)

-- From a class that is derived from `LimitedXMLRPCRequestHandler` a class can be made too: it has
-- the configured limit, and the given paths or else the handler's, and all else is the handler's.
pub build_request_handler-IsDerived :
    (id : ℕ) (limit : ℤ) (given : Option (List Text)) (x : Class Attribute)
    (simple rest : HandlerClass)
    → IsDistinct (x ∷ rest)
    → occurs limited.id (x ∷ rest) ≡ true
    → (built : HandlerClass) × (build_request_handler simple id (x ∷ rest) limit given ≡ some built)
      × IsDerived limit given (x ∷ rest) built
unfolding build_request_handler
build_request_handler-IsDerived id limit given x simple rest distinct sub = (
  new_class id (x ∷ rest) limit given ∷ x ∷ rest,
  rw sub (new_type-single id _ (overrides limit given) x rest distinct),
  new_class-IsDerived id limit given (x ∷ rest),
)

find-do_post :
    (limit : ℤ) (given : Option (List Text)) → find do_post_name (overrides limit given) ≡ none
unfolding find text_eq
find-do_post limit none = refl
find-do_post limit (some p) = refl

-- The request is answered as `do_POST` of `LimitedXMLRPCRequestHandler` says, with the limit that is
-- given.
abbrev pub Enforces : ℤ → HandlerClass → Type 0
Enforces limit built =
    (digits : ℕ) (headers : Headers)
    → (reply : Reply) × (serve_post digits built headers ≡ some reply)
      × Answers digits limit headers reply

Enforces-of :
    (limit : ℤ) (built : HandlerClass)
    → attribute max_request_size built ≡ some (size limit)
    → attribute do_post_name built ≡ some limited_do_post
    → Enforces limit built
unfolding serve_post
Enforces-of limit built sized guarded digits headers =
    (do_post digits limit headers, rw (sized, guarded) refl, do_post-Answers digits limit headers)

pub IsGuarded-Enforces :
    (limit : ℤ) (given : Option (List Text)) (handler built : HandlerClass)
    → IsGuarded limit given handler built
    → Enforces limit built
IsGuarded-Enforces limit given handler built g = Enforces-of limit built g.overridden.0 g.guard

-- Whatever handler class the server is given, a request to the class that is made from it gets the
-- documented answers for the configured limit; but a class derived from
-- `LimitedXMLRPCRequestHandler` must not have a `do_POST` of its own.
pub built-Enforces :
    (id : ℕ) (limit : ℤ) (given : Option (List Text)) (x : Class Attribute)
    (own simple rest : HandlerClass)
    → own ++ simple ≡ x ∷ rest
    → IsDistinct (own ++ simple)
    → (id == limited.id) ≡ false
    → (occurs limited.id (own ++ simple) ≡ false)
      ⊎ ((occurs limited.id (own ++ simple) ≡ true)
          × (attribute do_post_name (own ++ simple) ≡ some limited_do_post))
    → (built : HandlerClass) × (build_request_handler simple id (own ++ simple) limit given
        ≡ some built)
      × Enforces limit built
built-Enforces id limit given x own simple rest nonempty distinct fresh (inl other) =
    let (built, made, guarded) =
      build_request_handler-IsGuarded id limit given x own simple rest nonempty distinct other
        fresh in
    (built, made, IsGuarded-Enforces limit given (own ++ simple) built guarded)
built-Enforces id limit given x own simple rest nonempty distinct fresh (inr (sub, inherits)) =
    let (built, made, (overridden, others)) =
      build_request_handler-IsDerived id limit given x simple rest (rw nonempty at distinct)
        (rw nonempty at sub) in
    (
      built,
      rw nonempty made,
      Enforces-of limit built overridden.0
          (others do_post_name (find-do_post limit given) ∙ rw nonempty at inherits),
    )
