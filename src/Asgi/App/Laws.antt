-- ===== src/Asgi/App/Laws.antt =====
-- The thread pools that the application makes and shuts down.
use xmlrpc_extended.Prelude.{
  ℕ, ◌<◌, ◌≤◌, ◌≡◌, ◌≢◌, ◌||◌, length, refl, Bool, true, false, List, [], ◌∷◌, Option, none, some,
  ◌∙◌, sym, ap, arith, ◌==◌,
}
use xmlrpc_extended.Asgi.App.{shut, remove, App, make_executor, get_executor, close}

abbrev pub owned : Option ℕ → List ℕ
owned none = []
owned (some p) = p ∷ []

-- Every live pool is the application's executor, and pools are numbered as they are made.
pub record IsTidy {Object : Type 0} (a : App Object) : Type 0 where
  pub live : a.pools.live ≡ owned a.executor

-- What a server and a caller do with the executor.
pub data Op : Type 0 where
  startup shutdown request explicit_close : Op

unfoldable pub contains : ℕ → List ℕ → Bool
contains p [] = false
contains p (q ∷ qs) = p == q || contains p qs

contains-remove :
    (p q : ℕ) (qs : List ℕ) → p ≢ q → contains p qs ≡ true → contains p (remove q qs) ≡ true
unfolding contains remove
contains-remove p q [] h c = c
contains-remove p q (r ∷ qs) h c = ground (arith, contains-remove p q qs h)

module _ {Object : Type 0} where
  -- A startup makes an executor, whatever there was; a sync call takes the one that is there or
  -- makes one; a shutdown and `close()` shut down the one that is there.
  unfoldable pub perform : Op → App Object → App Object
  unfolding make_executor get_executor close
  perform startup a = make_executor a
  perform shutdown a = close a
  perform request a = (get_executor a).1
  perform explicit_close a = close a

  pub get_executor-IsTidy : (a : App Object) → IsTidy a → IsTidy (get_executor a).1
  unfolding get_executor
  get_executor-IsTidy a t = ground arith

  pub close-IsTidy : (a : App Object) → IsTidy a → IsTidy (close a)
  unfolding close
  close-IsTidy a t = ground arith

  pub close_frees :
      (a : App Object) → IsTidy a → ((close a).pools.live ≡ []) × ((close a).executor ≡ none)
  unfolding close
  close_frees a t = (ground arith, ground arith)

  pub startup-IsTidy : (a : App Object) → IsTidy a → a.executor ≡ none → IsTidy (make_executor a)
  unfolding make_executor
  startup-IsTidy a t e = ground arith

  unfoldable pub perform_all : List Op → App Object → App Object
  perform_all [] a = a
  perform_all (o ∷ os) a = perform_all os (perform o a)

  -- Each startup finds no executor, as the ASGI specification has it: it is the first event.
  abbrev pub StartsFresh : List Op → App Object → Type 0
  StartsFresh [] a = Unit {0}
  StartsFresh (startup ∷ os) a = (a.executor ≡ none) × StartsFresh os (perform startup a)
  StartsFresh (o ∷ os) a = StartsFresh os (perform o a)

  perform_all-IsTidy :
      (os : List Op) (a : App Object) → IsTidy a → StartsFresh os a → IsTidy (perform_all os a)
  unfolding perform_all perform
  perform_all-IsTidy [] a t h = t
  perform_all-IsTidy (startup ∷ os) a t h = perform_all-IsTidy os _ (startup-IsTidy a t h.0) h.1
  perform_all-IsTidy (shutdown ∷ os) a t h = perform_all-IsTidy os _ (close-IsTidy a t) h
  perform_all-IsTidy (request ∷ os) a t h = perform_all-IsTidy os _ (get_executor-IsTidy a t) h
  perform_all-IsTidy (explicit_close ∷ os) a t h = perform_all-IsTidy os _ (close-IsTidy a t) h

  -- On an application whose live pools are its own executor at most: however calls, startups,
  -- shutdowns and calls of `close()` follow one another, as long as each startup finds no executor,
  -- at most one pool is live, and a last `close()` leaves none.
  pub close_frees_all :
      (os : List Op) (a : App Object)
      → IsTidy a
      → StartsFresh os a
      → (length (perform_all os a).pools.live ≤ 1) × ((close (perform_all os a)).pools.live ≡ [])
  unfolding close
  close_frees_all os a t h = let tidy = perform_all-IsTidy os a t h in (ground arith, ground arith)

  -- The pool `p` is live, and is no longer the application's.
  record IsLost (p : ℕ) (a : App Object) : Type 0 where
    live : contains p a.pools.live ≡ true
    old : p < a.pools.made
    other : a.executor ≢ some p

  make_executor-IsLost : (p : ℕ) (a : App Object) → IsLost p a → IsLost p (make_executor a)
  unfolding make_executor contains
  make_executor-IsLost p a l = record {
    live = ground arith;
    old = ground arith;
    other = λ e. ground arith;
  }

  get_executor-IsLost : (p : ℕ) (a : App Object) → IsLost p a → IsLost p (get_executor a).1
  unfolding get_executor contains
  get_executor-IsLost p a l = record {
    live = ground arith;
    old = ground arith;
    other = λ e. ground (arith, l.other);
  }

  shut-IsLost :
      (p : ℕ) (a : App Object) → IsLost p a → (e : Option ℕ) → a.executor ≡ e → IsLost p (shut e a)
  unfolding shut
  shut-IsLost p a l none e = l
  shut-IsLost p a l (some q) e = record {
    live = contains-remove p q a.pools.live (λ r. l.other (e ∙ ap some (sym r))) l.live;
    old = l.old;
    other = λ r. ground arith;
  }

  close-IsLost : (p : ℕ) (a : App Object) → IsLost p a → IsLost p (close a)
  unfolding close
  close-IsLost p a l = shut-IsLost p a l a.executor refl

  perform_all-IsLost :
      (p : ℕ) (os : List Op) (a : App Object) → IsLost p a → IsLost p (perform_all os a)
  unfolding perform_all perform
  perform_all-IsLost p [] a l = l
  perform_all-IsLost p (startup ∷ os) a l = perform_all-IsLost p os _ (make_executor-IsLost p a l)
  perform_all-IsLost p (request ∷ os) a l = perform_all-IsLost p os _ (get_executor-IsLost p a l)
  perform_all-IsLost p (shutdown ∷ os) a l = perform_all-IsLost p os _ (close-IsLost p a l)
  perform_all-IsLost p (explicit_close ∷ os) a l = perform_all-IsLost p os _ (close-IsLost p a l)

  -- A startup that finds an executor with a live pool drops it without a shutdown: whatever is done
  -- afterwards, startups, calls, shutdowns and `close()`, that pool stays live.
  pub startup_leaks :
      (p : ℕ) (a : App Object) (os : List Op)
      → a.executor ≡ some p
      → contains p a.pools.live ≡ true
      → p < a.pools.made
      → contains p (perform_all (startup ∷ os) a).pools.live ≡ true
  unfolding perform_all perform make_executor contains
  startup_leaks p a os e live old =
      (perform_all-IsLost p os (make_executor a)
        (record { live = ground arith; old = ground arith; other = λ r. ground arith })).live
