-- ===== src/Asgi/Loop/Responses.antt =====
-- The responses of requests that run at once.
use xmlrpc_extended.Prelude.{
  ℕ, ◌≡◌, sym, subst, ◌⊎◌, inl, inr, Bool, List, [], ◌++◌, append-nil, some, get_elem?,
}
use xmlrpc_extended.Asgi.Host.{value, Host}
use xmlrpc_extended.Asgi.App.{App}
use xmlrpc_extended.Asgi.Body.{Event}
use xmlrpc_extended.Asgi.Http.{Message, Scope}
use xmlrpc_extended.Asgi.Http.Laws.{IsResponse, handle_http-IsResponse}
use xmlrpc_extended.Asgi.Loop.{
  Wake, Await, receiving, calling, sending, finished, raised, cut_off, Task, Loop, run_loop,
  new_loop,
}
use xmlrpc_extended.Asgi.Loop.Follows.{Follows, Sends}
use xmlrpc_extended.Asgi.Loop.Answers.{run_loop-Answers}

-- What is sent is a first part of one whole response.
abbrev pub IsPart : List Message → Type 0
IsPart sent = (rest : List Message) × IsResponse (sent ++ rest)

module _ (host : Host) (a : App host.Object) where
  Sends-IsResponse :
      (k : ℕ) (scope : Scope) (es : List Event) (sent : List Message)
      → Sends host k a scope es (value sent)
      → IsResponse sent
  Sends-IsResponse k scope es sent (d, done, e) =
      handle_http-IsResponse host k a scope es d sent done e

  Follows-IsPart :
      (k : ℕ) (scope : Scope) (es : List Event) (sent : List Message) (at : Await host)
      → Follows host k a scope es sent at
      → (sent ≡ []) ⊎ IsPart sent
  Follows-IsPart k scope es sent (receiving chunks) f = inl f.0
  Follows-IsPart k scope es sent (calling place result) f = inl f.0
  Follows-IsPart k scope es sent (sending ms) f = inr (ms, Sends-IsResponse k scope es _ f)
  Follows-IsPart k scope es sent finished f =
      inr ([], subst IsResponse (sym (append-nil sent)) (Sends-IsResponse k scope es sent f))
  Follows-IsPart k scope es sent raised f = inl f.0
  Follows-IsPart k scope es sent cut_off (inl nothing) = inl nothing
  Follows-IsPart k scope es sent cut_off (inr (ms, f)) = inr (ms, Sends-IsResponse k scope es _ f)

  -- However the requests of an application are interleaved and interrupted: what a request has sent
  -- is nothing, or a first part of one whole response, a head with the length of its body and that
  -- body; and a request that is finished has sent a whole one.
  pub requests_respond :
      (lifespan : Bool) (ws : List Wake) (l : Loop host) (i : ℕ) (t : Task host)
      → run_loop host ws (new_loop host a lifespan) ≡ some l
      → get_elem? l.tasks i ≡ some t
      → ((t.sent ≡ []) ⊎ IsPart t.sent) × (t.await ≡ finished → IsResponse t.sent)
  requests_respond lifespan ws l i t e got =
      let f = run_loop-Answers host a lifespan ws l i t e got in
      (
        Follows-IsPart i t.scope t.events t.sent t.await f,
        λ over.
            Sends-IsResponse i t.scope t.events t.sent
              (subst (Follows host i a t.scope t.events t.sent) over f),
      )
