-- ===== src/Client/Laws.antt =====
-- What is left of a `with` block.
use xmlrpc_extended.Prelude.{
  ◌≡◌, refl, sym, subst, ap, ◌∙◌, inl, inr, Option-cases, false, Option, none, some, arith,
}
use mathlib.Core.Option.{some-injective}
use xmlrpc_extended.Python.Text.{Text}
use xmlrpc_extended.Client.{
  Library, IsLibrary, make_connection, XmlrpcClient, transport_of, entered, enter, exit,
}

module _ (library : Library) where
  open library use {World, ServerProxy}

  -- The client `c` after the block, and the proxy that it entered with.
  pub record IsClosed (c : XmlrpcClient library) (p : ServerProxy)
      (r : XmlrpcClient library × World) : Type 0 where
    pub client : r.0 ≡ record c { proxy = none }
    pub closed : library.is_open p r.1 ≡ false
    pub again : (w : World) → exit library r.0 w ≡ (r.0, w)

  entered-proxy :
      (c c' : XmlrpcClient library) (p : ServerProxy) (w' : World)
      (r : Option (ServerProxy × World))
      → entered library c r ≡ some (p, c', w')
      → record c { proxy = some p } ≡ c'
  unfolding entered
  entered-proxy c c' p w' none h = absurd (ground arith)
  entered-proxy c c' p w' (some (q, v)) h =
      let same = some-injective _ _ h in
      ap (λ x. record c { proxy = some x }) (sym (ap (λ t. t.0) same)) ∙ ap (λ t. t.1) same

  -- The proxy has the transport that `__enter__` makes for it.
  entered-transport :
      (c c' : XmlrpcClient library) (p : ServerProxy) (w w' : World)
      → IsLibrary library
      → enter library c w ≡ some (p, c', w')
      → library.transport_of p ≡ transport_of library c
  unfolding enter entered
  entered-transport c c' p w w' lib e =
      elim (Option-cases (library.server_proxy c.uri (transport_of library c) c.allow_none w)) [
        | inl nothing ↦ absurd (ground arith)
        | inr ((q, v), made) ↦
            let same = some-injective _ _ (rw made at e) in
            ap library.transport_of (sym (ap (λ t. t.0) same))
            ∙ lib.uses c.uri (transport_of library c) c.allow_none w v q made
      ]

  -- Where the library's proxies use the transport that they are made with and close their connection
  -- on exit, and a connection keeps the timeout that it is given: after `with client as proxy`,
  -- whatever the block does to the world, the proxy's connection is closed, the client is as before
  -- but without a proxy, and a further exit does nothing. In the block, every connection that the
  -- proxy's transport makes has the client's timeout.
  pub with_block :
      (c c' : XmlrpcClient library) (p : ServerProxy) (w w' : World) (block : World → World)
      → IsLibrary library
      → enter library c w ≡ some (p, c', w')
      → IsClosed c p (exit library c' (block w'))
        × ((host : Text) (v : World)
            → library.timeout_of (make_connection library (library.transport_of p) host v).0
              ≡ c.timeout)
  unfolding enter exit make_connection
  with_block c c' p w w' block lib e =
      subst
        (λ x.
          IsClosed c p (exit library x (block w'))
          × ((host : Text) (v : World)
              → library.timeout_of (make_connection library (library.transport_of p) host v).0
                ≡ c.timeout))
        (entered-proxy c c' p w' _ e)
        (
          record { client = refl; closed = lib.closes p (block w'); again = λ v. refl },
          λ host v.
              lib.keeps _ (library.transport_of p).timeout
              ∙ ap (λ t. t.timeout) (entered-transport c c' p w w' lib e),
        )
