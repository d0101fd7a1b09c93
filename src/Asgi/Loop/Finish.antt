-- ===== src/Asgi/Loop/Finish.antt =====
-- A request whose body has come is brought to its end by itself and its thread alone.
use xmlrpc_extended.Prelude.{
  ℕ, zero, suc, ◌≤◌, ◌≡◌, refl, ◌∙◌, inl, inr, true, List, [], ◌∷◌, some, arith, get_elem?,
}
use xmlrpc_extended.Asgi.Host.{Host}
use xmlrpc_extended.Asgi.Loop.{Wake, cut_off, Task, Loop, run_loop}
use xmlrpc_extended.Asgi.Loop.Steps.{is_over}
use xmlrpc_extended.Asgi.Loop.Ends.{IsAnswering}
use xmlrpc_extended.Asgi.Loop.Moves.{AreOwn, measure, moves}

module _ (host : Host) where
  open host use {Value, Object}

  -- By steps of its own, the request comes to its end, and is not cut off if it was not before.
  abbrev pub CanFinish : Loop host → ℕ → Task host → Type 0
  CanFinish l i t =
      (ws : List Wake) × (l' : Loop host) × (t' : Task host) × AreOwn i ws
      × (run_loop host ws l ≡ some l')
      × (get_elem? l'.tasks i ≡ some t')
      × (is_over host t'.await ≡ true)
      × (t'.scope ≡ t.scope)
      × (t'.events ≡ t.events)
      × (t'.await ≡ cut_off → t.await ≡ cut_off)

  pub can_finish :
      (n : ℕ) (l : Loop host) (i : ℕ) (t : Task host)
      → measure host l i t.await ≤ n
      → get_elem? l.tasks i ≡ some t
      → IsAnswering host t.await
      → CanFinish l i t
  unfolding run_loop
  can_finish zero l i t few got h = elim (moves host l i t t.await refl got h) [
    | inl over ↦ ([], l, t, tt, refl, got, over, refl, refl, λ e. e)
    | inr move ↦ absurd (omega (arith, few, move.less))
  ]
  can_finish (suc n) l i t few got h = elim (moves host l i t t.await refl got h) [
    | inl over ↦ ([], l, t, tt, refl, got, over, refl, refl, λ e. e)
    | inr move ↦
        let (ws, l', t', own, runs, got', over, scope, events, cut) =
          can_finish n move.next i move.task (omega (arith, few, move.less)) move.got
            move.answering in
        (
          move.waker ∷ ws,
          l',
          t',
          (move.own, own),
          rw (move.done, run_loop) runs,
          got',
          over,
          scope ∙ move.scope,
          events ∙ move.events,
          λ e. absurd (move.uncut (cut e)),
        )
  ]
