-- ===== src/Asgi/Body.antt =====
-- `_read_body`: the request's body from the events of the receive channel.
pub mod Laws
use xmlrpc_extended.Prelude.{Bool, false, List, [], ◌∷◌, ◌++◌, Option, none, some, if◌then◌else◌}
use xmlrpc_extended.Python.Text.{Text, Bytes}

-- An event: its type, and the keys `body` and `more_body`, which may be missing.
pub record Event : Type 0 where
  pub type : Text
  pub body : Option Bytes
  pub more_body : Option Bool

abbrev pub body_chunk : Event → Bytes
body_chunk e = elim e.body [ none ↦ [] | some b ↦ b ]

abbrev pub has_more : Event → Bool
has_more e = elim e.more_body [ none ↦ false | some b ↦ b ]

-- `b"".join(chunks)`
unfoldable pub join : List Bytes → Bytes
join [] = []
join (b ∷ bs) = b ++ join bs

-- `if body_chunk: chunks.append(body_chunk)`
abbrev pub append_chunk : List Bytes → Bytes → List Bytes
append_chunk chunks [] = chunks
append_chunk chunks (c ∷ chunk) = chunks ++ (c ∷ chunk) ∷ []

-- The loop, on the events that the channel will bring: the body and the events that are left.
-- `none` means that the channel has run dry and the call waits.
unfoldable pub read_from : List Bytes → List Event → Option (Bytes × List Event)
unfolding join
read_from chunks [] = none
read_from chunks (e ∷ es) =
    let chunks' = append_chunk chunks (body_chunk e) in
    let rest = read_from chunks' es in if has_more e then rest else some (join chunks', es)

unfoldable pub read_body : List Event → Option (Bytes × List Event)
unfolding read_from
read_body es = read_from [] es
