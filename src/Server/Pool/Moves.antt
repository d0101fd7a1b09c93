-- ===== src/Server/Pool/Moves.antt =====
-- What the steps of the threads are for a client: read off from the places of a thread before and
-- after.
use xmlrpc_extended.Prelude.{List, [], ◌∷◌, Option, none, some, get_elem?}
use xmlrpc_extended.Server.Pool.Accept.{
  AcceptPc, listening, arrived, timed, recorded, refused, rejected,
}
use xmlrpc_extended.Server.Pool.Worker.{WorkerPc, idle, picked, leaving}
use xmlrpc_extended.Server.Pool.Close.{ClosePc, entering, joining}
use xmlrpc_extended.Server.Pool.System.{System, Event, connect, accept, work, call_close, close}
use xmlrpc_extended.Server.Pool.Admission.{
  Move, arrives, abandons, rejects, turns_away, admits, begins, finishes, shuts,
}

-- A connection that takes no timeout leaves `process_request` at its start; one without a slot goes
-- to `_reject_request`; and `submit` queues a connection or refuses it.
abbrev pub accept_move : AcceptPc → AcceptPc → Option Move
accept_move (arrived k) (timed r) = none
accept_move (arrived k) q = some (abandons k)
accept_move (timed k) (rejected r) = some (rejects k)
accept_move (recorded k) listening = some (admits k)
accept_move (recorded k) (refused r) = some (turns_away k)
accept_move p q = none

abbrev pub worker_move : WorkerPc → WorkerPc → Option Move
worker_move idle (picked k) = some (begins k)
worker_move (leaving k) idle = some (finishes k)
worker_move p q = none

abbrev pub close_move : ClosePc → ClosePc → Option Move
close_move (entering wait whole) (joining wait' whole') = some shuts
close_move p q = none

abbrev pub work_move : Option WorkerPc → Option WorkerPc → Option Move
work_move (some p) (some q) = worker_move p q
work_move p q = none

-- The move that the step of an event is, from one state to the next.
abbrev pub event_move : Event → System → System → Option Move
event_move (connect k) s t = some (arrives k)
event_move (accept o) s t = accept_move s.accept t.accept
event_move (work i o) s t = work_move (get_elem? s.workers i) (get_elem? t.workers i)
event_move (call_close wait whole) s t = none
event_move close s t = close_move s.closer t.closer

abbrev pub to_list : Option Move → List Move
to_list none = []
to_list (some m) = m ∷ []
