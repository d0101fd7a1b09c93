-- ===== src/Lib.antt =====
-- xmlrpc_extended: an XML-RPC server with a bounded thread pool, an ASGI application, a client with
-- timeouts, and helpers for several processes, over Python's xmlrpc library.
--
-- The parts, with the code they are about (paths from the repository's root):
--
-- - Server (src/xmlrpc_extended/server.py)
--   Server/Stats    `ServerStats` and `_StatsTracker`: each method is one step under its lock.
--   Server/Config   `ServerOverloadPolicy`, `XMLRPCServerConfig` and the checks of
--                   `ThreadPoolXMLRPCServer.__init__`: `configure`. `ValueError` is a result.
--   Server/HandlerClass  `_build_request_handler`, and what `do_POST` and its limit are for an
--                   instance of the class that it makes, by Python's order of method resolution
--                   (Python/Class). The handler class of the standard library is a parameter.
--   Server/Init     `ThreadPoolXMLRPCServer.__init__` as a whole, given how the `__init__` of the
--                   base class ends; no other thread runs then.
--   Server/Pool     `process_request`, `submit_request`, `_acquire_capacity` and `_reject_request`
--                   (Accept), `_process_request_worker` (Worker), `shutdown_executor` and
--                   `server_close` (Close). One accept thread, the workers and the closing thread
--                   are program counters, and System interleaves their statements: a state is
--                   reached by any order of them and any outcome of the calls that may raise.
--                   State has the semaphore, the executor's queue and a history that the code does
--                   not keep, for the statements about what has happened. Steps says which
--                   statement a step has run. Admission is an abstract server, a bounded queue with
--                   a door, whose moves are labelled (a connection comes, is admitted, rejected,
--                   taken, let go, the door closes). View maps a state of the threads to one of its
--                   states, Moves reads off the moves that a step shows, and Effects, Refine and
--                   Trace relate runs of the two. Capacity is about bounds and counts, Liveness,
--                   Shutdown, Closing and Returns about runs. Calls runs the statements of one
--                   method alone: Process is `process_request`, WorkerCall is
--                   `_process_request_worker`.
--   Server/Handler  `LimitedXMLRPCRequestHandler.do_POST` and `log_error`.
--   Server/Reject   `_send_fault_response` and `_send_503_response`: the bytes, and the calls on the
--                   socket. Both deliver their response by the same statements: `deliver`.
--   Server/Rejection  `_reject_request` with the responses that it sends, which the accept thread of
--                   Server/Pool has as calls with an outcome only.
-- - Asgi (src/xmlrpc_extended/asgi.py, `XMLRPCASGIApp`)
--   Asgi/App        `__init__`, `_get_executor`, `close`, with the thread pools that are live.
--   Asgi/Body       `_read_body`.
--   Asgi/Dispatch   `_async_dispatch` and `_async_marshaled_dispatch`. Names and Laws are about
--                   what a name reaches, Runs about the pools, Replies about what is replied.
--   Asgi/Http       `_handle_http` and `_send_http_response`; Escapes is about requests without a
--                   response.
--   Asgi/Lifespan   `_handle_lifespan` and `__call__`.
--   Asgi/Session    a run by a server, which sends whole requests while the lifespan call waits.
--   Asgi/Loop       many requests at once: each is a task that stands at one of its awaits, and is
--                   woken by an event of its channel, the end of its handler or of a `send`, or an
--                   exception there; `close()` may be called between. Steps says what a wake has
--                   done, Follows holds one task against `_handle_http` run alone, Keeps is about
--                   what it does to the executor, and Answers, Sessions, Pools, Ends, Moves,
--                   Finish, Feed and Served are about runs. A handler that runs in a thread is a
--                   job (Asgi/Jobs), which goes on when its request is interrupted; Drain and
--                   Shutdown are about a shutdown that waits for jobs, Responses about what was
--                   sent.
--   Asgi/Host       the registered objects and `xmlrpc.client.loads` and `dumps`, as a record of
--                   functions that the application is given; how a call ends is given for each
--                   request by its number.
-- - Client (src/xmlrpc_extended/client.py): `XMLRPCClient` and `_TimeoutTransport`, over a record of
--   what is used of `ServerProxy` and `Transport`.
-- - Multiprocess (src/xmlrpc_extended/multiprocess.py): `create_reuseport_socket`, `spawn_workers`.
-- - Python: floats, `int` and `str` of numbers, header lists, classes with their order of method
--   resolution, and text as lists of code points.
-- - Prelude: numbers, lists, integers and bags that the parts share.
--
-- The accept thread of the server gives connections to the workers by the executor's queue, and the
-- semaphore bounds how many are queued or at work. What a call does that is not in the repository
-- (a handler's function, `socketserver`'s `finish_request` and `shutdown_request`) is an outcome: it
-- returns, raises an `Exception`, or raises another `BaseException`.
--
-- Bounds and fuel. A call in Calls has fuel for its statements; seven are enough for either method,
-- unless it waits for capacity. Python's integers are ℤ, or ℕ where a check has made sure of it;
-- none wraps. The loop that drains a rejected connection runs on fuel; it is enough when it is more
-- than the number of `recv` calls that bring bytes, and no fuel is enough for a peer that never
-- stops. The loops of the ASGI application run on the events that its channel will bring, and
-- `none` is a call that waits for more. `int` has the interpreter's limit on digits as an argument.
--
-- Not modelled: the re-exports of `__init__.py`; the measurements in benchmarks/. Of the text
-- functions, `lower` and `upper` change the letters of ASCII only. Of an ASGI server's calls, only
-- one for the lifespan runs at a time. `executor.shutdown(wait=True)` holds the event loop; what
-- threads do meanwhile comes before the shutdown in the order of wakes. Exceptions of `getattr` other
-- than `AttributeError` are not in the model.
-- How a function that a client calls ends is given for each request by its number (`Host.call`,
-- `call_dispatch`), since the function may keep a state; a request calls at most one. What its code
-- does meanwhile to the application, or to the attributes of the registered objects, is not in the
-- model. `handle_error` of `socketserver` is taken to return. A shutdown of the executor that waits,
-- waits for idle workers and for an empty queue; the queue may be left with requests where a thread
-- failed to start.
pub mod Prelude
pub mod Python
pub mod Server
pub mod Asgi
pub mod Multiprocess
pub mod Client
