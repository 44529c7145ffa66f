-- ===== src/Daemon/Ordered/Requests/Dispatch.antt =====
-- `handle_request` of message_handler/mod.rs keeps the order of the tasks.
use pueue.Base.{ℕ, zero, suc, Option, List, Bool, ok, err, stuck}
use pueue.Message.{Request, Response, ShutdownRequest}
use pueue.Network.Socket.{Socket, Received, empty_payload, message_deserialization}
use pueue.Network.Protocol.{receive_message}
use pueue.Daemon.Os
use pueue.Daemon.Os.{Os, Settings, Outcome, finished, panicked, Outcome-cases}
use pueue.Daemon.Internal.{InternalState}
use pueue.Daemon.Process.Kill.Shutdown.{initiate_shutdown-Spares}
use pueue.Daemon.Connection.{
  Watch, respond, handle_request, send_response, shutting_down, Served, serve, serve_received,
  answered, shutdown_after, after_request, and_handled,
}
use pueue.Daemon.Ordered.{InOrder, Answers, Spares-InOrder}
use pueue.Daemon.Ordered.Requests.{
  add-Answers, remove-Answers, clean-Answers, edit-Answers, edit_request-InOrder,
  edit_restore-InOrder,
}
use pueue.Daemon.Ordered.Requests.Others.{
  enqueue-InOrder, stash-InOrder, switch-Answers, group-InOrder, set_parallel_tasks-InOrder,
  reset-InOrder, kill_request-InOrder, pause_request-Answers, start_request-Answers,
  restart_multiple-Answers, env-InOrder, send-InOrder,
}

pub respond-Answers :
    (os : Os) (settings : Settings) (w : Watch) (s : InternalState) (request : Request)
    → InOrder s
    → Answers (respond os settings w s request)
unfolding respond
respond-Answers os settings w s (Request.add message) o = add-Answers os settings s message o
respond-Answers os settings w s (Request.clean message) o = clean-Answers os s message o
respond-Answers os settings w s (Request.edited_tasks es) o = edit-Answers os s es o
respond-Answers os settings w s (Request.edit_request ids) o = edit_request-InOrder s ids o
respond-Answers os settings w s (Request.edit_restore ids) o = edit_restore-InOrder s ids o
respond-Answers os settings w s (Request.env message) o = env-InOrder os s message o
respond-Answers os settings w s (Request.enqueue message) o = enqueue-InOrder os s message o
respond-Answers os settings w s (Request.group message) o = group-InOrder os s message o
respond-Answers os settings w s (Request.kill message) o = kill_request-InOrder os s message o
respond-Answers os settings w s (Request.log message) o = o
respond-Answers os settings w s (Request.parallel message) o =
    set_parallel_tasks-InOrder s message o
respond-Answers os settings w s (Request.pause message) o = pause_request-Answers os s message o
respond-Answers os settings w s (Request.remove ids) o = remove-Answers os s ids o
respond-Answers os settings w s (Request.reset message) o = reset-InOrder os s message o
respond-Answers os settings w s (Request.restart message) o =
    restart_multiple-Answers os settings s message o
respond-Answers os settings w s (Request.send message) o = send-InOrder os s message o
respond-Answers os settings w s (Request.start message) o =
    start_request-Answers os settings s message o
respond-Answers os settings w s (Request.stash message) o = stash-InOrder s message o
respond-Answers os settings w s (Request.switch message) o = switch-Answers os s message o
respond-Answers os settings w s Request.status o = o
respond-Answers os settings w s (Request.stream message) o = tt
respond-Answers os settings w s (Request.daemon_shutdown shutdown) o = tt

-- The order of what a handled request leaves.
abbrev pub Handles {ℓ} : {A : Type ℓ} → Outcome (InternalState × A) → Type 0
Handles panicked = Unit {0}
Handles (finished (s, a)) = InOrder s

-- The order of what the service of a connection leaves.
abbrev pub Serves : Outcome Served → Type 0
Serves panicked = Unit {0}
Serves (finished (s, requests, end)) = InOrder s

module _ (k : Socket) (into_writer : Response → Option (List ℕ)) where
  open k use {Stream}

  answered-Handles :
      (c : Stream) (m : Outcome (InternalState × Response))
      → Answers m
      → Handles (answered k into_writer c m)
  answered-Handles c panicked h = tt
  answered-Handles c (finished (s, response)) h = h

  shutdown_after-InOrder :
      (os : Os) (s : InternalState) (shutdown : ShutdownRequest) (sent : Received Stream)
      → InOrder s
      → InOrder (shutdown_after k into_writer os s shutdown sent).0
  shutdown_after-InOrder os s shutdown (ok c) o =
      Spares-InOrder (initiate_shutdown-Spares os s shutdown) o
  shutdown_after-InOrder os s shutdown (err e) o = o
  shutdown_after-InOrder os s shutdown stuck o = o

  pub handle_request-Handles :
      (os : Os) (settings : Settings) (w : Watch) (s : InternalState) (request : Request)
      (c : Stream)
      → InOrder s
      → Handles (handle_request k into_writer os settings w s request c)
  unfolding handle_request
  handle_request-Handles os settings w s (Request.stream payload) c o = o
  handle_request-Handles os settings w s (Request.daemon_shutdown shutdown) c o =
      shutdown_after-InOrder os s shutdown (send_response k into_writer shutting_down c) o
  handle_request-Handles os settings w s request c o =
      answered-Handles c (respond os settings w s request)
        (respond-Answers os settings w s request o)

  -- The service of a connection.
  module _ (from_reader : List ℕ → Option Request) (is_value : List ℕ → Bool) (os : Os)
      (settings : Settings) (meanwhile : ℕ → InternalState → InternalState) (w : ℕ → Watch)
      (keeps : (n : ℕ) (s : InternalState) → InOrder s → InOrder (meanwhile n s)) where
    and_handled-Serves :
        (request : Request) (m : Outcome Served)
        → Serves m
        → Serves (Os.◌>>=◌ m (λ served. finished (and_handled request served)))
    and_handled-Serves request panicked h = tt
    and_handled-Serves request (finished (s, requests, end)) h = h

    after_request-Serves :
        (request : Request) (next : InternalState → Stream → Outcome Served)
        (m : Outcome (InternalState × Received Stream))
        → ((s : InternalState) (c : Stream) → InOrder s → Serves (next s c))
        → Handles m
        → Serves (
            Os.◌>>=◌ m (
              after_request k into_writer from_reader is_value os settings meanwhile w request
                next))
    after_request-Serves request next panicked h o = tt
    after_request-Serves request next (finished (s, ok c)) h o =
        and_handled-Serves request (next s c) (h s c o)
    after_request-Serves request next (finished (s, err e)) h o = o
    after_request-Serves request next (finished (s, stuck)) h o = o

    serve_received-Serves :
        (n : ℕ) (next : InternalState → Stream → Outcome Served) (s : InternalState) (c : Stream)
        (received : Received (Request × Stream))
        → ((s : InternalState) (c : Stream) → InOrder s → Serves (next s c))
        → InOrder s
        → Serves (
            serve_received k into_writer from_reader is_value os settings meanwhile w n next s c
              received)
    serve_received-Serves n next s c (ok (request, c')) h o =
        after_request-Serves request next _ h
          (handle_request-Handles os settings (w n) (meanwhile n s) request c' (keeps n s o))
    serve_received-Serves n next s c (err empty_payload) h o = o
    serve_received-Serves n next s c (err message_deserialization) h o = o
    serve_received-Serves n next s c (err e) h o = o
    serve_received-Serves n next s c stuck h o = o

    pub serve-Serves :
        (rounds n : ℕ) (s : InternalState) (c : Stream)
        → InOrder s
        → Serves (serve k into_writer from_reader is_value os settings meanwhile w rounds n s c)
    unfolding serve
    serve-Serves zero n s c o = o
    serve-Serves (suc rounds) n s c o =
        serve_received-Serves n _ s c (receive_message k from_reader is_value c)
          (serve-Serves rounds (suc n)) o
