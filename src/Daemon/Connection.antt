-- ===== src/Daemon/Connection.antt =====
-- Connections of clients: `handle_request` of message_handler/mod.rs and `handle_incoming` of
-- pueue/src/daemon/network/socket/mod.rs.
pub mod Secret
use pueue.Base.{
  ℕ, zero, suc, ◌+◌, ◌*◌, ◌^◌, String, Bool, true, false, not, ◌&&◌, Option, none, some, List, [],
  ◌∷◌, ◌++◌, is_empty, ◌==◌, nat_ord, ok, err, stuck, or_err, if◌then◌else◌,
}
use pueue.Base.Results.{◌>>=◌}
use pueue.Base.Utf8.{is_utf8}
use pueue.State.{Tasks}
use pueue.Message.{Request, Response, StreamRequest, ShutdownRequest, lit}
use pueue.Network.Socket.{
  Socket, Error, Received, empty_payload, message_deserialization, unexpected_payload, generic,
}
use pueue.Network.Protocol.{send_bytes, send_message, receive_bytes_with_max_size, receive_message}
use pueue.Daemon.Os.{Os, Settings, Outcome, finished, panicked}
use pueue.Daemon.Os
use pueue.Daemon.Internal.{InternalState}
use pueue.Daemon.Process.Kill.{initiate_shutdown}
use pueue.Daemon.Handlers.Add.{add}
use pueue.Daemon.Handlers.Remove.{remove, clean}
use pueue.Daemon.Handlers.Edit.{edit, edit_request, edit_restore}
use pueue.Daemon.Handlers.Queue.{enqueue, stash}
use pueue.Daemon.Handlers.Groups.{group, set_parallel_tasks, reset}
use pueue.Daemon.Handlers.Control.{
  kill_request, pause_request, start_request, restart_multiple, env,
}
use pueue.Daemon.Handlers.Switch.{switch}
use pueue.Daemon.Handlers.Output.{Look, send, get_log, follow_log}

-- `get_status`.
unfoldable pub get_status : InternalState → Response
get_status s = Response.status s.inner

-- What a followed log sees, and where the reader from the back leaves the cursor of a log file.
pub record Watch : Type 0 where
  pub starts : List Tasks
  pub opened : Bool
  pub looks : List Look
  pub left_at : ℕ

-- The handler of each request that is answered by one message.
unfoldable pub respond :
    Os → Settings → Watch → InternalState → Request → Outcome (InternalState × Response)
respond os settings w s (Request.add message) = add os settings s message
respond os settings w s (Request.clean message) = clean os s message
respond os settings w s (Request.edited_tasks editable_tasks) = edit os s editable_tasks
respond os settings w s (Request.edit_request task_ids) = finished (edit_request s task_ids)
respond os settings w s (Request.edit_restore task_ids) = finished (edit_restore s task_ids)
respond os settings w s (Request.env message) = finished (env os s message)
respond os settings w s (Request.enqueue message) = finished (enqueue os s message)
respond os settings w s (Request.group message) = finished (group os s message)
respond os settings w s (Request.kill message) = finished (kill_request os s message)
respond os settings w s (Request.log message) = finished (s, get_log os w.left_at s message)
respond os settings w s (Request.parallel message) = finished (set_parallel_tasks s message)
respond os settings w s (Request.pause message) = pause_request os s message
respond os settings w s (Request.remove task_ids) = remove os s task_ids
respond os settings w s (Request.reset message) = finished (reset os s message)
respond os settings w s (Request.restart message) = restart_multiple os settings s message
respond os settings w s (Request.send message) = finished (send os s message)
respond os settings w s (Request.start message) = start_request os settings s message
respond os settings w s (Request.stash message) = finished (stash s message)
respond os settings w s (Request.switch message) = switch os s message
respond os settings w s Request.status = finished (s, get_status s)
-- `handle_request` treats these two itself.
respond os settings w s (Request.stream message) = panicked
respond os settings w s (Request.daemon_shutdown shutdown) = panicked

-- How the service of a connection ends, or that it goes on.
pub data Ended : Type 0 where
  closed : Ended
  failed : Error → Ended
  goes_on : Ended

abbrev pub end_of {ℓ} : {A : Type ℓ} → Received A → Ended
end_of (ok a) = closed
end_of (err e) = failed e
end_of stuck = goes_on

-- The state, the requests that were handled, and the end.
abbrev pub Served : Type 0
Served = InternalState × List Request × Ended

abbrev pub and_handled : Request → Served → Served
and_handled request (s, requests, end) = (s, request ∷ requests, end)

abbrev pub failure_of_reading : Response
failure_of_reading = Response.failure (lit "Failed to deserialize message" ∷ [])

-- `payload_bytes != secret`.
unfoldable pub same_bytes : List ℕ → List ℕ → Bool
same_bytes [] [] = true
same_bytes [] (y ∷ ys) = false
same_bytes (x ∷ xs) [] = false
same_bytes (x ∷ xs) (y ∷ ys) = x == y && same_bytes xs ys

-- The error for a wrong secret; that of one that is no text names the place as well.
unfoldable pub refusal : List ℕ → Error
unfolding is_utf8
refusal payload_bytes =
    if is_utf8 payload_bytes
    then generic "Received invalid secret"
    else generic "invalid utf-8 sequence"

abbrev pub max_secret_size : ℕ
max_secret_size = 4 * 2 ^ 20

abbrev pub shutting_down : Response
shutting_down = Response.success (lit "Daemon is shutting down" ∷ [])

-- `into_writer` serialises a response.
module _ (k : Socket) (into_writer : Response → Option (List ℕ)) where
  open k use {Stream}

  unfoldable pub send_response : Response → Stream → Received Stream
  send_response = send_message k into_writer

  unfoldable pub send_all : List Response → Stream → Received Stream
  unfolding send_response
  send_all [] c = ok c
  send_all (response ∷ responses) c = do c' ← send_response response c; send_all responses c'

  -- The messages of a stream and its answer. A stream with no answer goes on.
  unfoldable pub send_stream : List Response × Option Response → Stream → Received Stream
  unfolding send_all
  send_stream (messages, none) c = send_all messages c >>= λ _. stuck
  send_stream (messages, some response) c = send_all messages c >>= send_response response

  -- The shutdown begins once the answer is sent.
  abbrev pub shutdown_after :
      Os → InternalState → ShutdownRequest → Received Stream → InternalState × Received Stream
  shutdown_after os s shutdown_type (ok c) = (initiate_shutdown os s shutdown_type, ok c)
  shutdown_after os s shutdown_type (err e) = (s, err e)
  shutdown_after os s shutdown_type stuck = (s, stuck)

  abbrev pub answered :
      Stream → Outcome (InternalState × Response) → Outcome (InternalState × Received Stream)
  answered c panicked = panicked
  answered c (finished (s, response)) = finished (s, send_response response c)

  unfoldable pub handle_request :
      Os
      → Settings
      → Watch
      → InternalState
      → Request
      → Stream
      → Outcome (InternalState × Received Stream)
  unfolding respond send_response send_stream follow_log initiate_shutdown
  handle_request os settings w s (Request.stream payload) c =
      finished (s, send_stream (follow_log s.tasks payload w.starts w.opened w.looks) c)
  handle_request os settings w s (Request.daemon_shutdown shutdown_type) c =
      finished (shutdown_after os s shutdown_type (send_response shutting_down c))
  handle_request os settings w s request c = answered c (respond os settings w s request)

  -- `from_reader` reads a request, and `is_value` tells unexpected messages from broken ones. Between
  -- two requests of a connection others may change the state: `meanwhile` says how, and `w` what a
  -- followed log sees.
  module _ (from_reader : List ℕ → Option Request) (is_value : List ℕ → Bool) (os : Os)
      (settings : Settings) (meanwhile : ℕ → InternalState → InternalState) (w : ℕ → Watch) where
    abbrev pub after_request :
        Request
        → (InternalState → Stream → Outcome Served)
        → InternalState × Received Stream
        → Outcome Served
    after_request request next (s, ok c) =
        Os.◌>>=◌ (next s c) (λ served. finished (and_handled request served))
    after_request request next (s, err e) = finished (s, request ∷ [], failed e)
    after_request request next (s, stuck) = finished (s, request ∷ [], goes_on)

    -- A round of the loop: what was received, and the loop that follows. That a message cannot be
    -- read is answered on the stream as it was before.
    abbrev pub serve_received :
        ℕ
        → (InternalState → Stream → Outcome Served)
        → InternalState
        → Stream
        → Received (Request × Stream)
        → Outcome Served
    serve_received n next s c (ok (request, c')) =
        Os.◌>>=◌ (handle_request os settings (w n) (meanwhile n s) request c')
          (after_request request next)
    serve_received n next s c (err empty_payload) = finished (s, [], closed)
    serve_received n next s c (err message_deserialization) =
        finished (s, [], end_of (send_response failure_of_reading c))
    serve_received n next s c (err e) = finished (s, [], failed e)
    serve_received n next s c stuck = finished (s, [], goes_on)

    -- The first rounds of the loop; the round `n` is the next.
    unfoldable pub serve : (rounds n : ℕ) → InternalState → Stream → Outcome Served
    unfolding handle_request
    serve zero n s c = finished (s, [], goes_on)
    serve (suc rounds) n s c =
        serve_received n (serve rounds (suc n)) s c (receive_message k from_reader is_value c)

    -- The loop once the secret is right, and the version of the daemon is sent.
    abbrev pub greet : (rounds : ℕ) → InternalState → Received Stream → Outcome Served
    greet rounds s (ok c) = serve rounds 0 s c
    greet rounds s (err e) = finished (s, [], failed e)
    greet rounds s stuck = finished (s, [], goes_on)

    abbrev pub admit :
        (secret version : List ℕ) (rounds : ℕ)
        → InternalState
        → Received (List ℕ × Stream)
        → Outcome Served
    admit secret version rounds s (ok (payload_bytes, c)) =
        if is_empty payload_bytes
        then finished (s, [], closed)
        else if not (same_bytes payload_bytes secret)
        then finished (s, [], failed (refusal payload_bytes))
        else greet rounds s (send_bytes k version c)
    admit secret version rounds s (err e) = finished (s, [], failed e)
    admit secret version rounds s stuck = finished (s, [], goes_on)

    unfoldable pub handle_incoming :
        (secret version : List ℕ) (rounds : ℕ) → InternalState → Stream → Outcome Served
    unfolding serve same_bytes
    handle_incoming secret version rounds s c =
        admit secret version rounds s (receive_bytes_with_max_size k (some max_secret_size) c)
