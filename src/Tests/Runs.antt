-- ===== src/Tests/Runs.antt =====
-- Runs of the daemon: requests and rounds, a connection, and a followed log.
use pueue.Base.{
  ℕ, ◌≡◌, ◌↔◌, refl, Option, some, String, List, [], ◌∷◌, is_empty, ok, Bool, true, false, arith,
  get, nat_ord,
}
use pueue.Task.{queued}
use pueue.Message.{Request, Response}
use pueue.State.{Tasks}
use pueue.Network.Socket.{Received}
use pueue.Network.Protocol.{receive_bytes_with_max_size}
use pueue.Daemon.Os.{Outcome, finished}
use pueue.Daemon.Internal.{InternalState}
use pueue.Daemon.Connection.{Watch, handle_request, handle_incoming, Ended, max_secret_size}
use pueue.Daemon.Connection.Secret.{handle_incoming-secret}
use pueue.Daemon.Handlers.Output.{Look, follow_rounds}
use pueue.Daemon.Handlers.Output.Follow.{Follows, Carries, follow_rounds-Carries}
use pueue.Daemon.Ordered.{InOrder, IsOrdered}
use pueue.Daemon.Ordered.Loop.Settled.{Settles, round-Settles}
use pueue.Daemon.TaskHandler.{round, Round}
use pueue.Daemon.Reachable.{handled, here, next, Reach-InOrder}
use pueue.Tests.Samples.{os, settings, daemon, tasks, task, result_or}
use pueue.Tests.Sockets.{Pipe, pipe}

daemon-InOrder : InOrder daemon
unfolding IsOrdered
daemon-InOrder = omega arith

round-Settles_example :
    (fuel : ℕ) × (r : Outcome Round) × (round os settings fuel daemon ≡ some r) × Settles r
round-Settles_example = round-Settles os settings daemon daemon-InOrder

abbrev watch : Watch
watch = record { starts = []; opened = true; looks = []; left_at = 0 }

-- Every response is written as one byte, and every payload is read as a status request.
abbrev write_response : Response → Option (List ℕ)
write_response response = some (1 ∷ [])

abbrev read_request : List ℕ → Option Request
read_request bytes = some Request.status

abbrev never_value : List ℕ → Bool
never_value bytes = false

abbrev fresh : Pipe
fresh = record { incoming = []; outgoing = [] }

abbrev answered_pipe : Received Pipe
answered_pipe = ok (record { incoming = []; outgoing = 0 ∷ 0 ∷ 0 ∷ 0 ∷ 0 ∷ 0 ∷ 0 ∷ 1 ∷ 1 ∷ [] })

-- Task 2 is removed.
abbrev removed : InternalState
removed =
    (result_or (daemon, answered_pipe)
      (handle_request pipe write_response os settings watch daemon (Request.remove (2 ∷ []))
        fresh)).0

removal :
    handle_request pipe write_response os settings watch daemon (Request.remove (2 ∷ [])) fresh
    ≡ finished (removed, answered_pipe)
unfolding handle_request pueue.Daemon.Handlers.Remove.remove pueue.State.filter_tasks get
    pueue.Daemon.Internal.is_task_removable pueue.Daemon.Responses.save_then
    pueue.Network.Protocol.send_message
removal = refl

Reach-InOrder_example : InOrder removed
Reach-InOrder_example =
    Reach-InOrder pipe write_response os settings daemon-InOrder
      (next here (handled watch (Request.remove (2 ∷ [])) fresh answered_pipe removal))

abbrev shared_secret : List ℕ
shared_secret = 5 ∷ 6 ∷ []

-- A client sends the secret, and a request for the status.
abbrev client : Pipe
client = record {
  incoming = 0 ∷ 0 ∷ 0 ∷ 0 ∷ 0 ∷ 0 ∷ 0 ∷ 2 ∷ 5 ∷ 6 ∷ 0 ∷ 0 ∷ 0 ∷ 0 ∷ 0 ∷ 0 ∷ 0 ∷ 1 ∷ 8 ∷ [];
  outgoing = [];
}

served :
    handle_incoming pipe write_response read_request never_value os settings
      (λ _ s. s)
      (λ _. watch)
      shared_secret
      (4 ∷ [])
      1
      daemon
      client
    ≡ finished (daemon, Request.status ∷ [], Ended.goes_on)
unfolding handle_incoming receive_bytes_with_max_size pueue.Network.Protocol.send_bytes
    pueue.Network.Protocol.receive_message pueue.Network.Protocol.send_message
served = refl

handle_incoming-secret_example :
    (c' : Pipe) × (receive_bytes_with_max_size pipe (some max_secret_size) client
      ≡ ok (shared_secret, c'))
    × (is_empty shared_secret ≡ false)
handle_incoming-secret_example =
    handle_incoming-secret pipe write_response read_request never_value os settings (λ _ s. s)
      (λ _. watch) shared_secret (4 ∷ []) 1 daemon daemon client Request.status [] Ended.goes_on
      served

-- Task 3 runs while "one" is read, and is queued again while "two" is read.
abbrev first_look : Look
first_look = record { exists = true; text = some "one"; tasks = tasks }

abbrev last_look : Look
last_look = record { exists = true; text = some "two"; tasks = (3, task 3 (queued 0) [] []) ∷ [] }

follow_rounds-Carries_example :
    (follow_rounds 3 (first_look ∷ last_look ∷ []) ≡ (
      Response.stream ((3, "one") ∷ []) ∷ Response.stream ((3, "two") ∷ []) ∷ [],
      some Response.close,
    ))
    ↔ ((texts : List String) × Follows 3 (first_look ∷ last_look ∷ []) texts
        × Carries 3
            (Response.stream ((3, "one") ∷ []) ∷ Response.stream ((3, "two") ∷ []) ∷ [])
            texts)
follow_rounds-Carries_example =
    follow_rounds-Carries 3 (first_look ∷ last_look ∷ [])
      (Response.stream ((3, "one") ∷ []) ∷ Response.stream ((3, "two") ∷ []) ∷ [])

-- Both sides of it hold.
stream_closes : follow_rounds 3 (first_look ∷ last_look ∷ []) ≡ (
  Response.stream ((3, "one") ∷ []) ∷ Response.stream ((3, "two") ∷ []) ∷ [],
  some Response.close,
)
unfolding follow_rounds get
stream_closes = refl
