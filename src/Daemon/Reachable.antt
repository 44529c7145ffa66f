-- ===== src/Daemon/Reachable.antt =====
-- The states that the daemon reaches: each step is a handled request (message_handler/mod.rs) or a
-- round of the task handler (task_handler.rs), in any order.
use pueue.Base.{ℕ, ◌≡◌, subst, Option, some, List}
use pueue.Message.{Request, Response}
use pueue.Network.Socket.{Socket, Received}
use pueue.Daemon.Os.{Os, Settings, finished}
use pueue.Daemon.Internal.{InternalState}
use pueue.Daemon.Connection.{Watch, handle_request}
use pueue.Daemon.TaskHandler.{round, continues}
use pueue.Daemon.Ordered.{InOrder}
use pueue.Daemon.Ordered.Loop.{round-RoundLeaves, RoundLeaves}
use pueue.Daemon.Ordered.Requests.Dispatch.{Handles, handle_request-Handles}

module _ (k : Socket) (into_writer : Response → Option (List ℕ)) (os : Os)
    (settings : Settings) where
  open k use {Stream}

  pub data Step : InternalState → InternalState → Type 0 where
    handled :
        (w : Watch) (request : Request) (c : Stream) (sent : Received Stream) {s s' : InternalState}
        → handle_request k into_writer os settings w s request c ≡ finished (s', sent)
        → Step s s'
    turned :
        (fuel : ℕ) {s s' : InternalState}
        → round os settings fuel s ≡ some (finished (continues s'))
        → Step s s'

  pub data Reach (s : InternalState) : InternalState → Type 0 where
    here : Reach s s
    next : {t u : InternalState} → Reach s t → Step t u → Reach s u

  Step-InOrder : {s t : InternalState} → Step s t → InOrder s → InOrder t
  Step-InOrder {s} {t} (handled w request c sent e) o =
      let h = handle_request-Handles k into_writer os settings w s request c o in subst Handles e h
  Step-InOrder {s} {t} (turned fuel e) o =
      subst RoundLeaves e (round-RoundLeaves os settings fuel s o)

  -- From a state whose tasks are in the order of their keys, each key the id of its task, every
  -- sequence of handled requests and rounds of the task handler leads to a state of which this
  -- holds too.
  pub Reach-InOrder : {s t : InternalState} → InOrder s → Reach s t → InOrder t
  Reach-InOrder o here = o
  Reach-InOrder o (next r step) = Step-InOrder step (Reach-InOrder o r)
