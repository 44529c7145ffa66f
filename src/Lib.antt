-- ===== src/Lib.antt =====
-- Pueue: the daemon that keeps a queue of shell commands and runs them in groups.
--
-- The client sends requests to the daemon. Each handler (pueue/src/daemon/network/message_handler)
-- takes the lock on the state, changes it, may act on processes, and answers. In between, the loop
-- of pueue/src/daemon/task_handler.rs takes the lock about three times a second: it collects finished
-- processes, enqueues delayed tasks, fails tasks with failed dependencies and spawns what can start.
-- Since every step runs under the lock, an execution is a sequence of handlers and rounds, and a
-- theorem about one of them is about each place where it stands in such a sequence.
--
-- Files, and the code that they model:
--   Base            the shared helpers: tests, lists, ordered maps (`BTreeMap`), `i32` values, results,
--                   comparisons and sorting
--   Task            pueue_lib/src/task.rs
--   State           pueue_lib/src/state.rs; State.Filter is about its filters
--   Message         pueue_lib/src/message/{mod,request,response}.rs
--   Daemon.Os       the operating system, the clock, the settings and the effects on them, and the
--                   signals of pueue/src/process_helper/mod.rs
--   Daemon.Workers  pueue/src/daemon/internal_state/children.rs
--   Daemon.Internal pueue/src/daemon/internal_state/state.rs; Daemon.Internal.Restore is its
--                   `restore_state`
--   Daemon.Links    the upkeep of `Task.dependents` in the handlers add.rs, remove.rs and clean.rs
--   Daemon.Callbacks pueue/src/daemon/callbacks.rs
--   Daemon.Process  pueue/src/daemon/process_handler: Signals, Kill (with the shutdown), Spawn, Start,
--                   Pause and Finish
--   Daemon.TaskHandler pueue/src/daemon/task_handler.rs
--   Daemon.LogFile  pueue_lib/src/log.rs: the search for the last lines
--   Daemon.Responses pueue/src/daemon/network/response_helper.rs and the macros of
--                   message_handler/mod.rs
--   Daemon.Handlers message_handler: Remove (remove, clean), Add, Edit, Queue (enqueue, stash), Groups
--                   (group, parallel, reset), Control (kill, pause, start, restart, env), Switch
--                   and Output (send, log and the followed log)
--   Daemon.Connection `handle_request` of message_handler/mod.rs, and `handle_incoming` of
--                   pueue/src/daemon/network/socket/mod.rs
--   Daemon.Ordered, Daemon.Reachable the order of the tasks under every handler and every round, and
--                   the states that a sequence of these reaches
--   Network         pueue_lib/src/network/protocol.rs and the errors of pueue_lib/src/error.rs
--   Client.TaskIds  pueue/src/client/task_ids_parser.rs; Client.Numbers is `parse::<usize>`
--   Client.Query    pueue/src/client/commands/state/query, and the selection in `print_state` of
--                   state/mod.rs
--   Client.Archive  pueue/src/client/commands/archive.rs, over a daemon that is a function of the
--                   requests
--   Client.Requests, Client.Copies the requests of the other files of pueue/src/client/commands
--   Client.Wait     pueue/src/client/commands/wait.rs, over the states that the daemon answers with
--   Tests           a small daemon, and the theorems at concrete inputs
--
-- State and operations. `InternalState` is the record of the source, with the trace of the effects
-- in place of what the daemon did to its surroundings: signals, kills, spawned processes, saved
-- states and removed logs. A handler is a function from the state and the request to the new state
-- and the response, under the name that it has in the source (`kill`, `pause` and `start` of the
-- handlers are `kill_request`, `pause_request` and `start_request`, since the process handler has
-- functions of these names). A run that can panic (`unwrap`, `expect`, an overflow of the stack) gives an
-- `Outcome`; the client's fallible code gives a `Result`. A log line has no model. A text is a list of pieces, so that numbers need no decimal
-- print.
--
-- Parameters. `Os` answers for what is not the program's code: the clock, the writing of the state
-- file, the opening of log files, the rendering of a task's shell command, the spawning of processes and callbacks, signals, waits (which may fail,
-- and then panic) and the
-- expansion of aliases. Each answer depends on the trace so far, so that it may be another one at
-- each call. A process handle is a number. Two readings of the clock with no effect between them
-- are one reading. `Socket` is a connected stream with the coding of a `u64`, and its laws are what tokio
-- and byteorder document; the serialisation of messages (ciborium) is a pair of functions. What others
-- do to the state between two requests of a connection, and what a followed log sees at each look, are
-- arguments. `Calendar` is chrono with the local time zone; the tree that pest makes of a query is an
-- argument, as is what `sort_by` does with a comparison that is no order.
--
-- Numbers and maps. Ids, slots, times (in seconds) and limits are natural numbers: the program adds
-- only 1 to an id or a slot, and compares the rest. Priorities and exit codes are integers that are
-- only compared. A `BTreeMap`, and the `HashMap` of an environment, is the list of its entries in the
-- order of their keys.
--
-- Fuel. `is_task_removable` recurs along the dependents and has one step more than there are tasks:
-- a chain without a circle is no longer. The search for circular dependencies in edit.rs has two
-- more than there are tasks: it visits a task once, and a task that is missing ends it. The loop of
-- `spawn_new` takes its fuel as an argument: one round more than there are queued tasks is enough.
-- `kill` and `initiate_shutdown` call one another: a shutdown under way makes the inner call do
-- nothing, and that is how the outer one is written. The receipt of a payload has as many rounds as bytes
-- are announced. The loop of the choice of tasks to archive takes one out in each round, and the loop
-- of a range with a step has at most as many rounds as the range has numbers where a build checks for
-- overflows, as the debug profile does; the release profile does not, `current` wraps around there, and
-- the loop has as many rounds as there are numbers of type `usize`: one that goes further repeats a
-- number, and goes on for ever. The service of a
-- connection is seen through its first rounds, whatever their number.
--
-- Not modelled: the client's commands that work on files or print logs, and its tables, sockets and TLS, the state file's format,
-- the files of logs, the rendering of callbacks, the settings file, and the start of the daemon as a
-- service. They are input and output, or code of libraries. Of the code that is modelled: the panic of a
-- callback's shell command template that does not render, the wait before a wrong secret is refused (which
-- panics where the clock jumps meanwhile), and
-- the panic of a build with overflow checks where the greatest `usize` of lines is asked for of a log.
pub mod Base
pub mod Task
pub mod State
pub mod Message
pub mod Daemon
pub mod Network
pub mod Client
pub mod Tests
