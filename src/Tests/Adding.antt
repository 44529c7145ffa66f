-- ===== src/Tests/Adding.antt =====
-- Tests of message_handler/add.rs and of the restore in daemon/internal_state/state.rs.
use pueue.Base.{
  ℕ, String, ◌≡◌, refl, ◌⊎◌, inl, inr, Bool, true, false, Option, none, some, List, [], ◌∷◌, arith,
  get, last_key, In, IsAscending, nat_ord, text_ord,
}
use pueue.Task.{Task, done, killed}
use pueue.Message.{Response, AddRequest}
use pueue.Daemon.Os.{Outcome, finished}
use pueue.Daemon.Internal.{InternalState}
use pueue.Daemon.Internal.Restore.{restore_state}
use pueue.Daemon.Internal.Restore.Cleanup.{IsSettled, restore_state-IsSettled}
use pueue.Daemon.Internal.Restore.Invariant.{restore_state-IsLinked}
use pueue.Daemon.Links.Consistent.{IsLinked}
use pueue.Daemon.Links.Insertion.{IsUnnamed}
use pueue.Daemon.Handlers.Add.{add}
use pueue.Daemon.Handlers.Add.Linked.{fresh_id, add-IsLinked}
use pueue.Tests.Samples.{
  os, settings, daemon, inner, task, daemon-IsAscending, daemon-IsLinked, result_or,
}

abbrev message : AddRequest
message = record {
  command = "ls";
  path = "/";
  envs = [];
  start_immediately = false;
  stashed = false;
  group = "default";
  enqueue_at = none;
  dependencies = 2 ∷ 0 ∷ 2 ∷ [];
  priority = none;
  label = none;
}

abbrev added : InternalState × Response
added = result_or (daemon, Response.failure []) (add os settings daemon message)

add-message : add os settings daemon message ≡ finished (added.0, added.1)
unfolding add get pueue.Base.keep
add-message = refl

daemon-IsUnnamed : IsUnnamed (fresh_id daemon) daemon.tasks
unfolding get last_key
daemon-IsUnnamed a m = ground arith

add-IsLinked_example : IsAscending added.0.tasks × IsLinked added.0.tasks
add-IsLinked_example =
    add-IsLinked os settings daemon added.0 message added.1 refl add-message daemon-IsAscending
      daemon-IsUnnamed daemon-IsLinked

restore_state-IsLinked_example :
    IsAscending (restore_state 5 inner).tasks × IsLinked (restore_state 5 inner).tasks
restore_state-IsLinked_example = restore_state-IsLinked 5 inner daemon-IsAscending

-- The task that ran when the daemon crashed.
abbrev task_3 : Task
task_3 = task 3 (done 0 0 5 killed) [] []

task_3_restored : get 3 (restore_state 5 inner).tasks ≡ some task_3
unfolding restore_state get pueue.Base.map_values pueue.Daemon.Os.for_all pueue.Base.update
task_3_restored = refl

restore_state-IsSettled_example : IsSettled task_3 (restore_state 5 inner).groups
restore_state-IsSettled_example = restore_state-IsSettled 5 inner 3 task_3 task_3_restored
