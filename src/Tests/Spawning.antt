-- ===== src/Tests/Spawning.antt =====
-- Tests of process_handler/spawn.rs.
use pueue.Base.{
  ℕ, zero, suc, ◌+◌, ◌≤◌, String, ◌≡◌, refl, ◌⊎◌, inl, inr, Bool, true, false, Option, none, some,
  List, [], ◌∷◌, arith, get, In, values, IsAscending, length, text_ord, nat_ord,
}
use pueue.Task.{Task, queued}
use pueue.Daemon.Os.{Outcome, finished}
use pueue.Daemon.Workers.{get_next_group_worker}
use pueue.Daemon.Workers.Slots.{IsFirstGap, get_next_group_worker-IsFirstGap}
use pueue.Daemon.Internal.{InternalState}
use pueue.Daemon.Process.Spawn.{get_next_task_id, spawn_process, spawn_loop}
use pueue.Daemon.Process.Spawn.Order.{
  IsStartable, GoesFirst, get_next_task_id-some, get_next_task_id-none,
}
use pueue.Daemon.Process.Spawn.Limits.{IsWithinLimits, IsKeyed, spawn_next-IsWithinLimits}
use pueue.Daemon.Process.Spawn.Dequeued.{queued_count}
use pueue.Daemon.Process.Spawn.Rounds.{IsExhausted, spawn_loop-ends}
use pueue.Tests.Samples.{os, settings, daemon, task, daemon-IsAscending, result_or}

next_of_daemon : get_next_task_id daemon ≡ some 1
unfolding get_next_task_id pueue.Base.keep get pueue.Base.all_of pueue.Base.insert_by
next_of_daemon = refl

get_next_task_id-some_example :
    (t : Task) × (t.id ≡ 1)
    × In t (values daemon.tasks)
    × IsStartable daemon t
    × ((other : Task)
        → In other (values daemon.tasks)
        → IsStartable daemon other
        → GoesFirst t other)
get_next_task_id-some_example = get_next_task_id-some daemon 1 next_of_daemon

abbrev after_spawn : InternalState
after_spawn = result_or daemon (spawn_process os settings daemon 1)

spawned_daemon : spawn_process os settings daemon 1 ≡ finished after_spawn
unfolding spawn_process get
spawned_daemon = refl

daemon-IsKeyed : IsKeyed daemon.tasks
daemon-IsKeyed k t m = ground arith

daemon-IsWithinLimits : IsWithinLimits daemon
unfolding get
daemon-IsWithinLimits g n pool e k = ground arith

spawn_next-IsWithinLimits_example : IsWithinLimits after_spawn
spawn_next-IsWithinLimits_example =
    spawn_next-IsWithinLimits os settings daemon after_spawn 1 daemon-IsAscending daemon-IsKeyed
      daemon-IsWithinLimits next_of_daemon spawned_daemon

queued_daemon : queued_count daemon.tasks ≤ 2
unfolding queued_count
queued_daemon = omega arith

spawn_loop-ends_example :
    (r : Outcome InternalState) × (spawn_loop os settings 3 daemon ≡ some r)
    × IsExhausted os settings daemon r
spawn_loop-ends_example =
    spawn_loop-ends os settings 2 daemon daemon-IsAscending daemon-IsKeyed queued_daemon

-- Task 2 cannot start before task 1 has succeeded.
abbrev waiting : InternalState
waiting = after_spawn

next_of_waiting : get_next_task_id waiting ≡ none
unfolding get_next_task_id pueue.Base.keep spawn_process get pueue.Daemon.Internal.save
    pueue.Base.update pueue.Base.insert
next_of_waiting = refl

still_waiting : In (task 2 (queued 0) (1 ∷ []) []) (values waiting.tasks)
unfolding spawn_process get pueue.Daemon.Internal.save pueue.Base.update pueue.Base.insert
still_waiting = inr (inr (inl refl))

get_next_task_id-none_example : ¬ IsStartable waiting (task 2 (queued 0) (1 ∷ []) [])
get_next_task_id-none_example =
    get_next_task_id-none waiting (task 2 (queued 0) (1 ∷ []) []) next_of_waiting still_waiting

default_pool : get "default" daemon.children ≡ some ((0, (3, 7)) ∷ [])
unfolding get
default_pool = refl

slot_of_daemon : get_next_group_worker daemon.children "default" ≡ finished 1
unfolding get_next_group_worker get
slot_of_daemon = refl

get_next_group_worker-IsFirstGap_example : IsFirstGap 0 1 ((0, (3, 7)) ∷ [])
get_next_group_worker-IsFirstGap_example =
    get_next_group_worker-IsFirstGap daemon.children "default" ((0, (3, 7)) ∷ []) 1 default_pool
      (omega arith, tt) slot_of_daemon
