-- ===== src/Daemon/Ordered/Requests/Others.antt =====
-- The handlers of enqueue.rs, stash.rs, switch.rs, group.rs, parallel.rs, reset.rs, kill.rs,
-- pause.rs, start.rs, restart.rs, env.rs and send.rs keep the order of the tasks.
use pueue.Base.{
  ℕ, String, ◌≡◌, refl, sym, subst, Bool, true, false, ◌&&◌, Option, none, some, List, [], ◌∷◌,
  arith, get, update, insert, remove, inl, inr, Bool-cases, Option-cases, nat_ord, text_ord,
  if◌then◌else◌, ◌==◌, map,
}
use pueue.Task.{Task, TaskStatus, is_done}
use pueue.State.{Tasks, GroupStatus}
use pueue.Daemon.Workers.{Pool}
use pueue.Message.{
  TaskSelection, EnvRequest, EnqueueRequest, StashRequest, SendRequest, GroupRequest, KillRequest,
  ParallelRequest, PauseRequest, ResetTarget, RestartRequest, StartRequest, SwitchRequest,
  ShutdownRequest, TaskToRestart,
}
use pueue.Daemon.Os.{Os, Settings, Outcome, finished, panicked, Outcome-cases, for_all}
use pueue.Daemon.Internal.{InternalState, set_status_for_all_groups, remove_group}
use pueue.Daemon.Responses.{save_then}
use pueue.Daemon.Process.Kill.{kill}
use pueue.Daemon.Process.Kill.Shutdown.{initiate_shutdown-Spares}
use pueue.Daemon.Ordered.{
  IsOrdered, insert-IsOrdered, update-IsOrdered, remove-IsOrdered, map_values-IsOrdered, InOrder,
  Answers, >>=-Answers, for_all-InOrder, Spares-InOrder,
}
use pueue.Daemon.Ordered.Processes.{kill-InOrder, pause-Leaves, start-Leaves}
use pueue.Daemon.Ordered.Requests.{save_then-InOrder}
use pueue.Daemon.Handlers.Queue.{
  set_selected, enqueue, stash, is_selected, is_enqueuable, is_stashable,
}
use pueue.Daemon.Handlers.Switch.{
  put_back, switch_pair, switch_pairs, switch, update_each, symmetric_difference,
}
use pueue.Daemon.Handlers.Groups.{
  group, add_group, remove_with_pool, removed, set_parallel_tasks, reset, reset_one, first_missing,
}
use pueue.Daemon.Handlers.Control.{
  kill_request, pause_request, start_request, restart, restart_multiple, restarted, env_change, env,
  check_selection, is_success_text, pause_response, start_response,
}
use pueue.Daemon.Handlers.Output.{send}

set_selected-id :
    (selection : TaskSelection) (test : TaskStatus → Bool) (status : TaskStatus) (k : ℕ)
    (task : Task)
    → (if is_selected selection k task && test task.status
        then record task { status = status }
        else task).id
      ≡ task.id
set_selected-id selection test status k task = ground arith

set_selected-IsOrdered :
    (selection : TaskSelection) (test : TaskStatus → Bool) (status : TaskStatus) (m : Tasks)
    → IsOrdered m
    → IsOrdered (set_selected selection test status m)
unfolding set_selected
set_selected-IsOrdered selection test status m o =
    map_values-IsOrdered _ m (set_selected-id selection test status) o

pub enqueue-InOrder :
    (os : Os) (s : InternalState) (message : EnqueueRequest)
    → InOrder s
    → InOrder (enqueue os s message).0
unfolding enqueue
enqueue-InOrder os s message o = set_selected-IsOrdered message.tasks is_enqueuable _ s.tasks o

pub stash-InOrder :
    (s : InternalState) (message : StashRequest) → InOrder s → InOrder (stash s message).0
unfolding stash
stash-InOrder s message o = set_selected-IsOrdered message.tasks is_stashable _ s.tasks o

update_each-IsOrdered :
    (f : Task → Task) (ids : List ℕ) (m : Tasks)
    → ((task : Task) → (f task).id ≡ task.id)
    → IsOrdered m
    → IsOrdered (update_each f ids m)
unfolding for_all
update_each-IsOrdered f [] m h o = o
update_each-IsOrdered f (id ∷ ids) m h o =
    update_each-IsOrdered f ids (update id f m) h (update-IsOrdered id f m h o)

put_back-IsOrdered :
    (task1 task2 : Task) (m : Tasks) → IsOrdered m → IsOrdered (put_back task1 task2 m)
unfolding put_back
put_back-IsOrdered task1 task2 m o =
    update_each-IsOrdered _ (symmetric_difference task1.dependents task2.dependents) _ (λ t. refl)
      (update_each-IsOrdered _ (symmetric_difference task1.dependencies task2.dependencies) _
        (λ t. refl) (insert-IsOrdered task1.id _ _ refl (insert-IsOrdered task2.id _ m refl o)))

-- What a switch that may panic leaves.
abbrev TasksLeft : Outcome Tasks → Type 0
TasksLeft panicked = Unit {0}
TasksLeft (finished m) = IsOrdered m

switch_pair-TasksLeft : (m : Tasks) (id1 id2 : ℕ) → IsOrdered m → TasksLeft (switch_pair m id1 id2)
unfolding switch_pair
switch_pair-TasksLeft m id1 id2 o = elim (Bool-cases (id1 == id2)) [
  | inl e ↦ rw (e, switch_pair) o
  | inr e ↦ elim (Option-cases (get id1 m)) [
    | inl e1 ↦ rw (e, switch_pair) (rw e1 tt)
    | inr (task1, e1) ↦ elim (Option-cases (get id2 (remove id1 m))) [
      | inl e2 ↦ rw (e, switch_pair) (rw e1 (rw e2 tt))
      | inr (task2, e2) ↦
          rw (e, switch_pair)
            (rw e1 (
              rw e2 (
                put_back-IsOrdered task1 task2 _
                  (remove-IsOrdered id2 _ (remove-IsOrdered id1 m o)))))
    ]
  ]
]

switch_pairs-TasksLeft :
    (m : Tasks) (ids1 ids2 : List ℕ) → IsOrdered m → TasksLeft (switch_pairs m ids1 ids2)
unfolding switch_pairs
switch_pairs-TasksLeft m [] ids2 o = o
switch_pairs-TasksLeft m (id1 ∷ ids1) [] o = o
switch_pairs-TasksLeft m (id1 ∷ ids1) (id2 ∷ ids2) o =
    let first = switch_pair-TasksLeft m id1 id2 o in
    elim (Outcome-cases (switch_pair m id1 id2)) [
      | inl e ↦ rw (e, switch_pairs) tt
      | inr (m', e) ↦ rw (e, switch_pairs) (switch_pairs-TasksLeft m' ids1 ids2 (rw e at first))
    ]

pub switch-Answers :
    (os : Os) (s : InternalState) (message : SwitchRequest)
    → InOrder s
    → Answers (switch os s message)
unfolding switch save_then
switch-Answers os s message o =
    let pairs = switch_pairs-TasksLeft s.tasks message.task_ids_1 message.task_ids_2 o in
    elim (Outcome-cases (switch_pairs s.tasks message.task_ids_1 message.task_ids_2)) [
      | inl e ↦ ground (arith, e)
      | inr (m, e) ↦ let left : IsOrdered m = rw e at pairs in ground (arith, e)
    ]

add_group-InOrder :
    (os : Os) (s : InternalState) (name : String) (parallel : Option ℕ)
    → InOrder s
    → InOrder (add_group os s name parallel).0
unfolding add_group save_then
add_group-InOrder os s name parallel o = ground arith

removed-InOrder :
    (os : Os) (s : InternalState) (name : String)
    → InOrder s
    → InOrder (removed os s name (remove_group s name)).0
unfolding remove_group save_then
removed-InOrder os s name o = ground arith

remove_with_pool-InOrder :
    (os : Os) (s : InternalState) (name : String) (pool : Option Pool)
    → InOrder s
    → InOrder (remove_with_pool os s name pool).0
unfolding remove_with_pool
remove_with_pool-InOrder os s name none o =
    Spares-InOrder (initiate_shutdown-Spares os s ShutdownRequest.emergency) o
remove_with_pool-InOrder os s name (some pool) o = ground (
  arith,
  Spares-InOrder (initiate_shutdown-Spares os s ShutdownRequest.emergency) o,
  removed-InOrder os s name o,
)

set_status-InOrder :
    (s : InternalState) → InOrder s → InOrder (set_status_for_all_groups s GroupStatus.reset)
unfolding set_status_for_all_groups
set_status-InOrder s o = o

pub group-InOrder :
    (os : Os) (s : InternalState) (message : GroupRequest)
    → InOrder s
    → InOrder (group os s message).0
unfolding group
group-InOrder os s GroupRequest.list o = o
group-InOrder os s (GroupRequest.add name parallel) o = add_group-InOrder os s name parallel o
group-InOrder os s (GroupRequest.remove name) o =
    ground (arith, remove_with_pool-InOrder os s name (get name s.children) o)

pub set_parallel_tasks-InOrder :
    (s : InternalState) (message : ParallelRequest)
    → InOrder s
    → InOrder (set_parallel_tasks s message).0
unfolding set_parallel_tasks
set_parallel_tasks-InOrder s message o = ground arith

reset_one-InOrder :
    (os : Os) (s : InternalState) (name : String) → InOrder s → InOrder (reset_one os s name)
reset_one-InOrder os s name o = kill-InOrder os _ (TaskSelection.group name) false none o

pub reset-InOrder :
    (os : Os) (s : InternalState) (target : ResetTarget) → InOrder s → InOrder (reset os s target).0
unfolding reset
reset-InOrder os s ResetTarget.all o =
    let same : (reset os s ResetTarget.all).0
        ≡ kill os (set_status_for_all_groups s GroupStatus.reset) TaskSelection.all false none =
      refl in
    subst InOrder (sym same)
      (kill-InOrder os _ TaskSelection.all false none (set_status-InOrder s o))
reset-InOrder os s (ResetTarget.groups names) o =
    elim (Option-cases (first_missing s.groups names)) [
      | inl e ↦ rw (e, reset) (for_all-InOrder (reset_one os) (reset_one-InOrder os) names s o)
      | inr (name, e) ↦ rw (e, reset) o
    ]

pub kill_request-InOrder :
    (os : Os) (s : InternalState) (message : KillRequest)
    → InOrder s
    → InOrder (kill_request os s message).0
unfolding kill_request
kill_request-InOrder os s message o =
    ground (arith, kill-InOrder os s message.tasks true message.signal o)

pub pause_request-Answers :
    (os : Os) (s : InternalState) (message : PauseRequest)
    → InOrder s
    → Answers (pause_request os s message)
unfolding pause_request
pause_request-Answers os s message o =
    elim (Option-cases (check_selection s.groups message.tasks)) [
      | inr (response, e) ↦ rw (e, pause_request) o
      | inl e ↦ elim (Bool-cases (is_success_text (pause_response s.inner message.tasks))) [
        | inl y ↦
            rw (e, pause_request)
              (rw y (>>=-Answers _ _ (pause-Leaves os s message.tasks message.wait o) (λ t h. h)))
        | inr n ↦ rw (e, pause_request) (rw n o)
      ]
    ]

pub start_request-Answers :
    (os : Os) (settings : Settings) (s : InternalState) (message : StartRequest)
    → InOrder s
    → Answers (start_request os settings s message)
unfolding start_request
start_request-Answers os settings s message o =
    elim (Option-cases (check_selection s.groups message.tasks)) [
      | inr (response, e) ↦ rw (e, start_request) o
      | inl e ↦ elim (Bool-cases (is_success_text (start_response s.inner message.tasks))) [
        | inl y ↦
            rw (e, start_request)
              (rw y (>>=-Answers _ _ (start-Leaves os settings s message.tasks o) (λ t h. h)))
        | inr n ↦ rw (e, start_request) (rw n o)
      ]
    ]

restarted-id :
    (os : Os) (now : ℕ) (anew : Bool) (to_restart : TaskToRestart) (task : Task)
    → (if is_done task then restarted os now anew to_restart task else task).id ≡ task.id
restarted-id os now anew to_restart task = ground arith

restart-InOrder :
    (os : Os) (anew : Bool) (s : InternalState) (to_restart : TaskToRestart)
    → InOrder s
    → InOrder (restart os anew s to_restart)
unfolding restart
restart-InOrder os anew s to_restart o =
    update-IsOrdered to_restart.task_id _ s.tasks (restarted-id os (os.now s.trace) anew to_restart)
      o

pub restart_multiple-Answers :
    (os : Os) (settings : Settings) (s : InternalState) (message : RestartRequest)
    → InOrder s
    → Answers (restart_multiple os settings s message)
unfolding restart_multiple
restart_multiple-Answers os settings s message o =
    let o' =
      for_all-InOrder (restart os message.stashed) (restart-InOrder os message.stashed)
        message.tasks s o in
    elim (Bool-cases message.start_immediately) [
      | inl y ↦ rw y (
          >>=-Answers _ _
            (start-Leaves os settings _
              (TaskSelection.task_ids (map (λ (t : TaskToRestart). t.task_id) message.tasks)) o')
            (λ t h. h))
      | inr n ↦ rw n o'
    ]

env_change-InOrder :
    (s : InternalState) (message : EnvRequest) → InOrder s → InOrder (env_change s message).0
unfolding env_change
env_change-InOrder s (EnvRequest.set id key value) o = ground (
  arith,
  update-IsOrdered id (λ (t : Task). record t { envs = insert key value t.envs }) s.tasks
      (λ t. refl) o,
)
env_change-InOrder s (EnvRequest.unset id key) o = ground (
  arith,
  update-IsOrdered id (λ (t : Task). record t { envs = remove key t.envs }) s.tasks (λ t. refl) o,
)
env_change-InOrder s (EnvRequest.list id) o = ground arith

pub env-InOrder :
    (os : Os) (s : InternalState) (message : EnvRequest) → InOrder s → InOrder (env os s message).0
unfolding env
env-InOrder os s message o =
    let o' = env_change-InOrder s message o in
    ground (arith, save_then-InOrder os (env_change s message).0 (env_change s message).1 o')

pub send-InOrder :
    (os : Os) (s : InternalState) (message : SendRequest)
    → InOrder s
    → InOrder (send os s message).0
unfolding send
send-InOrder os s message o = ground arith
