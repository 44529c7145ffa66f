-- ===== src/Daemon/Ordered/Requests.antt =====
-- The message handlers (pueue/src/daemon/network/message_handler) keep the order of the tasks.
pub mod Dispatch
pub mod Others
use pueue.Base.{
  ℕ, zero, suc, String, ◌≡◌, refl, sym, ap, subst, ◌∙◌, Bool, true, false, not, ◌&&◌, ◌||◌, Option,
  none, some, List, [], ◌∷◌, ◌++◌, arith, get, update, insert, remove, map_values, last_key,
  contains_key, inl, inr, Bool-cases, Option-cases, nat_ord, text_ord, if◌then◌else◌, is_empty,
}
use pueue.Task.{
  Task, TaskStatus, is_queued, is_stashed, queued, stashed, running, paused, locked, done,
}
use pueue.State.{Tasks, State, next_id, FilteredTasks, pueue_default_group}
use pueue.Message.{
  Response, Text, TaskSelection, AddRequest, CleanRequest, EditableTask, EnvRequest, EnqueueRequest,
  StashRequest, GroupRequest, KillRequest, ParallelRequest, PauseRequest, ResetTarget,
  RestartRequest, StartRequest, SwitchRequest, ShutdownRequest, TaskToRestart, editable, lit, num,
}
use pueue.Daemon.Os.{
  Os, Settings, Outcome, finished, panicked, ◌>>=◌, Outcome-cases, for_each, for_all,
}
use pueue.Daemon.Internal.{
  InternalState, with_tasks, with_groups, save, change_status, is_task_removable,
}
use pueue.Daemon.Links.{
  add_links, drop_links, add_dependent, drop_dependent, dependencies_of, remove_task,
}
use pueue.Daemon.Responses.{save_then}
use pueue.Daemon.Ordered.{
  IsOrdered, insert-IsOrdered, update-IsOrdered, remove-IsOrdered, map_values-IsOrdered, InOrder,
  Leaves, Answers, Leaves-of, >>=-Leaves, >>=-Answers, for_each-Leaves, for_all-InOrder,
  Spares-InOrder,
}
use pueue.Daemon.Ordered.Processes.{
  save_or_shutdown-InOrder, change_status-InOrder, kill-InOrder, pause-Leaves, start-Leaves,
}
use pueue.Daemon.Handlers.Remove.{
  remove_one, drop_blocked, selected, check_removable, clean_one, clean, is_skipped,
}
use pueue.Daemon.Handlers.Remove
use pueue.Daemon.Handlers.Add.{build_task, insert_task, add_and_start, add, missing_ids}
use pueue.Daemon.Handlers.Edit.{
  edit_request_loop, edit_request, validate_all, edited, apply_edit, apply_edits, lacking, edit,
  edit_restore_loop, edit_restore,
}
use pueue.Daemon.Handlers.Queue.{set_selected, enqueue, stash}
use pueue.Daemon.Handlers.Switch.{
  put_back, switch_pair, switch_pairs, switch, swap_dependents, swap_dependencies, update_each,
}

-- The status under a lock.
abbrev previous_of : TaskStatus → TaskStatus
previous_of (locked status) = status
previous_of status = status

save-InOrder : (os : Os) (s : InternalState) → InOrder s → InOrder (save os s).0
unfolding save
save-InOrder os s o = ground arith

pub save_then-InOrder :
    (os : Os) (s : InternalState) (response : Response)
    → InOrder s
    → InOrder (save_then os s response).0
unfolding save_then
save_then-InOrder os s response o = save-InOrder os s o

add_dependent-id : (id : ℕ) (task : Task) → (add_dependent id task).id ≡ task.id
unfolding add_dependent
add_dependent-id id task = ground arith

add_links-IsOrdered :
    (id : ℕ) (ids : List ℕ) (m : Tasks) → IsOrdered m → IsOrdered (add_links id ids m)
unfolding add_links
add_links-IsOrdered id [] m o = o
add_links-IsOrdered id (d ∷ ids) m o =
    add_links-IsOrdered id ids _ (update-IsOrdered d (add_dependent id) m (add_dependent-id id) o)

drop_links-IsOrdered :
    (id : ℕ) (ids : List ℕ) (m : Tasks) → IsOrdered m → IsOrdered (drop_links id ids m)
unfolding drop_links
drop_links-IsOrdered id [] m o = o
drop_links-IsOrdered id (d ∷ ids) m o =
    drop_links-IsOrdered id ids _
      (update-IsOrdered d (drop_dependent id) m (λ t. unfold drop_dependent in refl) o)

remove_one-InOrder : (s : InternalState) (id : ℕ) → InOrder s → InOrder (remove_one s id)
unfolding remove_one remove_task
remove_one-InOrder s id o =
    remove-IsOrdered id _ (drop_links-IsOrdered id (dependencies_of (get id s.tasks)) s.tasks o)

pub remove-Answers :
    (os : Os) (s : InternalState) (ids : List ℕ) → InOrder s → Answers (Remove.remove os s ids)
unfolding pueue.Daemon.Handlers.Remove.remove
remove-Answers os s ids o =
    elim (Outcome-cases (drop_blocked s.tasks (selected s ids).matching_ids (selected s ids))) [
      | inl e ↦ rw (e, Remove.remove) tt
      | inr (allowed, e) ↦
          rw (e, Remove.remove)
            (save_then-InOrder os _ _
              (for_all-InOrder remove_one remove_one-InOrder allowed.matching_ids s o))
    ]

clean_one-Leaves :
    (message : CleanRequest) (s : InternalState) (id : ℕ)
    → InOrder s
    → Leaves (clean_one message s id)
unfolding clean_one
clean_one-Leaves message s id o =
    Leaves-of (clean_one message s id) (λ s' e. ground (arith, remove_one-InOrder s id o))

pub clean-Answers :
    (os : Os) (s : InternalState) (message : CleanRequest)
    → InOrder s
    → Answers (clean os s message)
unfolding clean
clean-Answers os s message o =
    >>=-Answers _ _ (for_each-Leaves (clean_one message) (clean_one-Leaves message) _ s o)
      (λ t h. save_then-InOrder os t _ h)

insert_task-InOrder : (s : InternalState) (task : Task) → InOrder s → InOrder (insert_task s task).0
unfolding insert_task pueue.Daemon.Internal.add_task
insert_task-InOrder s task o =
    add_links-IsOrdered (next_id (last_key s.tasks)) task.dependencies _
      (insert-IsOrdered (next_id (last_key s.tasks)) _ s.tasks refl o)

add_and_start-Answers :
    (os : Os) (settings : Settings) (s : InternalState) (message : AddRequest)
    → InOrder s
    → Answers (add_and_start os settings s message)
unfolding add_and_start build_task insert_task save pueue.Daemon.Internal.add_task
add_and_start-Answers os settings s message o =
    let task = build_task os (os.now s.trace) message in
    let inserted = insert_task-InOrder s task o in
    let s1 = (insert_task s task).0 in
    let saved = save-InOrder os s1 inserted in
    elim (Bool-cases (os.save_succeeds s.trace)) [
      | inr e ↦ rw e inserted
      | inl e ↦ elim (Bool-cases message.start_immediately) [
        | inr n ↦ rw (e, n) inserted
        | inl y ↦
            let run =
              start-Leaves os settings (save os s1).0
                (TaskSelection.task_ids ((insert_task s task).1 ∷ [])) saved in
            rw (y, add_and_start) (rw e (>>=-Answers _ _ (rw e at run) (λ t h. h)))
      ]
    ]

pub add-Answers :
    (os : Os) (settings : Settings) (s : InternalState) (message : AddRequest)
    → InOrder s
    → Answers (add os settings s message)
unfolding add pueue.Daemon.Responses.ensure_group_exists
add-Answers os settings s message o = elim (Bool-cases (contains_key message.group s.groups)) [
  | inr e ↦ rw (e, add) o
  | inl e ↦ elim (Bool-cases (is_empty (missing_ids s.tasks message.dependencies))) [
    | inl n ↦ rw (e, add) (rw n (add_and_start-Answers os settings s message o))
    | inr n ↦ rw (e, add) (rw n o)
  ]
]

edit_request_loop-InOrder :
    (s : InternalState) (ids : List ℕ) (editables : List EditableTask)
    → InOrder s
    → InOrder (edit_request_loop s ids editables).0
unfolding edit_request_loop
edit_request_loop-InOrder s [] editables o = o
edit_request_loop-InOrder s (id ∷ ids) editables o = elim (Option-cases (get id s.tasks)) [
  | inl e ↦ rw (e, edit_request_loop) o
  | inr (task, e) ↦ elim (Bool-cases (not (is_queued task) && not (is_stashed task))) [
    | inl n ↦ rw (e, edit_request_loop) (rw n o)
    | inr n ↦
        rw (e, edit_request_loop)
          (rw n (
            edit_request_loop-InOrder (change_status s id (locked task.status)) ids
              (editables ++ editable task ∷ [])
              (change_status-InOrder s id (locked task.status) o)))
  ]
]

pub edit_request-InOrder :
    (s : InternalState) (ids : List ℕ) → InOrder s → InOrder (edit_request s ids).0
unfolding edit_request
edit_request-InOrder s ids o = edit_request_loop-InOrder s ids [] o

edit_restore_loop-InOrder :
    (s : InternalState) (ids : List ℕ) (complaints : Text)
    → InOrder s
    → InOrder (edit_restore_loop s ids complaints).0
unfolding edit_restore_loop
edit_restore_loop-InOrder s [] complaints o = o
edit_restore_loop-InOrder s (id ∷ ids) complaints o = elim (Option-cases (get id s.tasks)) [
  | inl e ↦
      rw (e, edit_restore_loop)
        (edit_restore_loop-InOrder s ids
          (complaints ++ (lit "\nNo task with id " ∷ num id ∷ lit "! Cannot be unlocked." ∷ [])) o)
  | inr (task, e) ↦ ground (
    arith,
    e,
    edit_restore_loop-InOrder (change_status s id (previous_of task.status)) ids complaints
        (change_status-InOrder s id (previous_of task.status) o),
    edit_restore_loop-InOrder s ids
        (complaints ++ (lit "\nTask " ∷ num id ∷ lit " isn't locked! Cannot be unlocked" ∷ [])) o,
  )
]

pub edit_restore-InOrder :
    (s : InternalState) (ids : List ℕ) → InOrder s → InOrder (edit_restore s ids).0
unfolding edit_restore
edit_restore-InOrder s ids o = edit_restore_loop-InOrder s ids [] o

apply_edit-IsOrdered :
    (os : Os) (e : EditableTask) (status : TaskStatus) (ids : List ℕ) (m : Tasks)
    → IsOrdered m
    → IsOrdered (apply_edit os e status ids m)
unfolding apply_edit
apply_edit-IsOrdered os e status ids m o = add_links-IsOrdered e.id (lacking e.dependencies ids) _ (
    drop_links-IsOrdered e.id (lacking ids e.dependencies) _
      (update-IsOrdered e.id (edited os e status) m (λ t. refl) o))

apply_edits-InOrder :
    (os : Os) (s : InternalState) (es : List EditableTask)
    → InOrder s
    → InOrder (apply_edits os s es).0
unfolding apply_edits
apply_edits-InOrder os s [] o = o
apply_edits-InOrder os s (e ∷ es) o = elim (Option-cases (get e.id s.tasks)) [
  | inl absent ↦ rw (absent, apply_edits) (apply_edits-InOrder os s es o)
  | inr (task, found) ↦ ground (
    arith,
    found,
    apply_edits-InOrder os
        (with_tasks s (apply_edit os e (previous_of task.status) task.dependencies s.tasks)) es
        (apply_edit-IsOrdered os e (previous_of task.status) task.dependencies s.tasks o),
  )
]

pub edit-Answers :
    (os : Os) (s : InternalState) (es : List EditableTask) → InOrder s → Answers (edit os s es)
unfolding edit
edit-Answers os s es o = elim (Outcome-cases (validate_all s.tasks es)) [
  | inl e ↦ rw (e, edit) tt
  | inr (none, e) ↦
      rw (e, edit)
        (elim (Option-cases (apply_edits os s es).1) [
          | inl ok ↦ rw ok (
              save_then-InOrder os _ (Response.success (lit "All tasks have been updated" ∷ []))
                (apply_edits-InOrder os s es o))
          | inr (response, refused) ↦ rw refused (apply_edits-InOrder os s es o)
        ])
  | inr (some response, e) ↦ rw (e, edit) o
]
