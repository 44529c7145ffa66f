-- ===== src/Daemon/Handlers/Groups.antt =====
-- message_handler/group.rs, message_handler/parallel.rs and message_handler/reset.rs.
pub mod Laws
use pueue.Base.{
  ℕ, String, Bool, true, false, not, Option, none, some, List, [], ◌∷◌, get, insert, update, remove,
  contains_key, map_values, is_empty, any_of, values, ◌==◌, text_ord, if◌then◌else◌,
}
use pueue.Task.{Task}
use pueue.State.{Group, GroupStatus, Groups, pueue_default_group}
use pueue.Message.{
  GroupRequest, ParallelRequest, ResetTarget, TaskSelection, ShutdownRequest, Response, lit,
}
use pueue.Daemon.Os.{Os, for_all}
use pueue.Daemon.Workers.{Pool}
use pueue.Daemon.Internal.{
  InternalState, with_groups, create_group, remove_group, set_group_status,
  set_status_for_all_groups,
}
use pueue.Daemon.Process.Kill.{initiate_shutdown, kill}
use pueue.Daemon.Responses.{ensure_group_exists, save_then}

abbrev pub set_parallel : ℕ → Group → Group
set_parallel parallel_tasks group = record group { parallel_tasks = parallel_tasks }

-- The write of the requested number of parallel tasks into the new group.
abbrev pub with_parallel : Option ℕ → String → Groups → Groups
with_parallel none name groups = groups
with_parallel (some n) name groups = update name (set_parallel n) groups

unfoldable pub add_group : Os → InternalState → String → Option ℕ → InternalState × Response
unfolding create_group save_then
add_group os s name parallel_tasks =
    let created = with_groups s (with_parallel parallel_tasks name (create_group name s.groups)) in
    let s' = record created { children = insert name [] s.children } in
    if contains_key name s.groups
    then (s, Response.failure (lit "Group \"" ∷ lit name ∷ lit "\" already exists" ∷ []))
    else save_then os s'
        (Response.success (lit "New group \"" ∷ lit name ∷ lit "\" has been created" ∷ []))

abbrev pub removed : Os → InternalState → String → Option InternalState → InternalState × Response
removed os s group none = (
  s,
  Response.failure
      (lit "Error while removing group: \"You cannot remove the default group.\"" ∷ []),
)
removed os s group (some s') =
    save_then os (record s' { children = remove group s'.children })
      (Response.success (lit "Group \"" ∷ lit group ∷ lit "\" has been removed" ∷ []))

-- A pool that is missing or in use is a critical error, which shuts the daemon down.
unfoldable pub remove_with_pool :
    Os → InternalState → String → Option Pool → InternalState × Response
unfolding initiate_shutdown remove_group save_then
remove_with_pool os s group none = (
  initiate_shutdown os s ShutdownRequest.emergency,
  Response.failure (
      lit
        "Encountered an group without an worker pool, while removing a group. This is a critical error. Please report this bug."
      ∷ []),
)
remove_with_pool os s group (some pool) =
    if is_empty pool then removed os s group (remove_group s group) else (
      initiate_shutdown os s ShutdownRequest.emergency,
      Response.failure (
          lit
            "Encountered a non-empty worker pool, while removing a group. This is a critical error. Please report this bug."
          ∷ []),
    )

unfoldable pub remove_group_request : Os → InternalState → String → InternalState × Response
unfolding ensure_group_exists remove_with_pool
remove_group_request os s group = elim (ensure_group_exists s.groups group) [
  | some response ↦ (s, response)
  | none ↦
      if group == pueue_default_group
      then (s, Response.failure (lit "You cannot delete the default group" ∷ []))
      else if any_of (λ (task : Task). task.group == group) (values s.tasks)
      then (
        s,
        Response.failure (lit "You cannot remove a group, if there're still tasks in it." ∷ []),
      )
      else remove_with_pool os s group (get group s.children)
]

unfoldable pub group : Os → InternalState → GroupRequest → InternalState × Response
unfolding add_group remove_group_request
group os s GroupRequest.list = (s, Response.group s.groups)
group os s (GroupRequest.add name parallel_tasks) = add_group os s name parallel_tasks
group os s (GroupRequest.remove name) = remove_group_request os s name

unfoldable pub set_parallel_tasks : InternalState → ParallelRequest → InternalState × Response
unfolding ensure_group_exists
set_parallel_tasks s message = elim (ensure_group_exists s.groups message.group) [
  | some response ↦ (s, response)
  | none ↦ (
    with_groups s (update message.group (set_parallel message.parallel_tasks) s.groups),
    Response.success
        (lit "Parallel tasks setting for group \"" ∷ lit message.group ∷ lit "\" adjusted" ∷ []),
  )
]

abbrev pub first_missing : Groups → List String → Option String
first_missing groups [] = none
first_missing groups (name ∷ names) =
    let rest = first_missing groups names in if contains_key name groups then rest else some name

abbrev pub reset_one : Os → InternalState → String → InternalState
reset_one os s name =
    kill os (with_groups s (update name (set_group_status GroupStatus.reset) s.groups))
      (TaskSelection.group name) false none

abbrev pub reset_done : Response
reset_done = Response.success (lit "Everything is being reset right now." ∷ [])

unfoldable pub reset : Os → InternalState → ResetTarget → InternalState × Response
unfolding kill set_status_for_all_groups
reset os s ResetTarget.all = (
  kill os (set_status_for_all_groups s GroupStatus.reset) TaskSelection.all false none,
  reset_done,
)
reset os s (ResetTarget.groups names) = elim (first_missing s.groups names) [
  | some name ↦ (s, Response.failure (lit "Group '" ∷ lit name ∷ lit "' doesn't exist." ∷ []))
  | none ↦ (for_all names (reset_one os) s, reset_done)
]
