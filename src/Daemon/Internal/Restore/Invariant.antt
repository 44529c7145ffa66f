-- ===== src/Daemon/Internal/Restore/Invariant.antt =====
-- The order of the tasks and their reverse index after `restore_state`
-- (daemon/internal_state/state.rs).
use pueue.Base.{
  ℕ, suc, List, [], ◌∷◌, update, map_values, update-From, map_values-From, From, IsAscending, ltb,
  sort_by, nat_ord,
}
use pueue.Task.{Task}
use pueue.State.{State, Tasks, Groups}
use pueue.Daemon.Os.{for_all}
use pueue.Daemon.Internal.Restore.{
  set_dependents, push_dependent, index_dependencies, index_all, build_reverse_dependency_index,
  restore_task, restore_tasks, restore_state,
}
use pueue.Daemon.Internal.Restore.Rebuilt.{build_reverse_dependency_index-IsLinked}
use pueue.Daemon.Links.Consistent.{IsLinked}

restore_tasks-From :
    (now low : ℕ) (tasks : Tasks) (groups : Groups)
    → From low tasks
    → From low (restore_tasks now tasks groups).0
unfolding restore_tasks
restore_tasks-From now low [] groups f = tt
restore_tasks-From now low ((id, task) ∷ tasks) groups f =
    (f.0, restore_tasks-From now (suc id) tasks (restore_task now task groups).1 f.1)

index_dependencies-From :
    (low id : ℕ) (ids : List ℕ) (tasks : Tasks)
    → From low tasks
    → From low (index_dependencies tasks id ids)
unfolding index_dependencies for_all
index_dependencies-From low id [] tasks f = f
index_dependencies-From low id (d ∷ ids) tasks f =
    index_dependencies-From low id ids (update d (push_dependent id) tasks)
      (update-From d low (push_dependent id) tasks f)

index_all-From :
    (low : ℕ) (entries : List (ℕ × Task)) (index : Tasks)
    → From low index
    → From low (index_all entries index)
unfolding index_all
index_all-From low [] index f = f
index_all-From low ((id, t) ∷ entries) index f =
    index_all-From low entries (index_dependencies index id t.dependencies)
      (index_dependencies-From low id t.dependencies index f)

build-IsAscending :
    (tasks : Tasks) → IsAscending tasks → IsAscending (build_reverse_dependency_index tasks)
unfolding build_reverse_dependency_index
build-IsAscending tasks f =
    map_values-From 0 (λ (_ : ℕ) (t : Task). set_dependents (sort_by ltb t.dependents) t) _
      (index_all-From 0 tasks (map_values (λ (_ : ℕ). set_dependents []) tasks)
        (map_values-From 0 (λ (_ : ℕ). set_dependents []) tasks f))

-- If the tasks of a state file are in the order of their ids, then so are those of the restored
-- state, and its dependents are exactly the tasks that name a task, whatever the dependents in the
-- file were.
pub restore_state-IsLinked :
    (now : ℕ) (s : State)
    → IsAscending s.tasks
    → IsAscending (restore_state now s).tasks × IsLinked (restore_state now s).tasks
unfolding restore_state
restore_state-IsLinked now s ordered =
    let tasks = (restore_tasks now s.tasks s.groups).0 in
    let kept = restore_tasks-From now 0 s.tasks s.groups ordered in
    (build-IsAscending tasks kept, build_reverse_dependency_index-IsLinked tasks kept)
