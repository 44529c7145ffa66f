-- ===== src/Daemon/Links.antt =====
-- The reverse index of dependencies, `Task.dependents`, and the code by which the handlers of
-- pueue/src/daemon/network/message_handler keep it (add.rs, edit.rs, remove.rs, clean.rs).
pub mod Consistent
pub mod Insertion
pub mod Shape
pub mod Steps
use pueue.Base.{
  ℕ, Bool, true, false, not, Option, none, some, List, [], ◌∷◌, ◌++◌, get, update, remove, keep,
  contains, ltb, sort_by, ◌==◌, nat_ord, if◌then◌else◌,
}
use pueue.Task.{Task}
use pueue.State.{Tasks}
use pueue.Daemon.Os.{for_all}
use pueue.Daemon.Internal.{dependents_of}

abbrev pub set_dependents : List ℕ → Task → Task
set_dependents ids task = record task { dependents = ids }

-- `dependents.retain(|&id| id != task_id)`.
unfoldable pub drop_dependent : ℕ → Task → Task
drop_dependent task_id task = set_dependents (keep (λ id. not (id == task_id)) task.dependents) task

-- The push and sort of a new dependent, unless it stands there.
unfoldable pub add_dependent : ℕ → Task → Task
add_dependent task_id task =
    if contains task.dependents task_id
    then task
    else set_dependents (sort_by ltb (task.dependents ++ task_id ∷ [])) task

-- The loops over the dependencies of a task.
unfoldable pub drop_links : ℕ → List ℕ → Tasks → Tasks
unfolding drop_dependent
drop_links task_id [] tasks = tasks
drop_links task_id (dep_id ∷ ids) tasks =
    drop_links task_id ids (update dep_id (drop_dependent task_id) tasks)

unfoldable pub add_links : ℕ → List ℕ → Tasks → Tasks
unfolding add_dependent
add_links task_id [] tasks = tasks
add_links task_id (dep_id ∷ ids) tasks =
    add_links task_id ids (update dep_id (add_dependent task_id) tasks)

abbrev pub dependencies_of : Option Task → List ℕ
dependencies_of none = []
dependencies_of (some task) = task.dependencies

-- The removal of a task in `remove` and `clean`.
unfoldable pub remove_task : ℕ → Tasks → Tasks
unfolding drop_links
remove_task task_id tasks =
    remove task_id (drop_links task_id (dependencies_of (get task_id tasks)) tasks)
