-- ===== src/Daemon/Handlers/Switch.antt =====
-- message_handler/switch.rs.
pub mod Swap
use pueue.Base.{
  ℕ, Bool, not, ◌||◌, none, some, List, [], ◌∷◌, ◌++◌, map, get, update, insert, remove, contains,
  is_empty, keep, length, ltb, sort_by, ◌==◌, nat_ord, if◌then◌else◌,
}
use pueue.Task.{Task, is_queued_status, is_stashed_status}
use pueue.State.{Tasks, filter_tasks}
use pueue.Message.{SwitchRequest, Response, lit, num}
use pueue.Daemon.Os.{Os, Outcome, finished, panicked, ◌>>=◌, for_all}
use pueue.Daemon.Internal.{InternalState, with_tasks}
use pueue.Daemon.Responses.{save_then}

-- The entries of a vector as a set.
unfoldable pub unique : List ℕ → List ℕ
unique [] = []
unique (x ∷ xs) = x ∷ keep (λ y. not (y == x)) (unique xs)

-- The elements of exactly one of two sets. The order in which a `HashSet` gives them is immaterial:
-- each is the id of another task.
unfoldable pub symmetric_difference : List ℕ → List ℕ → List ℕ
unfolding unique
symmetric_difference xs ys =
    keep (λ x. not (contains ys x)) (unique xs) ++ keep (λ y. not (contains xs y)) (unique ys)

abbrev pub swap_id : ℕ → ℕ → ℕ → ℕ
swap_id old_id1 old_id2 id =
    if id == old_id1 then old_id2 else if id == old_id2 then old_id1 else id

abbrev pub swap_dependents : ℕ → ℕ → Task → Task
swap_dependents a b task = record task {
  dependents = sort_by ltb (map (swap_id a b) task.dependents);
}

abbrev pub swap_dependencies : ℕ → ℕ → Task → Task
swap_dependencies a b task = record task {
  dependencies = sort_by ltb (map (swap_id a b) task.dependencies);
}

abbrev pub update_each : (Task → Task) → List ℕ → Tasks → Tasks
update_each f ids = for_all ids (λ (ts : Tasks) id. update id f ts)

-- The swap of two tasks that were taken out of the map.
unfoldable pub put_back : Task → Task → Tasks → Tasks
unfolding symmetric_difference
put_back task1 task2 tasks =
    let a = task1.id in
    let b = task2.id in
    let back : Tasks =
      insert a (record task2 { id = a }) (insert b (record task1 { id = b }) tasks) in
    let linked : Tasks =
      update_each (swap_dependents a b) (symmetric_difference task1.dependencies task2.dependencies)
        back in
    update_each (swap_dependencies a b) (symmetric_difference task1.dependents task2.dependents)
      linked

-- One round of the loop; both `unwrap` calls panic at a missing task.
unfoldable pub switch_pair : Tasks → ℕ → ℕ → Outcome Tasks
unfolding put_back
switch_pair tasks id1 id2 =
    let swapped : Outcome Tasks = elim (get id1 tasks) [
      | none ↦ panicked
      | some task1 ↦ elim (get id2 (remove id1 tasks)) [
        | none ↦ panicked
        | some task2 ↦ finished (put_back task1 task2 (remove id2 (remove id1 tasks)))
      ]
    ] in
    if id1 == id2 then finished tasks else swapped

unfoldable pub switch_pairs : Tasks → List ℕ → List ℕ → Outcome Tasks
unfolding switch_pair
switch_pairs tasks [] ids = finished tasks
switch_pairs tasks (id1 ∷ ids1) [] = finished tasks
switch_pairs tasks (id1 ∷ ids1) (id2 ∷ ids2) =
    switch_pair tasks id1 id2 >>= λ tasks'. switch_pairs tasks' ids1 ids2

abbrev pub is_switchable : Task → Bool
is_switchable task = is_queued_status task.status || is_stashed_status task.status

abbrev pub switched : ℕ → Response
switched count =
    if count == 1
    then Response.success (lit "Tasks have been switched" ∷ [])
    else Response.success (num count ∷ lit " pairs of tasks have been switched" ∷ [])

unfoldable pub switch : Os → InternalState → SwitchRequest → Outcome (InternalState × Response)
unfolding switch_pairs save_then
switch os s message =
    let ids1 = message.task_ids_1 in
    let ids2 = message.task_ids_2 in
    let run = switch_pairs s.tasks ids1 ids2 >>= λ tasks.
    finished (save_then os (with_tasks s tasks) (switched (length ids1))) in
    if not (length ids1 == length ids2)
    then finished (
      s,
      Response.failure (
          lit "Both task ID lists must have the same length. Got "
          ∷ num (length ids1)
          ∷ lit " and "
          ∷ num (length ids2)
          ∷ lit " tasks."
          ∷ []),
    )
    else if is_empty ids1
    then finished (s, Response.failure (lit "Task ID lists cannot be empty." ∷ []))
    else if not
        (is_empty (filter_tasks s.inner is_switchable (some (ids1 ++ ids2))).non_matching_ids)
    then finished (s, Response.failure (lit "All tasks must be either queued or stashed." ∷ []))
    else run
