-- ===== src/State/Filter.antt =====
-- The two lists that the filters of pueue_lib/src/state.rs give.
use pueue.Base.{ℕ, ◌≡◌, refl, Bool, not, Option, List, [], ◌∷◌, arith, get, keep, nat_ord}
use pueue.Task.{Task}
use pueue.State.{State, matches, filter_task_ids, filter_tasks, selected_ids}

-- Whether the task of an id matches.
abbrev pub accepts : State → (Task → Bool) → ℕ → Bool
accepts s condition id = matches condition (get id s.tasks)

filter_task_ids-keep :
    (s : State) (condition : Task → Bool) (ids : List ℕ)
    → ((filter_task_ids s condition ids).matching_ids ≡ keep (accepts s condition) ids)
      × ((filter_task_ids s condition ids).non_matching_ids
          ≡ keep (λ id. not (accepts s condition id)) ids)
unfolding filter_task_ids keep
filter_task_ids-keep s condition [] = (refl, refl)
filter_task_ids-keep s condition (id ∷ ids) =
    let (matching, others) = filter_task_ids-keep s condition ids in (ground arith, ground arith)

-- `filter_tasks` splits the selected ids, in their order and with their repetitions, into those
-- whose task exists and meets the condition and the others.
pub filter_tasks-keep :
    (s : State) (condition : Task → Bool) (task_ids : Option (List ℕ))
    → ((filter_tasks s condition task_ids).matching_ids
        ≡ keep (accepts s condition) (selected_ids s task_ids))
      × ((filter_tasks s condition task_ids).non_matching_ids
          ≡ keep (λ id. not (accepts s condition id)) (selected_ids s task_ids))
unfolding filter_tasks
filter_tasks-keep s condition task_ids = filter_task_ids-keep s condition (selected_ids s task_ids)
