-- ===== src/Daemon/Workers.antt =====
-- pueue/src/daemon/internal_state/children.rs: the worker pools, one for each group, in which a
-- worker's slot holds the id of the task that it runs and the handle of its process.
pub mod Search
pub mod Slots
use pueue.Base.{
  ℕ, suc, ◌+◌, String, Bool, true, false, not, ◌||◌, Option, none, some, List, [], ◌∷◌, ◌++◌,
  OrdMap, keys, values, get, insert, update, contains_key, is_empty, any_of, ◌==◌, nat_ord,
  text_ord, if◌then◌else◌,
}
use pueue.Daemon.Os.{Child, Outcome, finished, panicked}

abbrev pub Pool : Type 0
Pool = OrdMap ℕ (ℕ × Child)

abbrev pub Children : Type 0
Children = OrdMap String Pool

unfoldable pub has_active_tasks : Children → Bool
has_active_tasks children = any_of (λ pool. not (is_empty pool)) (values children)

abbrev pub occupied : Option Pool → Bool
occupied none = false
occupied (some pool) = not (is_empty pool)

unfoldable pub has_group_active_tasks : Children → String → Bool
has_group_active_tasks children group = occupied (get group children)

-- The first child of the task in a pool.
unfoldable pub child_in : ℕ → List (ℕ × Child) → Option Child
child_in task_id [] = none
child_in task_id ((id, child) ∷ workers) =
    if id == task_id then some child else child_in task_id workers

abbrev pub or_else {ℓ} : {A : Type ℓ} → Option A → Option A → Option A
or_else none o = o
or_else (some a) o = some a

-- `get_child_mut`: the search over all pools.
unfoldable pub get_child : Children → ℕ → Option Child
unfolding child_in
get_child [] task_id = none
get_child ((group, pool) ∷ pools) task_id =
    or_else (child_in task_id (values pool)) (get_child pools task_id)

unfoldable pub has_child : Children → ℕ → Bool
has_child [] task_id = false
has_child ((group, pool) ∷ pools) task_id =
    any_of (λ (worker : ℕ × Child). worker.0 == task_id) (values pool) || has_child pools task_id

unfoldable pub worker_tasks : List (ℕ × Child) → List ℕ
worker_tasks [] = []
worker_tasks ((task_id, child) ∷ workers) = task_id ∷ worker_tasks workers

unfoldable pub all_task_ids : Children → List ℕ
unfolding worker_tasks
all_task_ids [] = []
all_task_ids ((group, pool) ∷ pools) = worker_tasks (values pool) ++ all_task_ids pools

-- The scan over the keys of a pool, which stops at the first gap.
unfoldable pub next_slot : ℕ → List ℕ → ℕ
next_slot next [] = next
next_slot next (worker_id ∷ ids) =
    let rest = next_slot (next + 1) ids in if worker_id == next then rest else next

abbrev pub expect_pool {ℓ} : {A : Type ℓ} → (Pool → A) → Option Pool → Outcome A
expect_pool f none = panicked
expect_pool f (some pool) = finished (f pool)

unfoldable pub get_next_group_worker : Children → String → Outcome ℕ
unfolding next_slot
get_next_group_worker children group =
    expect_pool (λ pool. next_slot 0 (keys pool)) (get group children)

unfoldable pub add_child : Children → String → ℕ → ℕ → Child → Outcome Children
add_child children group worker_id task_id child =
    expect_pool (λ pool. update group (λ (p : Pool). insert worker_id (task_id, child) p) children)
      (get group children)
