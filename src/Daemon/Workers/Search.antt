-- ===== src/Daemon/Workers/Search.antt =====
-- The search for a task's child over the pools of daemon/internal_state/children.rs.
use pueue.Base.{
  ℕ, ◌≡◌, inl, inr, some, List, [], ◌∷◌, In, values, arith, Bool-cases, Option-cases, ==_refl, ◌==◌,
  nat_ord, In-++,
}
use pueue.Daemon.Os.{Child}
use pueue.Daemon.Workers.{Children, child_in, get_child, worker_tasks, all_task_ids}

child_in-some :
    (id : ℕ) (workers : List (ℕ × Child))
    → In id (worker_tasks workers)
    → (c : Child) × (child_in id workers ≡ some c)
unfolding child_in worker_tasks
child_in-some id [] m = absurd m
child_in-some id ((i, c) ∷ workers) m = elim (Bool-cases (i == id)) [
  | inl e ↦ (c, ground arith)
  | inr e ↦
      let (d, found) = child_in-some id workers (ground (arith, ==_refl id)) in (d, ground arith)
]

pub get_child-some :
    (children : Children) (id : ℕ)
    → In id (all_task_ids children)
    → (c : Child) × (get_child children id ≡ some c)
unfolding get_child all_task_ids
get_child-some [] id m = absurd m
get_child-some ((group, pool) ∷ pools) id m = elim (Option-cases (child_in id (values pool))) [
  | inr (c, found) ↦ (c, ground arith)
  | inl absent ↦ elim (In-++ id (worker_tasks (values pool)) (all_task_ids pools) m) [
    | inl here ↦ let (d, found) = child_in-some id (values pool) here in cc
    | inr later ↦ let (d, found) = get_child-some pools id later in (d, ground arith)
  ]
]
