-- ===== src/Client/Wait/Covered.antt =====
-- Which tasks `wait` still watches, and which it need not.
use pueue.Base.{
  ℕ, ◌≡◌, ◌⊎◌, inl, inr, sym, subst, ap, true, none, some, List, [], ◌∷◌, get, remove, get-insert,
  get-remove, contains, contains→In, is_some, In, ◌==◌, ==→eq, ==_refl, nat_ord, Bool-cases, arith,
}
use pueue.Task.{Task}
use pueue.State.{State}
use pueue.Message.{TaskSelection}
use pueue.Client.Wait.{
  WaitTargetStatus, Waiting, reached_target_status, get_tasks, look_at, look_at_each, find_task,
}

module _ (target : WaitTargetStatus) (selection : TaskSelection) (all : List State) where
  -- In one of the states the task is not among the selected ones, or has reached the status.
  abbrev pub IsSettled : ℕ → Type 0
  IsSettled id =
      (state : State) × In state all
      × ((find_task id (get_tasks state selection) ≡ none)
          ⊎ ((task : Task) × (find_task id (get_tasks state selection) ≡ some task)
              × (reached_target_status task target ≡ true)))

  abbrev pub Covered : Waiting → ℕ → Type 0
  Covered w id = (is_some (get id w.watched_tasks) ≡ true) ⊎ IsSettled id

  -- What is finished is settled.
  abbrev pub Sound : Waiting → Type 0
  Sound w = (id : ℕ) → In id w.finished_tasks → IsSettled id

  look_at-Covered :
      (task : Task) (w : Waiting) (id : ℕ) → Covered w id → Covered (look_at task w) id
  look_at-Covered task w id (inr settled) = inr settled
  look_at-Covered task w id (inl watched) =
      inl (ground (arith, watched, get-insert id task.id task.status w.watched_tasks))

  look_at-Covered_self : (task : Task) (w : Waiting) → Sound w → Covered (look_at task w) task.id
  look_at-Covered_self task w sound = elim (Bool-cases (contains w.finished_tasks task.id)) [
    | inl over ↦ inr (sound task.id (contains→In w.finished_tasks task.id over))
    | inr open_task ↦ inl (
        ground (
          arith,
          open_task,
          get-insert task.id task.id task.status w.watched_tasks,
          ==_refl task.id,
        ))
  ]

  finished-look_at :
      (task : Task) (w : Waiting) → (look_at task w).finished_tasks ≡ w.finished_tasks
  finished-look_at task w = ground arith

  look_at-Sound : (task : Task) (w : Waiting) → Sound w → Sound (look_at task w)
  look_at-Sound task w sound id m = sound id (subst (λ l. In id l) (finished-look_at task w) m)

  pub look_at_each-Sound :
      (tasks : List Task) (w : Waiting) → Sound w → Sound (look_at_each tasks w)
  unfolding look_at_each
  look_at_each-Sound [] w sound = sound
  look_at_each-Sound (task ∷ tasks) w sound =
      look_at_each-Sound tasks (look_at task w) (look_at-Sound task w sound)

  pub look_at_each-Covered :
      (tasks : List Task) (w : Waiting) (id : ℕ) → Covered w id → Covered (look_at_each tasks w) id
  unfolding look_at_each
  look_at_each-Covered [] w id c = c
  look_at_each-Covered (task ∷ tasks) w id c =
      look_at_each-Covered tasks (look_at task w) id (look_at-Covered task w id c)

  pub look_at_each-Covered_entry :
      (tasks : List Task) (w : Waiting) (task : Task)
      → Sound w
      → In task tasks
      → Covered (look_at_each tasks w) task.id
  unfolding look_at_each
  look_at_each-Covered_entry [] w task sound m = absurd m
  look_at_each-Covered_entry (t ∷ tasks) w task sound (inl same) =
      subst (λ u. Covered (look_at_each tasks (look_at t w)) u) (ap (λ (u : Task). u.id) (sym same))
        (look_at_each-Covered tasks (look_at t w) t.id (look_at-Covered_self t w sound))
  look_at_each-Covered_entry (t ∷ tasks) w task sound (inr later) =
      look_at_each-Covered_entry tasks (look_at t w) task (look_at-Sound t w sound) later

  pub Covered-remove :
      (id id' : ℕ) (w : Waiting) (finished : List ℕ)
      → IsSettled id
      → Covered w id'
      → Covered
          (record { watched_tasks = remove id w.watched_tasks; finished_tasks = finished })
          id'
  Covered-remove id id' w finished settled (inr s) = inr s
  Covered-remove id id' w finished settled (inl watched) = elim (Bool-cases (id == id')) [
    | inl same ↦ inr (subst (λ i. IsSettled i) (==→eq id id' same) settled)
    | inr other ↦ inl (ground (arith, other, watched, get-remove id' id w.watched_tasks))
  ]
