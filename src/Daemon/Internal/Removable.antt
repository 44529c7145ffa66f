-- ===== src/Daemon/Internal/Removable.antt =====
-- When `is_task_removable` (pueue/src/daemon/internal_state/state.rs) allows a task to go.
use pueue.Base.{
  ℕ, zero, suc, ◌<◌, ◌≡◌, refl, ◌≢◌, inl, inr, Bool, true, false, not, Option, none, some, List, [],
  ◌∷◌, arith, get, is_empty, all_of, contains, In, all_of→, all_of-In, contains→In, In→contains,
  nat_ord, if◌then◌else◌,
}
use pueue.State.{Tasks}
use pueue.Daemon.Internal.{unfinished, dependents_of, all_return, is_task_removable}

-- `b` depends on `a` and has not finished, or does so through other tasks that have not finished.
abbrev pub Waits : Tasks → ℕ → ℕ → Type 0
Waits tasks a b = In b (unfinished tasks (dependents_of (get a tasks)))

pub data Descends (tasks : Tasks) : ℕ → ℕ → Type 0 where
  direct : {a b : ℕ} → Waits tasks a b → Descends tasks a b
  through : {a b c : ℕ} → Waits tasks a b → Descends tasks b c → Descends tasks a c

pub Descends-trans :
    {tasks : Tasks} {a b c : ℕ} → Descends tasks a b → Descends tasks b c → Descends tasks a c
Descends-trans (direct w) e = through w e
Descends-trans (through w d) e = through w (Descends-trans d e)

all_return→ :
    (f : ℕ → Option Bool) (ids : List ℕ) (id : ℕ)
    → all_return f ids ≡ some true
    → In id ids
    → f id ≡ some true
unfolding all_return
all_return→ f [] id h m = absurd m
all_return→ f (x ∷ ids) id h m = ground (arith, all_return→ f ids id)

all_return-ne_false :
    (f : ℕ → Option Bool) (ids : List ℕ)
    → ((id : ℕ) → In id ids → f id ≢ some false)
    → all_return f ids ≢ some false
unfolding all_return
all_return-ne_false f [] h = λ e. cc
all_return-ne_false f (x ∷ ids) h =
    ground (arith, h x (inl refl), all_return-ne_false f ids (λ id m. h id (inr m)))

module _ (tasks : Tasks) (to_delete : List ℕ) where
  abbrev waiting : ℕ → List ℕ
  waiting id = unfinished tasks (dependents_of (get id tasks))

  abbrev deeper : ℕ → List ℕ → Option Bool
  deeper fuel = all_return (λ id. is_task_removable fuel tasks id to_delete)

  removable_direct :
      (fuel id b : ℕ) (ds : List ℕ)
      → (if is_empty ds
          then some true
          else if not (all_of (contains to_delete) ds)
          then some false
          else deeper fuel ds)
        ≡ some true
      → In b ds
      → In b to_delete × (is_task_removable fuel tasks b to_delete ≡ some true)
  removable_direct fuel id b [] h w = absurd w
  removable_direct fuel id b (d ∷ ds) h w = ground (
    arith,
    all_of→ (contains to_delete) b (d ∷ ds),
    contains→In to_delete b,
    all_return→ (λ id. is_task_removable fuel tasks id to_delete) (d ∷ ds) b,
  )

  -- Every unfinished descendant of a removable task is about to be deleted as well.
  pub removable→In :
      (fuel id b : ℕ)
      → is_task_removable fuel tasks id to_delete ≡ some true
      → Descends tasks id b
      → In b to_delete
  unfolding is_task_removable
  removable→In zero id b h d = cc
  removable→In (suc fuel) id b h (direct w) = (removable_direct fuel id b (waiting id) h w).0
  removable→In (suc fuel) id b h (through {b = m} w d) =
      removable→In fuel m b (removable_direct fuel id m (waiting id) h w).1 d

  not-false :
      (fuel : ℕ) (ds : List ℕ)
      → ((b : ℕ) → In b ds → In b to_delete)
      → ((b : ℕ) → In b ds → is_task_removable fuel tasks b to_delete ≢ some false)
      → (if is_empty ds
          then some true
          else if not (all_of (contains to_delete) ds)
          then some false
          else deeper fuel ds)
        ≢ some false
  not-false fuel [] h k = λ e. cc
  not-false fuel (d ∷ ds) h k = ground (
    arith,
    all_of-In (contains to_delete) (d ∷ ds) (λ b m. In→contains to_delete b (h b m)),
    all_return-ne_false (λ id. is_task_removable fuel tasks id to_delete) (d ∷ ds) k,
  )

  -- And that is all that it takes.
  pub In→removable :
      (fuel id : ℕ)
      → ((b : ℕ) → Descends tasks id b → In b to_delete)
      → is_task_removable fuel tasks id to_delete ≢ some false
  unfolding is_task_removable
  In→removable zero id h = λ e. cc
  In→removable (suc fuel) id h =
      not-false fuel (waiting id) (λ b w. h b (direct w))
        (λ b w. In→removable fuel b (λ c d. h c (through w d)))

-- Tasks that wait for one another in no circle: a rank falls along `Waits`.
abbrev pub IsRanked : Tasks → (ℕ → ℕ) → Type 0
IsRanked tasks rank = (a b : ℕ) → Waits tasks a b → rank b < rank a

all_return-ne_none :
    (f : ℕ → Option Bool) (ids : List ℕ)
    → ((id : ℕ) → In id ids → f id ≢ none)
    → all_return f ids ≢ none
unfolding all_return
all_return-ne_none f [] h = λ e. cc
all_return-ne_none f (x ∷ ids) h =
    ground (arith, h x (inl refl), all_return-ne_none f ids (λ id m. h id (inr m)))

-- The recursion ends within fuel above the rank of its task.
pub removable-ne_none :
    (tasks : Tasks) (to_delete : List ℕ) (rank : ℕ → ℕ) (fuel id : ℕ)
    → IsRanked tasks rank
    → rank id < fuel
    → is_task_removable fuel tasks id to_delete ≢ none
unfolding is_task_removable
removable-ne_none tasks to_delete rank zero id r h = absurd (omega arith)
removable-ne_none tasks to_delete rank (suc fuel) id r h = ground (
  arith,
  all_return-ne_none (λ b. is_task_removable fuel tasks b to_delete)
      (unfinished tasks (dependents_of (get id tasks)))
      (λ b w. removable-ne_none tasks to_delete rank fuel b r (omega (arith, r id b w))),
)
