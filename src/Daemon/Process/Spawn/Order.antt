-- ===== src/Daemon/Process/Spawn/Order.antt =====
-- Which task `get_next_task_id` (process_handler/spawn.rs) picks.
use pueue.Base.{
  ℕ, ◌≤◌, ◌<◌, ◌<ℤ◌, ◌≡◌, refl, subst, ◌==◌, ◌⊎◌, inl, inr, Bool, true, false, ◌&&◌, Option, none,
  some, List, [], ◌∷◌, arith, length, get, values, all_of→, all_of-In, head?, insert_by, sort_by,
  In, In-keep, keep-In, In-sort_by, sort_by-In, nat_ord, text_ord, Bool-cases,
}
use pueue.Task.{Task, TaskStatus, queued, done, success, is_queued_status, is_successful_status}
use pueue.State.{Group, GroupStatus}
use pueue.Daemon.Workers.{Pool}
use pueue.Daemon.Internal.{InternalState}
use pueue.Daemon.Process.Spawn.{
  can_start, comes_before, potential_tasks, get_next_task_id, has_slot, slot_in_group, is_fulfilled,
  id_of,
}

-- The head of a sorted list, for a strict weak order.
module _ {A : Type 0} (lt : A → A → Bool) (asymmetric : (a b : A) → lt a b ≡ true → lt b a ≡ false)
    (cotransitive : (a b c : A) → lt a b ≡ false → lt b c ≡ false → lt a c ≡ false) where
  abbrev IsLeast : A → List A → Type 0
  IsLeast y xs = (x : A) → In x xs → lt x y ≡ false

  irreflexive : (a : A) → lt a a ≡ false
  irreflexive a = ground (arith, asymmetric a a)

  insert_by-head :
      (x : A) (xs : List A) (y : A)
      → head? (insert_by lt x xs) ≡ some y
      → ((z : A) → head? xs ≡ some z → IsLeast z xs)
      → (w : A) → In w (x ∷ xs)
      → lt w y ≡ false
  unfolding insert_by
  insert_by-head x [] y e h w (inl m) = ground (arith, irreflexive x)
  insert_by-head x [] y e h w (inr m) = absurd m
  insert_by-head x (z ∷ xs) y e h w (inl m) = ground (arith, irreflexive x, asymmetric z x)
  insert_by-head x (z ∷ xs) y e h w (inr m) = ground (arith, h z refl w m, cotransitive w z x)

  sort_by-head : (xs : List A) (y : A) → head? (sort_by lt xs) ≡ some y → IsLeast y xs
  unfolding sort_by
  sort_by-head [] y e w m = absurd m
  sort_by-head (x ∷ xs) y e w m =
      insert_by-head x (sort_by lt xs) y e (λ z h v k. sort_by-head xs z h v (In-sort_by lt v xs k))
        w (elim m [ inl same ↦ inl same | inr rest ↦ inr (sort_by-In lt w xs rest) ])

head?-In : {A : Type 0} (xs : List A) (a : A) → head? xs ≡ some a → In a xs
head?-In [] a e = cc
head?-In (x ∷ xs) a e = inl (ground arith)

head?-none : {A : Type 0} (xs : List A) (a : A) → head? xs ≡ none → ¬ In a xs
head?-none [] a e = λ m. m
head?-none (x ∷ xs) a e = λ m. cc

-- When a task may be started: it is queued, its group runs and has a free slot, and those of its
-- dependencies that still exist succeeded.
pub record IsStartable (s : InternalState) (task : Task) : Type 0 where
  pub enqueued_at : ℕ
  pub is_queued : task.status ≡ queued enqueued_at
  pub group : Group
  pub grouped : get task.group s.groups ≡ some group
  pub group_runs : group.status ≡ GroupStatus.running
  pub has_room :
      (group.parallel_tasks ≡ 0)
      ⊎ ((pool : Pool) × (get task.group s.children ≡ some pool)
          × (length pool < group.parallel_tasks))
  pub succeeded :
      (id : ℕ) (dependency : Task)
      → In id task.dependencies
      → get id s.tasks ≡ some dependency
      → (e b d : ℕ) × (dependency.status ≡ done e b d success)

queued_of : (st : TaskStatus) → is_queued_status st ≡ true → (at : ℕ) × (st ≡ queued at)
queued_of (queued at) h = (at, refl)
queued_of other h = cc

successful_of :
    (st : TaskStatus) → is_successful_status st ≡ true → (e b d : ℕ) × (st ≡ done e b d success)
successful_of (done e b d success) h = (e, b, d, refl)
successful_of other h = cc

succeeded_of :
    (o : Option Task) (t : Task)
    → is_fulfilled o ≡ true
    → o ≡ some t
    → (e b d : ℕ) × (t.status ≡ done e b d success)
succeeded_of o t h e = successful_of t.status (subst (λ p. is_fulfilled p ≡ true) e h)

fulfilled_of :
    (o : Option Task)
    → ((t : Task) → o ≡ some t → (e b d : ℕ) × (t.status ≡ done e b d success))
    → is_fulfilled o ≡ true
fulfilled_of none h = refl
fulfilled_of (some t) h = let (e, b, d, same) = h t refl in rw same

abbrev HasRoom : Group → Option Pool → Type 0
HasRoom group o =
    (group.parallel_tasks ≡ 0)
    ⊎ ((pool : Pool) × (o ≡ some pool) × (length pool < group.parallel_tasks))

room_of :
    (g : Group) (o : Option Pool)
    → slot_in_group (some g) o ≡ true
    → (g.status ≡ GroupStatus.running) × HasRoom g o
room_of g none h = (ground arith, inl (ground arith))
room_of g (some pool) h = elim (Bool-cases (g.parallel_tasks == 0)) [
  | inl e ↦ (ground arith, inl (ground arith))
  | inr e ↦ (ground arith, inr (pool, refl, ground arith))
]

room_in :
    (g : Group) (o : Option Pool)
    → g.status ≡ GroupStatus.running
    → HasRoom g o
    → slot_in_group (some g) o ≡ true
room_in g o r (inl unlimited) = ground arith
room_in g o r (inr (pool, found, room)) = ground arith

slots_of :
    (o : Option Group) (p : Option Pool)
    → slot_in_group o p ≡ true
    → (g : Group) × (o ≡ some g) × (slot_in_group (some g) p ≡ true)
slots_of none p h = cc
slots_of (some g) p h = (g, refl, h)

and_true : (a b : Bool) → (a && b) ≡ true → (a ≡ true) × (b ≡ true)
and_true a b h = ground arith

can_start→IsStartable :
    (s : InternalState) (task : Task) → can_start s task ≡ true → IsStartable s task
unfolding can_start
can_start→IsStartable s task h =
    let (is_q, rest) = and_true (is_queued_status task.status) _ h in
    let (slot, deps) = and_true (has_slot s task) _ rest in
    let (at, same) = queued_of task.status is_q in
    let (g, grouped, room) = slots_of (get task.group s.groups) (get task.group s.children) slot in
    let (runs, free) = room_of g (get task.group s.children) room in
    record {
      enqueued_at = at;
      is_queued = same;
      group = g;
      grouped = grouped;
      group_runs = runs;
      has_room = free;
      succeeded = λ id t m e.
          succeeded_of (get id s.tasks) t
            (all_of→ (λ i. is_fulfilled (get i s.tasks)) id task.dependencies deps m) e;
    }

IsStartable→can_start :
    (s : InternalState) (task : Task) → IsStartable s task → can_start s task ≡ true
unfolding can_start
IsStartable→can_start s task r =
    let slot = room_in r.group (get task.group s.children) r.group_runs r.has_room in
    let deps =
      all_of-In (λ id. is_fulfilled (get id s.tasks)) task.dependencies
        (λ id m. fulfilled_of (get id s.tasks) (λ t e. r.succeeded id t m e)) in
    rw (r.is_queued, r.grouped, slot) deps

comes_before_asymm : (a b : Task) → comes_before a b ≡ true → comes_before b a ≡ false
comes_before_asymm a b h = ground arith

comes_before_cotrans :
    (a b c : Task) → comes_before a b ≡ false → comes_before b c ≡ false → comes_before a c ≡ false
comes_before_cotrans a b c h k = ground arith

-- `task` goes first: its priority is higher, or as high and its id is no larger.
abbrev pub GoesFirst : Task → Task → Type 0
GoesFirst task other =
    (other.priority <ℤ task.priority) ⊎ ((other.priority ≡ task.priority) × (task.id ≤ other.id))

not_before→GoesFirst : (task other : Task) → comes_before other task ≡ false → GoesFirst task other
not_before→GoesFirst task other h = ground arith

least_of :
    (s : InternalState) (task : Task)
    → head? (sort_by comes_before (potential_tasks s)) ≡ some task
    → In task (values s.tasks)
      × IsStartable s task
      × ((other : Task) → In other (values s.tasks) → IsStartable s other → GoesFirst task other)
least_of s task e =
    let xs = potential_tasks s in
    let mem = In-sort_by comes_before task xs (head?-In (sort_by comes_before xs) task e) in
    let (here, ready) = In-keep (can_start s) task (values s.tasks) mem in
    (
      here,
      can_start→IsStartable s task ready,
      λ other m startable. not_before→GoesFirst task other (
          sort_by-head comes_before comes_before_asymm comes_before_cotrans xs task e other (
            keep-In (can_start s) other (values s.tasks) m
              (IsStartable→can_start s other startable))),
    )

id_of-none : (o : Option Task) → id_of o ≡ none → o ≡ none
id_of-none none e = refl
id_of-none (some t) e = cc

id_of-some :
    (o : Option Task) (id : ℕ) → id_of o ≡ some id → (t : Task) × (o ≡ some t) × (t.id ≡ id)
id_of-some none id e = cc
id_of-some (some t) id e = (t, refl, ground arith)

-- When `get_next_task_id` picks an id, it is the id of a task of the state that is queued, in a
-- running group with a free slot, and whose existing dependencies all succeeded; and no other such
-- task has a higher priority, or the same priority and a lower id.
pub get_next_task_id-some :
    (s : InternalState) (id : ℕ)
    → get_next_task_id s ≡ some id
    → (task : Task) × (task.id ≡ id)
      × In task (values s.tasks)
      × IsStartable s task
      × ((other : Task) → In other (values s.tasks) → IsStartable s other → GoesFirst task other)
unfolding get_next_task_id
get_next_task_id-some s id e =
    let (task, first, same) = id_of-some (head? (sort_by comes_before (potential_tasks s))) id e in
    let (here, ready, best) = least_of s task first in (task, same, here, ready, best)

-- When `get_next_task_id` picks nothing, no task of the state is queued in a running group with a
-- free slot and with all its existing dependencies succeeded.
pub get_next_task_id-none :
    (s : InternalState) (task : Task)
    → get_next_task_id s ≡ none
    → In task (values s.tasks)
    → ¬ IsStartable s task
unfolding get_next_task_id
get_next_task_id-none s task e m startable =
    let xs = potential_tasks s in
    head?-none (sort_by comes_before xs) task (id_of-none _ e) (
      sort_by-In comes_before task xs
        (keep-In (can_start s) task (values s.tasks) m (IsStartable→can_start s task startable)))
