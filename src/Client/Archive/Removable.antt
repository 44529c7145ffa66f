-- ===== src/Client/Archive/Removable.antt =====
-- The tasks that are archived are tasks that the daemon removes.
use pueue.Base.{
  In-values, ℕ, zero, suc, ◌≤◌, ◌<◌, ◌≡◌, ◌≢◌, ◌⊎◌, inl, inr, refl, sym, subst, true, false, Option,
  none, some, List, [], ◌∷◌, ◌++◌, keys, values, get, remove, contains_key, is_some, keep-In,
  In-keep, In→any_of, contains, In→contains, contains→In, length, In, get→In, nat_ord, Bool-cases,
  arith,
}
use pueue.Task.{Task, is_done}
use pueue.State.{State, Tasks}
use pueue.Daemon.Internal.{unfinished, is_unfinished, dependents_of, is_task_removable}
use pueue.Daemon.Internal.Removable.{Waits, Descends, direct, through, In→removable}
use pueue.Daemon.Links.{dependencies_of}
use pueue.Daemon.Links.Consistent.{IsLinked}
use pueue.Daemon.Ordered.{IsOrdered, IsOrdered→IsKeyed}
use pueue.Client.Archive.{
  blocks, has_blocking_dependant, remove_each, to_remove, drop_blocked, status_ok_of,
  archivable_tasks,
}

length-remove_le : (k : ℕ) (m : Tasks) → length (remove k m) ≤ length m
unfolding remove
length-remove_le k [] = omega arith
length-remove_le k ((j, t) ∷ m) = ground (arith, length-remove_le k m)

length-remove_lt : (k : ℕ) (m : Tasks) → contains_key k m ≡ true → length (remove k m) < length m
unfolding remove get
length-remove_lt k [] h = absurd (cc h)
length-remove_lt k ((j, t) ∷ m) h = ground (arith, length-remove_lt k m, length-remove_le k m)

length-remove_each_le :
    (ids : List ℕ) (m : Tasks) (blocked : List ℕ)
    → length (remove_each ids (m, blocked)).0 ≤ length m
unfolding remove_each
length-remove_each_le [] m blocked = omega arith
length-remove_each_le (id ∷ ids) m blocked = ground (
  arith,
  length-remove_each_le ids (remove id m) (blocked ++ (id ∷ [])),
  length-remove_each_le ids m blocked,
  length-remove_le id m,
)

contains_key-In : (k : ℕ) (m : Tasks) → In k (keys m) → contains_key k m ≡ true
unfolding get
contains_key-In k [] i = absurd i
contains_key-In k ((j, t) ∷ m) i = ground (arith, contains_key-In k m)

-- A round that is not the last one takes a task out.
round-shrinks :
    (tasks m : Tasks) (blocked : List ℕ) (id : ℕ) (ids : List ℕ)
    → to_remove tasks m ≡ id ∷ ids
    → length (remove_each (id ∷ ids) (m, blocked)).0 < length m
unfolding remove_each
round-shrinks tasks m blocked id ids e =
    let there : In id (to_remove tasks m) = subst (λ l. In id l) (sym e) (inl refl) in
    let key =
      contains_key-In id m
        (In-keep (λ i. has_blocking_dependant i tasks (keys m)) id (keys m) there).0 in
    rw (key, remove_each)
      (omega (
        arith,
        length-remove_lt id m key,
        length-remove_each_le ids (remove id m) (blocked ++ (id ∷ [])),
      ))

-- What is left has no dependant that still needs it.
abbrev pub IsClosed : Tasks → Option (Tasks × List ℕ) → Type 0
IsClosed tasks none = ⊥
IsClosed tasks (some (m, blocked)) = to_remove tasks m ≡ []

List-cases : (xs : List ℕ) → (xs ≡ []) ⊎ ((x : ℕ) × (rest : List ℕ) × (xs ≡ x ∷ rest))
List-cases [] = inl refl
List-cases (x ∷ xs) = inr (x, xs, refl)

drop_blocked-IsClosed :
    (fuel : ℕ) (tasks m : Tasks) (blocked : List ℕ)
    → length m < fuel
    → IsClosed tasks (drop_blocked fuel tasks (m, blocked))
unfolding drop_blocked
drop_blocked-IsClosed zero tasks m blocked h = absurd (omega arith)
drop_blocked-IsClosed (suc fuel) tasks m blocked h = elim (List-cases (to_remove tasks m)) [
  | inl none_left ↦ rw (none_left, drop_blocked) none_left
  | inr (id, ids, found) ↦
      let next = remove_each (id ∷ ids) (m, blocked) in
      rw (found, drop_blocked)
        (drop_blocked-IsClosed fuel tasks next.0 next.1
          (omega (arith, round-shrinks tasks m blocked id ids found)))
]

In-unfinished :
    (tasks : Tasks) (ids : List ℕ) (b : ℕ)
    → In b (unfinished tasks ids)
    → In b ids × (is_unfinished (get b tasks) ≡ true)
unfolding unfinished
In-unfinished tasks [] b w = absurd w
In-unfinished tasks (id ∷ ids) b w = ground (arith, In-unfinished tasks ids b)

unfinished_task :
    (o : Option Task) → is_unfinished o ≡ true → (t : Task) × (o ≡ some t) × (is_done t ≡ false)
unfinished_task none h = cc
unfinished_task (some t) h = (t, refl, ground arith)

is_some-of_dependent : (o : Option Task) (b : ℕ) → In b (dependents_of o) → is_some o ≡ true
is_some-of_dependent none b w = absurd w
is_some-of_dependent (some t) b w = refl

module _ (tasks : Tasks) (linked : IsLinked tasks) (ordered : IsOrdered tasks) where
  -- An unfinished dependant of a task that is left is left as well.
  closed_step :
      (m : Tasks) (a b : ℕ)
      → to_remove tasks m ≡ []
      → In a (keys m)
      → Waits tasks a b
      → In b (keys m)
  unfolding has_blocking_dependant
  closed_step m a b nothing there w =
      let (dependent, open_task) = In-unfinished tasks (dependents_of (get a tasks)) b w in
      let (t, found, not_done) = unfinished_task (get b tasks) open_task in
      let names : In a (dependencies_of (get b tasks)) =
        (linked b a (is_some-of_dependent (get a tasks) b dependent)).1 dependent in
      let needs : In a t.dependencies = subst (λ o. In a (dependencies_of o)) found names in
      let entry = get→In b t tasks found in
      let keyed : t.id ≡ b = IsOrdered→IsKeyed tasks ordered b t entry in
      elim (Bool-cases (contains (keys m) b)) [
        | inl inside ↦ contains→In (keys m) b inside
        | inr outside ↦
            let blocking : blocks a (keys m) t ≡ true =
              ground (arith, In→contains t.dependencies a needs, not_done, keyed, outside) in
            let hit =
              In→any_of (blocks a (keys m)) t (values tasks) (In-values b t tasks entry) blocking in
            absurd (
              subst (λ l. In a l) nothing
                (keep-In (λ id. has_blocking_dependant id tasks (keys m)) a (keys m) there hit))
      ]

  closed_descent :
      (m : Tasks) (a b : ℕ)
      → to_remove tasks m ≡ []
      → In a (keys m)
      → Descends tasks a b
      → In b (keys m)
  closed_descent m a b nothing there (direct w) = closed_step m a b nothing there w
  closed_descent m a b nothing there (through {b = c} w d) =
      closed_descent m c b nothing (closed_step m a c nothing there w) d

-- The daemon refuses none of the tasks.
abbrev pub AllRemovable : Tasks → Option (Tasks × List ℕ) → Type 0
AllRemovable tasks none = ⊥
AllRemovable tasks (some (m, blocked)) =
    (fuel id : ℕ) → In id (keys m) → is_task_removable fuel tasks id (keys m) ≢ some false

AllRemovable-of_closed :
    (tasks : Tasks) (o : Option (Tasks × List ℕ))
    → IsLinked tasks
    → IsOrdered tasks
    → IsClosed tasks o
    → AllRemovable tasks o
AllRemovable-of_closed tasks none linked ordered closed = closed
AllRemovable-of_closed tasks (some (m, blocked)) linked ordered closed = λ fuel id there.
    In→removable tasks (keys m) fuel id
      (λ b d. closed_descent tasks linked ordered m id b closed there d)

-- If the dependents of the tasks are exact and the tasks are in the order of their ids, then the
-- choice of the tasks to archive ends, and the daemon's `is_task_removable` refuses none of them
-- when it is asked to remove them together.
pub archivable_tasks-AllRemovable :
    (state : State) (task_ids : List ℕ)
    → IsLinked state.tasks
    → IsOrdered state.tasks
    → AllRemovable state.tasks (archivable_tasks state task_ids)
unfolding archivable_tasks
archivable_tasks-AllRemovable state task_ids linked ordered =
    let start = status_ok_of state task_ids in
    AllRemovable-of_closed state.tasks _ linked ordered
      (drop_blocked-IsClosed (suc (length start.0)) state.tasks start.0 start.1 (omega arith))
