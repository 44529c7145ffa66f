-- ===== src/Daemon/Ordered.antt =====
-- The order of the tasks in the daemon's state (`BTreeMap<usize, Task>` of pueue_lib/src/state.rs):
-- their keys grow, and each is the id of its task.
pub mod Processes
pub mod Requests
pub mod Loop
use pueue.Base.{
  ℕ, suc, ◌≤◌, ◌<◌, ◌≡◌, refl, sym, ap, subst, ◌∙◌, Bool, Option, none, some, List, [], ◌∷◌, arith,
  From, IsAscending, get, insert, update, remove, map_values, retain, last_key, In, inl, inr,
  nat_ord, ==→eq,
}
use pueue.Task.{Task}
use pueue.State.{Tasks}
use pueue.Message.{Response}
use pueue.Daemon.Os.{Outcome, finished, panicked, ◌>>=◌, for_each, for_all}
use pueue.Daemon.Internal.{InternalState}
use pueue.Daemon.Process.Kill.Shutdown.{Spares}
use pueue.Daemon.Process.Spawn.Limits.{IsKeyed}

abbrev pub OrderedFrom : ℕ → Tasks → Type 0
OrderedFrom low [] = Unit {0}
OrderedFrom low ((k, task) ∷ m) = ((low ≤ k) × (task.id ≡ k)) × OrderedFrom (suc k) m

unfoldable pub IsOrdered : Tasks → Type 0
IsOrdered tasks = OrderedFrom 0 tasks

OrderedFrom→From : (low : ℕ) (m : Tasks) → OrderedFrom low m → From low m
OrderedFrom→From low [] o = tt
OrderedFrom→From low ((k, task) ∷ m) o = (o.0.0, OrderedFrom→From (suc k) m o.1)

OrderedFrom→keyed :
    (low k : ℕ) (task : Task) (m : Tasks) → OrderedFrom low m → In (k, task) m → task.id ≡ k
OrderedFrom→keyed low k task [] o i = absurd i
OrderedFrom→keyed low k task ((j, u) ∷ m) o i =
    ground (arith, OrderedFrom→keyed (suc j) k task m o.1)

pub IsOrdered→IsAscending : (tasks : Tasks) → IsOrdered tasks → IsAscending tasks
unfolding IsOrdered
IsOrdered→IsAscending tasks o = OrderedFrom→From 0 tasks o

pub IsOrdered→IsKeyed : (tasks : Tasks) → IsOrdered tasks → IsKeyed tasks
unfolding IsOrdered
IsOrdered→IsKeyed tasks o k t i = OrderedFrom→keyed 0 k t tasks o i

OrderedFrom-mono : (low high : ℕ) (m : Tasks) → low ≤ high → OrderedFrom high m → OrderedFrom low m
OrderedFrom-mono low high [] h o = tt
OrderedFrom-mono low high ((k, task) ∷ m) h o = ((omega arith, o.0.1), o.1)

insert-OrderedFrom :
    (k low : ℕ) (task : Task) (m : Tasks)
    → low ≤ k
    → task.id ≡ k
    → OrderedFrom low m
    → OrderedFrom low (insert k task m)
unfolding insert
insert-OrderedFrom k low task [] h e o = ((h, e), tt)
insert-OrderedFrom k low task ((j, u) ∷ m) h e o =
    ground (arith, insert-OrderedFrom k (suc j) task m)

update-OrderedFrom :
    (k low : ℕ) (f : Task → Task) (m : Tasks)
    → ((task : Task) → (f task).id ≡ task.id)
    → OrderedFrom low m
    → OrderedFrom low (update k f m)
unfolding update
update-OrderedFrom k low f [] h o = tt
update-OrderedFrom k low f ((j, u) ∷ m) h o =
    ground (arith, h u, update-OrderedFrom k (suc j) f m h o.1)

remove-OrderedFrom : (k low : ℕ) (m : Tasks) → OrderedFrom low m → OrderedFrom low (remove k m)
unfolding remove
remove-OrderedFrom k low [] o = tt
remove-OrderedFrom k low ((j, u) ∷ m) o =
    ground (arith, remove-OrderedFrom k (suc j) m o.1, OrderedFrom-mono low (suc j) (remove k m))

map_values-OrderedFrom :
    (low : ℕ) (f : ℕ → Task → Task) (m : Tasks)
    → ((k : ℕ) (task : Task) → (f k task).id ≡ task.id)
    → OrderedFrom low m
    → OrderedFrom low (map_values f m)
unfolding map_values
map_values-OrderedFrom low f [] h o = tt
map_values-OrderedFrom low f ((j, u) ∷ m) h o =
    ((o.0.0, h j u ∙ o.0.1), map_values-OrderedFrom (suc j) f m h o.1)

retain-OrderedFrom :
    (low : ℕ) (p : ℕ → Task → Bool) (m : Tasks) → OrderedFrom low m → OrderedFrom low (retain p m)
unfolding retain
retain-OrderedFrom low p [] o = tt
retain-OrderedFrom low p ((j, u) ∷ m) o =
    ground (arith, retain-OrderedFrom (suc j) p m o.1, OrderedFrom-mono low (suc j) (retain p m))

pub []-IsOrdered : IsOrdered []
unfolding IsOrdered
[]-IsOrdered = tt

pub insert-IsOrdered :
    (k : ℕ) (task : Task) (m : Tasks) → task.id ≡ k → IsOrdered m → IsOrdered (insert k task m)
unfolding IsOrdered
insert-IsOrdered k task m e o = insert-OrderedFrom k 0 task m (omega arith) e o

pub update-IsOrdered :
    (k : ℕ) (f : Task → Task) (m : Tasks)
    → ((task : Task) → (f task).id ≡ task.id)
    → IsOrdered m
    → IsOrdered (update k f m)
unfolding IsOrdered
update-IsOrdered k f m h o = update-OrderedFrom k 0 f m h o

pub remove-IsOrdered : (k : ℕ) (m : Tasks) → IsOrdered m → IsOrdered (remove k m)
unfolding IsOrdered
remove-IsOrdered k m o = remove-OrderedFrom k 0 m o

pub map_values-IsOrdered :
    (f : ℕ → Task → Task) (m : Tasks)
    → ((k : ℕ) (task : Task) → (f k task).id ≡ task.id)
    → IsOrdered m
    → IsOrdered (map_values f m)
unfolding IsOrdered
map_values-IsOrdered f m h o = map_values-OrderedFrom 0 f m h o

pub retain-IsOrdered : (p : ℕ → Task → Bool) (m : Tasks) → IsOrdered m → IsOrdered (retain p m)
unfolding IsOrdered
retain-IsOrdered p m o = retain-OrderedFrom 0 p m o

-- The order of a state, and of what a run that may panic leaves.
abbrev pub InOrder : InternalState → Type 0
InOrder s = IsOrdered s.tasks

abbrev pub Leaves : Outcome InternalState → Type 0
Leaves panicked = Unit {0}
Leaves (finished s) = InOrder s

abbrev pub Answers : Outcome (InternalState × Response) → Type 0
Answers panicked = Unit {0}
Answers (finished (s, response)) = InOrder s

pub Leaves-of :
    (m : Outcome InternalState) → ((s : InternalState) → m ≡ finished s → InOrder s) → Leaves m
Leaves-of panicked h = tt
Leaves-of (finished s) h = h s refl

pub >>=-Leaves :
    (m : Outcome InternalState) (f : InternalState → Outcome InternalState)
    → Leaves m
    → ((s : InternalState) → InOrder s → Leaves (f s))
    → Leaves (m >>= f)
>>=-Leaves panicked f h g = tt
>>=-Leaves (finished s) f h g = g s h

pub >>=-Answers :
    (m : Outcome InternalState) (f : InternalState → Outcome (InternalState × Response))
    → Leaves m
    → ((s : InternalState) → InOrder s → Answers (f s))
    → Answers (m >>= f)
>>=-Answers panicked f h g = tt
>>=-Answers (finished s) f h g = g s h

pub for_each-Leaves :
    {A : Type 0} (f : InternalState → A → Outcome InternalState)
    → ((s : InternalState) (a : A) → InOrder s → Leaves (f s a))
    → (xs : List A) (s : InternalState) → InOrder s
    → Leaves (for_each xs f s)
unfolding for_each
for_each-Leaves f h [] s o = o
for_each-Leaves f h (a ∷ xs) s o =
    >>=-Leaves (f s a) (λ s'. for_each xs f s') (h s a o) (for_each-Leaves f h xs)

pub for_all-InOrder :
    {A : Type 0} (f : InternalState → A → InternalState)
    → ((s : InternalState) (a : A) → InOrder s → InOrder (f s a))
    → (xs : List A) (s : InternalState) → InOrder s
    → InOrder (for_all xs f s)
unfolding for_all
for_all-InOrder f h [] s o = o
for_all-InOrder f h (a ∷ xs) s o = for_all-InOrder f h xs (f s a) (h s a o)

pub Spares-InOrder : {s t : InternalState} → Spares s t → InOrder s → InOrder t
Spares-InOrder f o = subst IsOrdered (sym f.spared_tasks) o
