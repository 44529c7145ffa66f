-- ===== src/Daemon/Links/Shape.antt =====
-- The bookkeeping of links changes nothing of a task but its dependents.
use mathlib.Core.Option
use pueue.Base.{
  ℕ, ◌≡◌, refl, Option, none, some, List, [], ◌∷◌, arith, get, update, get-update, get-remove, ◌==◌,
  nat_ord, if◌then◌else◌,
}
use pueue.Task.{Task}
use pueue.State.{Tasks}
use pueue.Daemon.Links.{
  set_dependents, drop_dependent, add_dependent, drop_links, add_links, remove_task,
  dependencies_of,
}

-- A task without its dependents.
abbrev pub core : Task → Task
core = set_dependents []

abbrev pub shape : Option Task → Option Task
shape none = none
shape (some task) = some (core task)

shape-map :
    (f : Task → Task) (o : Option Task)
    → ((t : Task) → core (f t) ≡ core t)
    → shape (Option.map f o) ≡ shape o
shape-map f none h = refl
shape-map f (some t) h = ground (arith, h t)

pub shape-update :
    (a k : ℕ) (f : Task → Task) (tasks : Tasks)
    → ((t : Task) → core (f t) ≡ core t)
    → shape (get a (update k f tasks)) ≡ shape (get a tasks)
shape-update a k f tasks h = ground (arith, get-update a k f tasks, shape-map f (get a tasks) h)

core-drop_dependent : (id : ℕ) (t : Task) → core (drop_dependent id t) ≡ core t
unfolding drop_dependent
core-drop_dependent id t = refl

core-add_dependent : (id : ℕ) (t : Task) → core (add_dependent id t) ≡ core t
unfolding add_dependent
core-add_dependent id t = ground arith

pub shape-drop_links :
    (a id : ℕ) (ids : List ℕ) (tasks : Tasks)
    → shape (get a (drop_links id ids tasks)) ≡ shape (get a tasks)
unfolding drop_links
shape-drop_links a id [] tasks = refl
shape-drop_links a id (d ∷ ids) tasks = ground (
  arith,
  shape-drop_links a id ids (update d (drop_dependent id) tasks),
  shape-update a d (drop_dependent id) tasks (core-drop_dependent id),
)

pub shape-add_links :
    (a id : ℕ) (ids : List ℕ) (tasks : Tasks)
    → shape (get a (add_links id ids tasks)) ≡ shape (get a tasks)
unfolding add_links
shape-add_links a id [] tasks = refl
shape-add_links a id (d ∷ ids) tasks = ground (
  arith,
  shape-add_links a id ids (update d (add_dependent id) tasks),
  shape-update a d (add_dependent id) tasks (core-add_dependent id),
)

pub shape-remove_task :
    (a id : ℕ) (tasks : Tasks)
    → shape (get a (remove_task id tasks)) ≡ (if id == a then none else shape (get a tasks))
unfolding remove_task
shape-remove_task a id tasks =
    let ids = dependencies_of (get id tasks) in
    ground (arith, get-remove a id (drop_links id ids tasks), shape-drop_links a id ids tasks)
