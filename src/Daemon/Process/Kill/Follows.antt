-- ===== src/Daemon/Process/Kill/Follows.antt =====
-- What a kill (process_handler/kill.rs) leaves as it was.
use pueue.Base.{
  ℕ, String, ◌≡◌, refl, ap, subst, ◌∙◌, inl, inr, Bool, Option, none, some, List, [], ◌∷◌, arith,
  get, keys, contains_key, text_ord, get-update, get-map_values, map_values, update, In,
  if◌then◌else◌, Bool-cases,
}
use mathlib.Core.Option
use pueue.State.{Group, GroupStatus, Groups}
use pueue.Message.{TaskSelection, Signal}
use pueue.Daemon.Os.{Os, Effect, for_all}
use pueue.Daemon.Internal.{InternalState, set_status_for_all_groups, save, set_group_status}
use pueue.Daemon.Process.Signals.{kill_task, send_internal_signal}
use pueue.Daemon.Process.Kill.{pause_group, should_pause_group, kill_targets, kill_one, save_or}

-- The limit on the parallel tasks of a group.
abbrev pub limit_of : Option Group → Option ℕ
limit_of none = none
limit_of (some group) = some group.parallel_tasks

-- What a kill keeps: the tasks, the limits of the groups, the pools and the shutdown under way, and the effects so far.
pub record Follows (s t : InternalState) : Type 0 where
  pub same_tasks : t.tasks ≡ s.tasks
  pub same_limits : (g : String) → limit_of (get g t.groups) ≡ limit_of (get g s.groups)
  pub same_children : t.children ≡ s.children
  pub same_shutdown : t.shutdown ≡ s.shutdown
  pub keeps_effects : (e : Effect) → In e s.trace → In e t.trace

pub Follows-refl : (s : InternalState) → Follows s s
Follows-refl s = record {
  same_tasks = refl;
  same_limits = λ g. refl;
  same_children = refl;
  same_shutdown = refl;
  keeps_effects = λ e m. m;
}

pub Follows-trans : {s t u : InternalState} → Follows s t → Follows t u → Follows s u
Follows-trans f g = record {
  same_tasks = g.same_tasks ∙ f.same_tasks;
  same_limits = λ x. g.same_limits x ∙ f.same_limits x;
  same_children = g.same_children ∙ f.same_children;
  same_shutdown = g.same_shutdown ∙ f.same_shutdown;
  keeps_effects = λ e m. g.keeps_effects e (f.keeps_effects e m);
}

pub for_all-Follows :
    {A : Type 0} (f : InternalState → A → InternalState)
    → ((s : InternalState) (a : A) → Follows s (f s a))
    → (xs : List A) (s : InternalState) → Follows s (for_all xs f s)
unfolding for_all
for_all-Follows f h [] s = Follows-refl s
for_all-Follows f h (a ∷ xs) s = Follows-trans (h s a) (for_all-Follows f h xs (f s a))

pub kill_one-Follows :
    (os : Os) (signal : Option Signal) (s : InternalState) (id : ℕ)
    → Follows s (kill_one os signal s id)
unfolding kill_one kill_task send_internal_signal
kill_one-Follows os none s id = record {
  same_tasks = ground arith;
  same_limits = λ g. ground arith;
  same_children = ground arith;
  same_shutdown = ground arith;
  keeps_effects = λ e m. ground arith;
}
kill_one-Follows os (some signal) s id = record {
  same_tasks = ground arith;
  same_limits = λ g. ground arith;
  same_children = ground arith;
  same_shutdown = ground arith;
  keeps_effects = λ e m. ground arith;
}

pub save-Follows : (os : Os) (s : InternalState) → Follows s (save os s).0
unfolding save
save-Follows os s = record {
  same_tasks = ground arith;
  same_limits = λ g. ground arith;
  same_children = ground arith;
  same_shutdown = ground arith;
  keeps_effects = λ e m. ground arith;
}

limit_of-map :
    (f : Group → Group) (o : Option Group)
    → ((g : Group) → (f g).parallel_tasks ≡ g.parallel_tasks)
    → limit_of (Option.map f o) ≡ limit_of o
limit_of-map f none h = refl
limit_of-map f (some g) h = ap some (h g)

pub limits-set_all :
    (g : String) (status : GroupStatus) (groups : Groups)
    → limit_of (get g (map_values (λ (_ : String). set_group_status status) groups))
      ≡ limit_of (get g groups)
limits-set_all g status groups = ground (
  arith,
  get-map_values g (λ (_ : String). set_group_status status) groups,
  limit_of-map (set_group_status status) (get g groups) (λ x. refl),
)

pub limits-set :
    (g name : String) (status : GroupStatus) (groups : Groups)
    → limit_of (get g (update name (set_group_status status) groups)) ≡ limit_of (get g groups)
limits-set g name status groups = ground (
  arith,
  get-update g name (set_group_status status) groups,
  limit_of-map (set_group_status status) (get g groups) (λ x. refl),
)

pausing-Follows :
    (user : Bool) (s : InternalState) (name : String)
    → Follows s (
        if should_pause_group s user name
        then set_status_for_all_groups s GroupStatus.paused
        else s)
unfolding set_status_for_all_groups
pausing-Follows user s name = record {
  same_tasks = ground arith;
  same_limits = λ g. ground (arith, limits-set_all g GroupStatus.paused s.groups);
  same_children = ground arith;
  same_shutdown = ground arith;
  keeps_effects = λ e m. ground arith;
}

some-path : {A : Type 0} {a b : A} → some a ≡ some b → a ≡ b
some-path e = cc

some-snd : {A B : Type 0} {p : A × B} {c : A} {d : B} → some p ≡ some (c, d) → p.1 ≡ d
some-snd e = ap (λ q. q.1) (some-path e)

group_pausing-Follows :
    (user : Bool) (s : InternalState) (name : String)
    → Follows s (if should_pause_group s user name then pause_group name s else s)
group_pausing-Follows user s name = record {
  same_tasks = ground arith;
  same_limits = λ g. ground (arith, limits-set g name GroupStatus.paused s.groups);
  same_children = ground arith;
  same_shutdown = ground arith;
  keeps_effects = λ e m. ground arith;
}

pub kill_targets-Follows :
    (s : InternalState) (tasks : TaskSelection) (user : Bool) (ids : List ℕ) (s' : InternalState)
    → kill_targets s tasks user ≡ some (ids, s')
    → Follows s s'
unfolding kill_targets
kill_targets-Follows s (TaskSelection.task_ids _) user ids s' e =
    subst (Follows s) (some-snd e) (Follows-refl s)
kill_targets-Follows s (TaskSelection.group name) user ids s' e =
    elim (Bool-cases (contains_key name s.groups)) [
      | inl known ↦ subst (Follows s) (some-snd (rw known at e)) (group_pausing-Follows user s name)
      | inr unknown ↦ cc
    ]
kill_targets-Follows s TaskSelection.all user ids s' e =
    subst (Follows s) (some-snd e) (for_all-Follows _ (pausing-Follows user) (keys s.groups) s)

-- The save at the end of a kill, when a shutdown is under way.
pub save_or-Follows : (os : Os) (s : InternalState) → Follows s (save_or (λ t. t) os s)
save_or-Follows os s = record {
  same_tasks = ground (arith, (save-Follows os s).same_tasks);
  same_limits = λ g. ground (arith, (save-Follows os s).same_limits g);
  same_children = ground (arith, (save-Follows os s).same_children);
  same_shutdown = ground (arith, (save-Follows os s).same_shutdown);
  keeps_effects = λ e m. ground (arith, (save-Follows os s).keeps_effects e m);
}
