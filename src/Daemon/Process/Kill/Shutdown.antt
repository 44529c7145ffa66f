-- ===== src/Daemon/Process/Kill/Shutdown.antt =====
-- The shutdown of process_handler/mod.rs, which `kill` (process_handler/kill.rs) starts and is
-- started by.
use pueue.Base.{
  ℕ, String, ◌≡◌, refl, sym, ap, ◌∙◌, inl, inr, Bool, false, Option, none, some, List, [], ◌∷◌,
  arith, get, keys, text_ord, In, if◌then◌else◌, Option-cases, Bool-cases,
}
use pueue.State.{GroupStatus}
use pueue.Message.{TaskSelection, Signal, ShutdownRequest}
use pueue.Daemon.Os.{Os, Child, killed_child, for_all}
use pueue.Daemon.Workers.Search.{get_child-some}
use pueue.Daemon.Workers.{all_task_ids, get_child}
use pueue.Daemon.Internal.{InternalState, set_status_for_all_groups, save}
use pueue.Daemon.Process.Signals.{kill_task}
use pueue.Daemon.Process.Kill.{
  should_pause_group, kill_targets, kill_one, kill_with, save_or, initiate_shutdown, kill,
  save_or_shutdown,
}
use pueue.Daemon.Process.Kill.Follows.{
  limit_of, Follows, Follows-refl, Follows-trans, for_all-Follows, kill_one-Follows, save-Follows,
  kill_targets-Follows, save_or-Follows,
}

-- A kill records the kill of every child that it is asked for.
kill_one-records :
    (os : Os) (s : InternalState) (id : ℕ) (c : Child)
    → get_child s.children id ≡ some c
    → In (killed_child c) (kill_one os none s id).trace
unfolding kill_one kill_task
kill_one-records os s id c e = ground arith

kills_all :
    (os : Os) (ids : List ℕ) (s : InternalState) (id : ℕ) (c : Child)
    → In id ids
    → get_child s.children id ≡ some c
    → In (killed_child c) (for_all ids (kill_one os none) s).trace
unfolding for_all
kills_all os [] s id c m e = absurd m
kills_all os (i ∷ ids) s id c (inl here) e =
    (for_all-Follows (kill_one os none) (kill_one-Follows os none) ids
        (kill_one os none s i)).keeps_effects
      (killed_child c) (kill_one-records os s i c (rw here at e))
kills_all os (i ∷ ids) s id c (inr m) e =
    kills_all os ids (kill_one os none s i) id c m
      (ap (λ x. get_child x id) (kill_one-Follows os none s i).same_children ∙ e)

-- Any code that leaves a state with a shutdown alone does nothing in a save under a shutdown.
save_or-eq :
    (os : Os) (s : InternalState) (req : ShutdownRequest)
    → s.shutdown ≡ some req
    → save_or (λ t. initiate_shutdown os t ShutdownRequest.emergency) os s ≡ save_or (λ t. t) os s
unfolding initiate_shutdown
save_or-eq os s req e = ground (arith, (save-Follows os s).same_shutdown ∙ e)

kill_all-records :
    (os : Os) (s : InternalState) (id : ℕ) (c : Child)
    → In id (all_task_ids s.children)
    → get_child s.children id ≡ some c
    → In (killed_child c) (kill_with (λ t. t) os s TaskSelection.all false none).trace
unfolding kill_with kill_targets
kill_all-records os s id c m e =
    let s' =
      for_all (keys s.groups)
        (λ t name.
          if should_pause_group t false name
          then set_status_for_all_groups t GroupStatus.paused
          else t)
        s in
    let f = kill_targets-Follows s TaskSelection.all false (all_task_ids s'.children) s' refl in
    let same = f.same_children in
    (save_or-Follows os (for_all (all_task_ids s'.children) (kill_one os none) s')).keeps_effects
      (killed_child c) (kills_all os (all_task_ids s'.children) s' id c (rw same m) (rw same e))

kill-eq :
    (os : Os) (s : InternalState) (tasks : TaskSelection) (user : Bool) (signal : Option Signal)
    (req : ShutdownRequest)
    → s.shutdown ≡ some req
    → kill os s tasks user signal ≡ kill_with (λ t. t) os s tasks user signal
unfolding kill kill_with
kill-eq os s tasks user signal req e = elim (Option-cases (kill_targets s tasks user)) [
  | inl unknown ↦ rw (unknown, kill, kill_with) refl
  | inr ((ids, s'), found) ↦
      let f =
        Follows-trans (kill_targets-Follows s tasks user ids s' found)
          (for_all-Follows (kill_one os signal) (kill_one-Follows os signal) ids s') in
      rw (found, kill, kill_with)
        (save_or-eq os (for_all ids (kill_one os signal) s') req (f.same_shutdown ∙ e))
]

-- `initiate_shutdown`, as modelled by a kill in which a nested shutdown does nothing, satisfies
-- the equation of the source: it does nothing if a shutdown is under way, and otherwise records
-- the request and calls `kill`, which may call it again.
initiate_shutdown-eq :
    (os : Os) (s : InternalState) (req : ShutdownRequest)
    → initiate_shutdown os s req ≡ elim s.shutdown [
      | some _ ↦ s
      | none ↦ kill os (record s { shutdown = some req }) TaskSelection.all false none
    ]
unfolding initiate_shutdown
initiate_shutdown-eq os s req =
    let under =
      kill-eq os (record s { shutdown = some req }) TaskSelection.all false none req refl in
    elim (Option-cases s.shutdown) [
      | inl absent ↦ rw (absent, initiate_shutdown) (sym under)
      | inr (r, found) ↦ rw (found, initiate_shutdown) refl
    ]

-- A shutdown, when none is under way, records the kill of the child of each task that has a
-- worker.
pub initiate_shutdown-kills :
    (os : Os) (s : InternalState) (req : ShutdownRequest) (id : ℕ)
    → s.shutdown ≡ none
    → In id (all_task_ids s.children)
    → (c : Child) × (get_child s.children id ≡ some c)
      × In (killed_child c) (initiate_shutdown os s req).trace
unfolding initiate_shutdown
initiate_shutdown-kills os s req id absent m =
    let (c, found) = get_child-some s.children id m in
    (
      c,
      found,
      rw (absent, initiate_shutdown)
          (kill_all-records os (record s { shutdown = some req }) id c m found),
    )

-- What a shutdown leaves as it was: the tasks, the limits of the groups and the pools.
pub record Spares (s t : InternalState) : Type 0 where
  pub spared_tasks : t.tasks ≡ s.tasks
  pub spared_limits : (g : String) → limit_of (get g t.groups) ≡ limit_of (get g s.groups)
  pub spared_children : t.children ≡ s.children

Spares-of : {s t : InternalState} → Follows s t → Spares s t
Spares-of f = record {
  spared_tasks = f.same_tasks;
  spared_limits = f.same_limits;
  spared_children = f.same_children;
}

kill_with-Follows :
    (os : Os) (s : InternalState) (tasks : TaskSelection) (user : Bool) (signal : Option Signal)
    → Follows s (kill_with (λ t. t) os s tasks user signal)
unfolding kill_with
kill_with-Follows os s tasks user signal = elim (Option-cases (kill_targets s tasks user)) [
  | inl unknown ↦ rw (unknown, kill_with) (Follows-refl s)
  | inr ((ids, s'), found) ↦
      rw (found, kill_with)
        (Follows-trans (kill_targets-Follows s tasks user ids s' found) (
          Follows-trans (for_all-Follows (kill_one os signal) (kill_one-Follows os signal) ids s')
            (save_or-Follows os (for_all ids (kill_one os signal) s'))))
]

pub initiate_shutdown-Spares :
    (os : Os) (s : InternalState) (req : ShutdownRequest) → Spares s (initiate_shutdown os s req)
unfolding initiate_shutdown
initiate_shutdown-Spares os s req = elim (Option-cases s.shutdown) [
  | inr (r, found) ↦
      rw (found, initiate_shutdown)
        (record { spared_tasks = refl; spared_limits = λ g. refl; spared_children = refl })
  | inl absent ↦
      rw (absent, initiate_shutdown)
        (of none
          (kill_with-Follows os (record s { shutdown = some req }) TaskSelection.all false none))
]
  where
    of :
        (o : Option ShutdownRequest) {t : InternalState}
        → Follows (record s { shutdown = some req }) t
        → Spares (record s { shutdown = o }) t
    of o f = record {
      spared_tasks = f.same_tasks;
      spared_limits = f.same_limits;
      spared_children = f.same_children;
    }

pub save_or_shutdown-Spares : (os : Os) (s : InternalState) → Spares s (save_or_shutdown os s)
unfolding save_or_shutdown
save_or_shutdown-Spares os s =
    let f = save-Follows os s in
    let g = initiate_shutdown-Spares os (save os s).0 ShutdownRequest.emergency in
    elim (Bool-cases (save os s).1) [
      | inl written ↦ rw (written, save_or_shutdown) (Spares-of f)
      | inr failed ↦
          rw (failed, save_or_shutdown)
            (record {
              spared_tasks = g.spared_tasks ∙ f.same_tasks;
              spared_limits = λ x. g.spared_limits x ∙ f.same_limits x;
              spared_children = g.spared_children ∙ f.same_children;
            })
    ]
