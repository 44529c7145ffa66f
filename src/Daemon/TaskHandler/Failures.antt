-- ===== src/Daemon/TaskHandler/Failures.antt =====
-- The tasks that fail with their dependencies: `check_failed_dependencies` of task_handler.rs.
use pueue.Base.{
  ℕ, ◌≡◌, sym, subst, ◌∙◌, inl, inr, true, false, some, List, [], ◌∷◌, arith, get, get-update, In,
  get→In, any_of, nat_ord, text_ord, ◌==◌, ==→eq, ==_refl, Bool-cases, Option-cases,
}
use pueue.Task.{Task, queued, done, dependency_failed}
use pueue.State.{Tasks, Groups}
use pueue.Daemon.Os.{Os, Settings, for_all}
use pueue.Daemon.Internal.{InternalState}
use pueue.Daemon.Callbacks.{spawn_callback}
use pueue.Daemon.Process.Spares.{spawn_callback-Spares}
use pueue.Daemon.TaskHandler.{
  failed_dependents, has_failed_deps, failed_at, is_paused_group, dependency_failed_status,
  fail_dependent, check_failed_dependencies,
}

callback-groups :
    (os : Os) (settings : Settings) (s : InternalState) (task : Task)
    → (spawn_callback os settings s task).groups ≡ s.groups
unfolding spawn_callback
callback-groups os settings s task = ground arith

fail_dependent-groups :
    (os : Os) (settings : Settings) (s : InternalState) (i : ℕ)
    → (fail_dependent os settings s i).groups ≡ s.groups
unfolding fail_dependent
fail_dependent-groups os settings s i = elim (Option-cases (get i s.tasks)) [
  | inl absent ↦ ground arith
  | inr (t, found) ↦ elim (Option-cases (dependency_failed_status (os.now s.trace) t.status)) [
    | inl other ↦ ground arith
    | inr (status, next) ↦
        ground (arith, callback-groups os settings _ (record t { status = status }))
  ]
]

-- The task as a failed dependency leaves it.
abbrev pub failed_with : Task → (at now : ℕ) → Task
failed_with t at now = record t { status = done at now now dependency_failed }

module _ (os : Os) (settings : Settings) where
  other_task :
      (s : InternalState) (i k : ℕ)
      → (i == k) ≡ false
      → get k (fail_dependent os settings s i).tasks ≡ get k s.tasks
  unfolding fail_dependent
  other_task s i k e = elim (Option-cases (get i s.tasks)) [
    | inl absent ↦ ground arith
    | inr (t, found) ↦ elim (Option-cases (dependency_failed_status (os.now s.trace) t.status)) [
      | inl other ↦ ground arith
      | inr (status, next) ↦ ground (
        arith,
        (spawn_callback-Spares os settings _ (record t { status = status })).spared_tasks,
        get-update k i (λ (u : Task). record u { status = status }) s.tasks,
      )
    ]
  ]

  fails_now :
      (s : InternalState) (k at : ℕ) (t : Task)
      → get k s.tasks ≡ some t
      → t.status ≡ queued at
      → is_paused_group (get t.group s.groups) ≡ false
      → get k (fail_dependent os settings s k).tasks ≡ some (failed_with t at (os.now s.trace))
  unfolding fail_dependent
  fails_now s k at t found e open_group = ground (
    arith,
    (spawn_callback-Spares os settings _ (failed_with t at (os.now s.trace))).spared_tasks,
    get-update k k
        (λ (u : Task). record u {
          status = done at (os.now s.trace) (os.now s.trace) dependency_failed;
        })
        s.tasks,
    ==_refl k,
  )

  stays_failed :
      (s : InternalState) (i k at now : ℕ) (t : Task)
      → get k s.tasks ≡ some (failed_with t at now)
      → get k (fail_dependent os settings s i).tasks ≡ some (failed_with t at now)
  unfolding fail_dependent
  stays_failed s i k at now t found = elim (Bool-cases (i == k)) [
    | inr e ↦ other_task s i k e ∙ found
    | inl e ↦ ground (arith, ==→eq i k e)
  ]

  loop_stays_failed :
      (ids : List ℕ) (s : InternalState) (k at now : ℕ) (t : Task)
      → get k s.tasks ≡ some (failed_with t at now)
      → get k (for_all ids (fail_dependent os settings) s).tasks ≡ some (failed_with t at now)
  unfolding for_all
  loop_stays_failed [] s k at now t found = found
  loop_stays_failed (i ∷ ids) s k at now t found =
      loop_stays_failed ids (fail_dependent os settings s i) k at now t
        (stays_failed s i k at now t found)

  loop_fails :
      (ids : List ℕ) (s : InternalState) (k at : ℕ) (t : Task)
      → In k ids
      → get k s.tasks ≡ some t
      → t.status ≡ queued at
      → is_paused_group (get t.group s.groups) ≡ false
      → (now : ℕ) × (get k (for_all ids (fail_dependent os settings) s).tasks
          ≡ some (failed_with t at now))
  unfolding for_all
  loop_fails [] s k at t m found e open_group = absurd m
  loop_fails (i ∷ ids) s k at t m found e open_group = elim (Bool-cases (i == k)) [
    | inl same ↦
        let first = fails_now s k at t found e open_group in
        let here =
          subst
            (λ j.
              get k (fail_dependent os settings s j).tasks
              ≡ some (failed_with t at (os.now s.trace)))
            (sym (==→eq i k same)) first in
        (
          os.now s.trace,
          loop_stays_failed ids (fail_dependent os settings s i) k at (os.now s.trace) t here,
        )
    | inr different ↦
        loop_fails ids (fail_dependent os settings s i) k at t (ground (arith, ==_refl k))
          (other_task s i k different ∙ found) e
          (subst (λ (gs : Groups). is_paused_group (get t.group gs) ≡ false)
            (sym (fail_dependent-groups os settings s i)) open_group)
  ]

failed_dependents-In :
    (all m : Tasks) (k : ℕ) (t : Task)
    → In (k, t) m
    → has_failed_deps all t ≡ true
    → In k (failed_dependents all m)
unfolding failed_dependents
failed_dependents-In all [] k t m e = absurd m
failed_dependents-In all ((j, u) ∷ m) k t h e = ground (arith, failed_dependents-In all m k t)

-- After `check_failed_dependencies`, each queued task with a failed dependency, in a group that is
-- not paused or does not exist, is done with the result `dependency_failed` and otherwise as it
-- was.
pub check_failed_dependencies-fails :
    (os : Os) (settings : Settings) (s : InternalState) (k at : ℕ) (t : Task)
    → get k s.tasks ≡ some t
    → t.status ≡ queued at
    → any_of (failed_at s.tasks) t.dependencies ≡ true
    → is_paused_group (get t.group s.groups) ≡ false
    → (now : ℕ) × (get k (check_failed_dependencies os settings s).tasks
        ≡ some (failed_with t at now))
unfolding check_failed_dependencies has_failed_deps
check_failed_dependencies-fails os settings s k at t found e broken open_group =
    loop_fails os settings (failed_dependents s.tasks s.tasks) s k at t
      (failed_dependents-In s.tasks s.tasks k t (get→In k t s.tasks found) (ground arith)) found e
      open_group
