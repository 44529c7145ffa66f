-- ===== src/Daemon/Ordered/Loop/Settled.antt =====
-- A round of the task handler (pueue/src/daemon/task_handler.rs) ends, and leaves no task behind that
-- could start.
use pueue.Base.{
  ℕ, suc, ◌≡◌, refl, ap, ◌∙◌, ◌⊎◌, true, Option, none, some, inl, inr, Option-cases, is_some, arith,
}
use pueue.Message.{ShutdownRequest}
use pueue.Daemon.Os.{Os, Settings, Outcome, finished, panicked, ◌>>=◌, Outcome-cases}
use pueue.Daemon.Internal.{InternalState}
use pueue.Daemon.Callbacks.{check_callbacks}
use pueue.Daemon.Process.Finish.{handle_finished_tasks}
use pueue.Daemon.Process.Spawn.{get_next_task_id, spawn_loop}
use pueue.Daemon.Process.Spawn.Dequeued.{queued_count}
use pueue.Daemon.Process.Spawn.Rounds.{IsExhausted, spawn_loop-ends}
use pueue.Daemon.TaskHandler.{
  Round, continues, exits, round, reset_group, handle_group_resets, groups_to_reset,
  enqueue_delayed_tasks, failed_dependents, fail_dependent, check_failed_dependencies,
  shutdown_round, handle_shutdown,
}
use pueue.Daemon.Ordered.{InOrder, IsOrdered→IsAscending, IsOrdered→IsKeyed, for_all-InOrder}
use pueue.Daemon.Ordered.Loop.{
  handle_finished_tasks-Leaves, enqueue_delayed_tasks-InOrder, reset_group-InOrder,
  fail_dependent-InOrder,
}

-- A round panics, shuts the daemon down, or leaves a state in which no task can start.
abbrev pub Settles : Outcome Round → Type 0
Settles panicked = Unit {0}
Settles (finished (exits code)) = Unit {0}
Settles (finished (continues s)) = (is_some s.shutdown ≡ true) ⊎ (get_next_task_id s ≡ none)

exhausted-Settles :
    (os : Os) (settings : Settings) (s : InternalState) (r : Outcome InternalState)
    → IsExhausted os settings s r
    → Settles (r >>= λ s4. finished (continues s4))
exhausted-Settles os settings s panicked h = tt
exhausted-Settles os settings s (finished s') h = inr h.1

shutdown-Settles :
    (s : InternalState) (code : Option ℕ)
    → is_some s.shutdown ≡ true
    → Settles (finished (elim code [ none ↦ continues s | some code ↦ exits code ]))
shutdown-Settles s none h = inl h
shutdown-Settles s (some code) h = tt

-- The last step of a round.
abbrev spawn_new : Os → Settings → ℕ → InternalState → Option (Outcome Round)
spawn_new os settings fuel s = elim (spawn_loop os settings fuel s) [
  | none ↦ none
  | some r ↦ some (r >>= λ s4. finished (continues s4))
]

spawn_new-Settles :
    (os : Os) (settings : Settings) (s : InternalState)
    → InOrder s
    → (fuel : ℕ) × (r : Outcome Round) × (spawn_new os settings fuel s ≡ some r) × Settles r
spawn_new-Settles os settings s o =
    let (r, ends, exhausted) =
      spawn_loop-ends os settings (queued_count s.tasks) s (IsOrdered→IsAscending s.tasks o)
        (IsOrdered→IsKeyed s.tasks o) (omega arith) in
    (
      suc (queued_count s.tasks),
      (r >>= λ s4. finished (continues s4)),
      rw (ends, spawn_new),
      exhausted-Settles os settings s r exhausted,
    )

-- A round after the finished tasks were handled, for the last step that it takes without a shutdown.
abbrev unless_shutdown :
    InternalState → Option (Outcome Round) → Option ShutdownRequest → Option (Outcome Round)
unless_shutdown s last none = last
unless_shutdown s last (some _) = some (finished (shutdown_round s))

-- For tasks in the order of their ids, a round of the task handler ends with enough fuel; and
-- unless it panics or a shutdown is under way, no task that could start is left waiting.
pub round-Settles :
    (os : Os) (settings : Settings) (s : InternalState)
    → InOrder s
    → (fuel : ℕ) × (r : Outcome Round) × (round os settings fuel s ≡ some r) × Settles r
unfolding round check_callbacks
round-Settles os settings s o =
    let handled = handle_finished_tasks-Leaves os settings (check_callbacks os s) o in
    elim (Outcome-cases (handle_finished_tasks os settings (check_callbacks os s))) [
      | inl e ↦ (0, panicked, rw (e, round), tt)
      | inr (s1, e) ↦
          let o1 : InOrder s1 = rw e at handled in
          elim (Option-cases s1.shutdown) [
            | inr (req, e') ↦ (
              0,
              finished (shutdown_round s1),
              rw (e, round) (ap (unless_shutdown s1 _) e'),
              shutdown-Settles s1 (handle_shutdown s1) (rw e' refl),
            )
            | inl e' ↦
                let s2 = enqueue_delayed_tasks os (handle_group_resets s1) in
                let o2 = enqueue_delayed_tasks-InOrder os (handle_group_resets s1) (
                  for_all-InOrder reset_group reset_group-InOrder (groups_to_reset s1.groups) s1
                    o1) in
                let s3 = check_failed_dependencies os settings s2 in
                let o3 =
                  for_all-InOrder (fail_dependent os settings) (fail_dependent-InOrder os settings)
                    (failed_dependents s2.tasks s2.tasks) s2 o2 in
                let (fuel, r, ends, settled) = spawn_new-Settles os settings s3 o3 in
                (
                  fuel,
                  r,
                  rw (e, round) (ap (unless_shutdown s1 (spawn_new os settings fuel s3)) e' ∙ ends),
                  settled,
                )
          ]
    ]
