-- ===== src/Daemon/Process/Spares.antt =====
-- What callbacks (daemon/callbacks.rs) and the reaction to a failure (daemon/internal_state/state.rs)
-- leave as it was.
use pueue.Base.{String, ◌∙◌, arith, text_ord}
use pueue.Task.{Task}
use pueue.State.{GroupStatus}
use pueue.Daemon.Os.{Os, Settings}
use pueue.Daemon.Internal.{InternalState, pause_on_failure, set_status_for_all_groups}
use pueue.Daemon.Callbacks.{spawn_callback}
use pueue.Daemon.Process.Kill.Follows.{limits-set_all, limits-set}
use pueue.Daemon.Process.Kill.Shutdown.{Spares}

pub Spares-trans : {s t u : InternalState} → Spares s t → Spares t u → Spares s u
Spares-trans f g = record {
  spared_tasks = g.spared_tasks ∙ f.spared_tasks;
  spared_limits = λ x. g.spared_limits x ∙ f.spared_limits x;
  spared_children = g.spared_children ∙ f.spared_children;
}

pub spawn_callback-Spares :
    (os : Os) (settings : Settings) (s : InternalState) (task : Task)
    → Spares s (spawn_callback os settings s task)
unfolding spawn_callback
spawn_callback-Spares os settings s task = record {
  spared_tasks = ground arith;
  spared_limits = λ g. ground arith;
  spared_children = ground arith;
}

pub pause_on_failure-Spares :
    (settings : Settings) (s : InternalState) (group : String)
    → Spares s (pause_on_failure settings s group)
unfolding pause_on_failure set_status_for_all_groups
pause_on_failure-Spares settings s group = record {
  spared_tasks = ground arith;
  spared_limits = λ g. ground (
    arith,
    limits-set_all g GroupStatus.paused s.groups,
    limits-set g group GroupStatus.paused s.groups,
  );
  spared_children = ground arith;
}
