-- ===== src/Client/Requests.antt =====
-- The requests that the commands of pueue/src/client/commands send, from their arguments. The answer
-- of the daemon is printed.
use pueue.Base.{
  ℕ, zero, suc, ◌+◌, ◌-◌, ◌/◌, String, Bool, true, false, Option, none, some, List, [], ◌∷◌, keys,
  contains, is_empty, length, ltb, ◌==◌, nat_ord, text_ord, if◌then◌else◌, ◌&&◌, not,
}
use pueue.Task.{is_running}
use pueue.State.{State, Tasks, pueue_default_group}
use pueue.Message.{
  TaskSelection, Request, GroupRequest, EnvRequest, ResetTarget, ShutdownRequest, Signal,
}

abbrev pub selection_from_params : Bool → Option String → List ℕ → TaskSelection
selection_from_params true group task_ids = TaskSelection.all
selection_from_params false (some group) task_ids = TaskSelection.group group
selection_from_params false none (id ∷ ids) = TaskSelection.task_ids (id ∷ ids)
selection_from_params false none [] = TaskSelection.group pueue_default_group

abbrev pub group_or_default : Option String → String
group_or_default none = pueue_default_group
group_or_default (some group) = group

-- `kill`, unless the user does not confirm it.
abbrev pub kill : Bool → List ℕ → Option String → Bool → Option Signal → Option Request
kill confirmed task_ids group all signal =
    if confirmed
    then some (
        Request.kill (record { tasks = selection_from_params all group task_ids; signal = signal }))
    else none

abbrev pub pause : List ℕ → Option String → (all wait : Bool) → Request
pause task_ids group all wait =
    Request.pause (record { tasks = selection_from_params all group task_ids; wait = wait })

abbrev pub start : List ℕ → Option String → Bool → Request
start task_ids group all =
    Request.start (record { tasks = selection_from_params all group task_ids })

abbrev pub stash : List ℕ → Option String → Bool → Option ℕ → Request
stash task_ids group all delay_until =
    Request.stash
      (record { tasks = selection_from_params all group task_ids; enqueue_at = delay_until })

abbrev pub enqueue : List ℕ → Option String → Bool → Option ℕ → Request
enqueue task_ids group all delay_until =
    Request.enqueue
      (record { tasks = selection_from_params all group task_ids; enqueue_at = delay_until })

abbrev pub clean : Option String → Bool → Request
clean group successful_only =
    Request.clean (record { successful_only = successful_only; group = group })

abbrev pub send : ℕ → String → Request
send task_id input = Request.send (record { task_id = task_id; input = input })

abbrev pub parallel : Option ℕ → Option String → Request
parallel none group = Request.group GroupRequest.list
parallel (some parallel_tasks) group =
    Request.parallel (record { parallel_tasks = parallel_tasks; group = group_or_default group })

pub data GroupCommand : Type 0 where
  add : (name : String) (parallel : Option ℕ) → GroupCommand
  remove : (name : String) → GroupCommand

abbrev pub group : Option GroupCommand → Request
group none = Request.group GroupRequest.list
group (some (GroupCommand.add name parallel_tasks)) =
    Request.group (GroupRequest.add name parallel_tasks)
group (some (GroupCommand.remove name)) = Request.group (GroupRequest.remove name)

pub data EnvCommand : Type 0 where
  set : (task_id : ℕ) (key value : String) → EnvCommand
  unset : (task_id : ℕ) (key : String) → EnvCommand
  list : (task_id : ℕ) → EnvCommand

abbrev pub env : EnvCommand → Request
env (EnvCommand.set task_id key value) = Request.env (EnvRequest.set task_id key value)
env (EnvCommand.unset task_id key) = Request.env (EnvRequest.unset task_id key)
env (EnvCommand.list task_id) = Request.env (EnvRequest.list task_id)

abbrev pub shutdown : Request
shutdown = Request.daemon_shutdown ShutdownRequest.graceful

-- The ids of the running tasks of the groups.
unfoldable pub running_in : List String → Tasks → List ℕ
running_in groups [] = []
running_in groups ((id, task) ∷ m) =
    let rest = running_in groups m in
    if contains groups task.group && is_running task then id ∷ rest else rest

abbrev pub reset_target : List String → ResetTarget
reset_target [] = ResetTarget.all
reset_target (group ∷ groups) = ResetTarget.groups (group ∷ groups)

-- `reset`, from the state that the daemon has answered, unless there are running tasks and the user
-- neither forces nor confirms it.
unfoldable pub reset : State → (force confirmed : Bool) → List String → Option Request
unfolding running_in
reset state force confirmed named =
    let groups = if is_empty named then keys state.groups else named in
    if not (is_empty (running_in groups state.tasks)) && (not force && not confirmed)
    then none
    else some (Request.reset (reset_target groups))

pub data SwitchError : Type 0 where
  different_lengths no_ids : SwitchError

pub data Sent : Type 0 where
  request : Request → Sent
  nothing : Sent
  refused : SwitchError → Sent

abbrev pub switch : List ℕ → List ℕ → Sent
switch task_ids_1 task_ids_2 =
    if not (length task_ids_1 == length task_ids_2)
    then refused different_lengths
    else if is_empty task_ids_1
    then refused no_ids
    else request (Request.switch (record { task_ids_1 = task_ids_1; task_ids_2 = task_ids_2 }))

-- `task_ids[i]`, which `reverse` asks for within the list only.
unfoldable pub get_elem? : List ℕ → ℕ → Option ℕ
get_elem? [] i = none
get_elem? (x ∷ xs) zero = some x
get_elem? (x ∷ xs) (suc i) = get_elem? xs i

abbrev pub push_pair : Option ℕ → Option ℕ → List ℕ × List ℕ → List ℕ × List ℕ
push_pair (some a) (some b) (xs, ys) = (a ∷ xs, b ∷ ys)
push_pair _ _ pairs = pairs

-- The loop over `i..mid`, from the number of rounds that are left.
unfoldable pub reversed_pairs : (rounds i : ℕ) → List ℕ → List ℕ × List ℕ
unfolding get_elem?
reversed_pairs zero i task_ids = ([], [])
reversed_pairs (suc n) i task_ids =
    let j = length task_ids - 1 - i in
    let rest = reversed_pairs n (i + 1) task_ids in
    if ltb i j then push_pair (get_elem? task_ids i) (get_elem? task_ids j) rest else rest

unfoldable pub reverse : List ℕ → Sent
unfolding reversed_pairs
reverse [] = refused no_ids
reverse (id ∷ []) = nothing
reverse (a ∷ b ∷ ids) =
    let task_ids = a ∷ b ∷ ids in
    let (task_ids_1, task_ids_2) = reversed_pairs ((length task_ids + 1) / 2) 0 task_ids in
    if is_empty task_ids_1
    then nothing
    else request (Request.switch (record { task_ids_1 = task_ids_1; task_ids_2 = task_ids_2 }))
