-- ===== src/Daemon/Handlers/Add/Linked.antt =====
-- The links and the id of a task that `add_task` (message_handler/add.rs) puts into the state.
use pueue.Base.{
  ℕ, ◌≡◌, refl, sym, ap, subst, ◌⊎◌, inl, inr, true, false, not, none, List, [], ◌∷◌, arith, get,
  insert, update, last_key, ltb, sort_by, is_empty, contains_key, In, In-sort_by, keep-In,
  get-eq-none_of_last, insert-From, update-From, From, IsAscending, nat_ord, text_ord, Bool-cases,
  Option-cases,
}
use pueue.Task.{Task}
use pueue.Task
use pueue.State.{Tasks, next_id}
use pueue.Message.{AddRequest, Response}
use pueue.Daemon.Os.{Os, Settings, finished}
use pueue.Daemon.Internal.{InternalState, add_task, save}
use pueue.Daemon.Links.{add_links, add_dependent}
use pueue.Daemon.Links.Consistent.{IsLinked}
use pueue.Daemon.Links.Insertion.{IsUnnamed, add_links-IsLinked}
use pueue.Daemon.Responses.{ensure_group_exists}
use pueue.Daemon.Handlers.Add.{
  dedup, dedup_after, missing_ids, build_task, insert_task, add, add_and_start,
}

abbrev pub fresh_id : InternalState → ℕ
fresh_id s = next_id (last_key s.tasks)

get-fresh : (s : InternalState) → IsAscending s.tasks → get (fresh_id s) s.tasks ≡ none
get-fresh s ordered = get-eq-none_of_last (fresh_id s) 0 s.tasks ordered (λ n e. ground arith)

add_links-From :
    (id low : ℕ) (ids : List ℕ) (tasks : Tasks) → From low tasks → From low (add_links id ids tasks)
unfolding add_links
add_links-From id low [] tasks f = f
add_links-From id low (d ∷ ids) tasks f =
    add_links-From id low ids (update d (add_dependent id) tasks)
      (update-From d low (add_dependent id) tasks f)

In-dedup_after : (x a : ℕ) (xs : List ℕ) → In a (dedup_after x xs) → In a xs
unfolding dedup_after
In-dedup_after x a [] m = m
In-dedup_after x a (y ∷ ys) m = ground (arith, In-dedup_after y a ys)

In-dedup : (a : ℕ) (xs : List ℕ) → In a (dedup xs) → In a xs
unfolding dedup
In-dedup a [] m = m
In-dedup a (x ∷ xs) m = ground (arith, In-dedup_after x a xs)

all_exist :
    (tasks : Tasks) (deps : List ℕ) (a : ℕ)
    → is_empty (missing_ids tasks deps) ≡ true
    → In a deps
    → contains_key a tasks ≡ true
all_exist tasks deps a none_missing m = elim (Bool-cases (contains_key a tasks)) [
  | inl e ↦ e
  | inr e ↦ absurd (
      empty-In a (missing_ids tasks deps) none_missing
        (keep-In (λ id. not (contains_key id tasks)) a deps m (ap not e)))
]
  where
    empty-In : (a : ℕ) (xs : List ℕ) → is_empty xs ≡ true → ¬ In a xs
    empty-In a [] e = λ m. m
    empty-In a (x ∷ xs) e = cc

-- The dependencies of the new task are among the requested ones.
built_dependencies :
    (os : Os) (now a : ℕ) (message : AddRequest)
    → In a (build_task os now message).dependencies
    → In a message.dependencies
unfolding build_task Task.new
built_dependencies os now a message m =
    In-sort_by ltb a message.dependencies (In-dedup a (sort_by ltb message.dependencies) m)

built_alone :
    (os : Os) (now : ℕ) (message : AddRequest) → (build_task os now message).dependents ≡ []
unfolding build_task Task.new
built_alone os now message = refl

insert_task-IsLinked :
    (s : InternalState) (task : Task)
    → IsAscending s.tasks
    → IsUnnamed (fresh_id s) s.tasks
    → task.dependents ≡ []
    → ((a : ℕ) → In a task.dependencies → contains_key a s.tasks ≡ true)
    → IsLinked s.tasks
    → IsLinked (insert_task s task).0.tasks
unfolding insert_task add_task
insert_task-IsLinked s task ordered unnamed alone exist linked =
    let n = fresh_id s in
    let absent = get-fresh s ordered in
    add_links-IsLinked n (record task { id = n }) s.tasks absent alone unnamed
      (λ m. cc (exist n m, absent)) linked

insert_task-IsAscending :
    (s : InternalState) (task : Task)
    → IsAscending s.tasks
    → IsAscending (insert_task s task).0.tasks
unfolding insert_task add_task
insert_task-IsAscending s task ordered =
    let n = fresh_id s in
    add_links-From n 0 task.dependencies (insert n (record task { id = n }) s.tasks)
      (insert-From n 0 (record task { id = n }) s.tasks (omega arith) ordered)

add_and_start-tasks :
    (os : Os) (settings : Settings) (s s' : InternalState) (message : AddRequest) (r : Response)
    → message.start_immediately ≡ false
    → add_and_start os settings s message ≡ finished (s', r)
    → s'.tasks ≡ (insert_task s (build_task os (os.now s.trace) message)).0.tasks
unfolding add_and_start save
add_and_start-tasks os settings s s' message r later e = ground arith

-- Either the request is refused and the state stays, or its dependencies exist and it is inserted.
add_result :
    (os : Os) (settings : Settings) (s s' : InternalState) (message : AddRequest) (r : Response)
    → message.start_immediately ≡ false
    → add os settings s message ≡ finished (s', r)
    → (s'.tasks ≡ s.tasks)
      ⊎ ((is_empty (missing_ids s.tasks message.dependencies) ≡ true)
          × (s'.tasks ≡ (insert_task s (build_task os (os.now s.trace) message)).0.tasks))
unfolding add
add_result os settings s s' message r later e =
    elim (Option-cases (ensure_group_exists s.groups message.group)) [
      | inr (response, refused) ↦ inl (ground arith)
      | inl known ↦ elim (Bool-cases (is_empty (missing_ids s.tasks message.dependencies))) [
        | inr missing ↦ inl (ground arith)
        | inl present ↦
            inr (present, add_and_start-tasks os settings s s' message r later (ground arith))
      ]
    ]

-- If `add` of a task that does not start at once returns, the tasks were in the order of their
-- ids, their dependents were exact, and none names the id that the new task gets, then the tasks
-- are still in order and the dependents are exact.
pub add-IsLinked :
    (os : Os) (settings : Settings) (s s' : InternalState) (message : AddRequest) (r : Response)
    → message.start_immediately ≡ false
    → add os settings s message ≡ finished (s', r)
    → IsAscending s.tasks
    → IsUnnamed (fresh_id s) s.tasks
    → IsLinked s.tasks
    → IsAscending s'.tasks × IsLinked s'.tasks
add-IsLinked os settings s s' message r later e ordered unnamed linked =
    let task = build_task os (os.now s.trace) message in
    elim (add_result os settings s s' message r later e) [
      | inl same ↦ (subst IsAscending (sym same) ordered, subst IsLinked (sym same) linked)
      | inr (present, same) ↦ (
        subst IsAscending (sym same) (insert_task-IsAscending s task ordered),
        subst IsLinked (sym same) (
            insert_task-IsLinked s task ordered unnamed (built_alone os (os.now s.trace) message)
              (λ a m.
                all_exist s.tasks message.dependencies a present
                  (built_dependencies os (os.now s.trace) a message m))
              linked),
      )
    ]
