-- ===== src/Client/Query/Selection.antt =====
-- The tasks that `pueue status` shows: `QueryResult` of
-- pueue/src/client/commands/state/query/mod.rs, and `print_state` of state/mod.rs up to the output.
pub mod Sorted
pub mod Filtered
pub mod Shown
use pueue.Base.{
  ℕ, ◌-◌, String, Bool, true, false, not, ◌||◌, ◌++◌, is_empty, Option, none, some, List, [], ◌∷◌,
  take, drop, length, keep, sort_by, reverse, leb, ◌==◌, nat_ord, text_ord, Result, ok, err, or_err,
  if◌then◌else◌, Ordering, compare,
}
use pueue.Base.Results.{◌>>=◌}
use pueue.Base.Orders.{Comparison, cmp_by, cmp_option, cmp_list, before}
use pueue.Task.{
  Task, TaskStatus, TaskResult, locked, stashed, queued, running, paused, done, success,
  start_and_end, is_successful_status,
}
use pueue.Client.Numbers.{codes}
use pueue.Client.TaskIds.{split}
use pueue.Client.Query.{
  Rule, Pairs, QueryError, QueryResult, Calendar, Checked, Direction, Limit, panics,
}
use pueue.Client.Query.Sections.{apply_query}

abbrev pub in_group : String → Task → Bool
in_group name task = task.group == name

unfoldable pub apply_each : List (Task → Bool) → List Task → List Task
apply_each [] tasks = tasks
apply_each (filter ∷ filters) tasks = apply_each filters (keep filter tasks)

unfoldable pub apply_filters : QueryResult → List Task → List Task
unfolding apply_each
apply_filters query_result tasks =
    apply_each query_result.filters
      (elim query_result.group [ none ↦ tasks | some name ↦ keep (in_group name) tasks ])

unfoldable pub rank_status : TaskStatus → ℕ
rank_status (stashed enqueue_at) = 0
rank_status (locked previous_status) = 1
rank_status (queued enqueued_at) = 2
rank_status (paused enqueued_at start) = 3
rank_status (running enqueued_at start) = 4
rank_status (done enqueued_at start end success) = 6
rank_status (done enqueued_at start end result) = 5

-- What has no date comes last.
unfoldable pub enqueue_date : Calendar → TaskStatus → ℕ
enqueue_date calendar (queued enqueued_at) = enqueued_at
enqueue_date calendar (running enqueued_at start) = enqueued_at
enqueue_date calendar (paused enqueued_at start) = enqueued_at
enqueue_date calendar (done enqueued_at start end result) = enqueued_at
enqueue_date calendar (stashed (some enqueued_at)) = enqueued_at
enqueue_date calendar _ = calendar.max_utc

abbrev cmp_text : Comparison String
cmp_text = cmp_by codes (cmp_list compare)

-- The order of paths is that of their components: the root, `.` at the start, `..` and the others,
-- in this order. Any other `.` and an empty component do not count.
abbrev same_text : List ℕ → List ℕ → Bool
same_text a b = elim (cmp_list compare a b) [ Ordering.eq ↦ true | _ ↦ false ]

abbrev dot : List ℕ
dot = b'.' ∷ []

unfoldable component : List ℕ → List (List ℕ)
component name =
    if is_empty name || same_text name dot
    then []
    else if same_text name (b'.' ∷ dot)
    then (2 ∷ []) ∷ []
    else (3 ∷ name) ∷ []

unfoldable components_after : List (List ℕ) → List (List ℕ)
unfolding component
components_after [] = []
components_after (name ∷ names) = component name ++ components_after names

abbrev relative : List (List ℕ) → List (List ℕ)
unfolding components_after
relative [] = []
relative (name ∷ names) =
    if same_text name dot
    then (1 ∷ []) ∷ components_after names
    else components_after (name ∷ names)

unfoldable pub components : List ℕ → List (List ℕ)
unfolding components_after
components [] = []
components (c ∷ cs) =
    if c == b'/'
    then (0 ∷ []) ∷ components_after (split b'/' cs)
    else relative (split b'/' (c ∷ cs))

abbrev path_key : Task → List (List ℕ)
path_key task = components (codes task.path)

-- The comparison of a column, if the column has one.
unfoldable pub comparison_of : Calendar → Rule → Option (Comparison Task)
unfolding rank_status enqueue_date components cmp_list
comparison_of calendar Rule.column_id = some (cmp_by (λ t. t.id) compare)
comparison_of calendar Rule.column_status = some (cmp_by (λ t. rank_status t.status) compare)
comparison_of calendar Rule.column_label = some (cmp_by (λ t. t.label) (cmp_option cmp_text))
comparison_of calendar Rule.column_command = some (cmp_by (λ t. t.command) cmp_text)
comparison_of calendar Rule.column_path = some (cmp_by path_key (cmp_list (cmp_list compare)))
comparison_of calendar Rule.column_enqueue_at =
    some (cmp_by (λ t. enqueue_date calendar t.status) compare)
comparison_of calendar Rule.column_start =
    some (cmp_by (λ t. (start_and_end t).0) (cmp_option compare))
comparison_of calendar Rule.column_end =
    some (cmp_by (λ t. (start_and_end t).1) (cmp_option compare))
comparison_of calendar _ = none

abbrev directed : Direction → List Task → List Task
directed Direction.ascending tasks = tasks
directed Direction.descending tasks = reverse tasks

-- `unordered` is what `sort_by` does with the comparison of the other columns, which answers `Less`
-- for any two tasks: some order, or a panic.
abbrev pub sort_tasks :
    (unordered : List Task → Option (List Task))
    → Option (Comparison Task)
    → List Task
    → Checked (List Task)
sort_tasks unordered (some cmp) tasks = ok (sort_by (before cmp) tasks)
sort_tasks unordered none tasks = or_err panics (unordered tasks)

abbrev pub order_tasks_by :
    Calendar
    → (unordered : List Task → Option (List Task)) → Option (Rule × Direction)
    → List Task
    → Checked (List Task)
order_tasks_by calendar unordered none tasks = ok tasks
order_tasks_by calendar unordered (some (rule, direction)) tasks = do
  sorted ← sort_tasks unordered (comparison_of calendar rule) tasks
  ok (directed direction sorted)

unfoldable pub order_tasks :
    Calendar
    → (unordered : List Task → Option (List Task)) → QueryResult
    → List Task
    → Checked (List Task)
order_tasks calendar unordered query_result tasks =
    order_tasks_by calendar unordered query_result.order_by tasks

abbrev limited : Limit → ℕ → List Task → List Task
limited Limit.first count tasks = take count tasks
limited Limit.last count tasks = drop (length tasks - count) tasks

abbrev pub limit_tasks_to : Option (Limit × ℕ) → List Task → List Task
limit_tasks_to none tasks = tasks
limit_tasks_to (some (direction, count)) tasks =
    if leb (length tasks) count || count == 0 then tasks else limited direction count tasks

unfoldable pub limit_tasks : QueryResult → List Task → List Task
limit_tasks query_result tasks = limit_tasks_to query_result.limit tasks

abbrev pub archive_group : String
archive_group = "archive"

abbrev pub viewing_archive : Option String → Bool
viewing_archive none = false
viewing_archive (some name) = name == archive_group

abbrev pub outside_archive : Task → Bool
outside_archive task = not (task.group == archive_group)

-- The tasks that are left of a state's before the query.
unfoldable pub retained : Option String → List Task → List Task
retained group tasks =
    let visible = if viewing_archive group then tasks else keep outside_archive tasks in
    elim group [ none ↦ visible | some name ↦ keep (in_group name) visible ]

-- The tasks to print. The query is what the parser made of it, if there is one.
unfoldable pub shown_tasks :
    Calendar
    → (unordered : List Task → Option (List Task)) → (group : Option String)
    → (query : Option (Option Pairs)) → List Task
    → Checked (List Task)
unfolding apply_filters order_tasks limit_tasks retained
shown_tasks calendar unordered group none tasks = ok (retained group tasks)
shown_tasks calendar unordered group (some query) tasks = do
  query_result ← apply_query calendar query group
  ordered ←
      order_tasks calendar unordered query_result
        (apply_filters query_result (retained group tasks))
  ok (limit_tasks query_result ordered)
