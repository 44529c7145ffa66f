-- ===== src/Tests/Queries.antt =====
-- A query of the client at concrete inputs.
use pueue.Base.{
  ◌*◌, ◌+◌, ◌≡◌, refl, String, Option, none, some, List, [], ◌∷◌, compare, ok, err, sort_by, keep,
  insert_by, false, arith,
}
use mathlib.Core.List.{Permᴰ, Pairwise}
use pueue.Base.Orders.{cmp_by}
use pueue.Task.{Task, queued, stashed}
use pueue.Client.Numbers.{parse_usize}
use pueue.Client.Query.{
  Rule, Pair, Pairs, pair, nothing, before, QueryResult, Calendar, Direction, Limit, zero_count,
}
use pueue.Client.Query.Filters.{status_filter, datetime_filter, field_of, status, date}
use pueue.Client.Query.Filters.Dates.{datetime_filter-neq_day}
use pueue.Client.Query.Sections.{apply_query}
use pueue.Client.Query.Selection.{order_tasks, comparison_of, shown_tasks}
use pueue.Client.Query.Selection.Sorted.{InDirection, order_tasks-InDirection}
use pueue.Client.Query.Selection.Filtered.{InView, PassesAll, Selects}
use pueue.Client.Query.Selection.Shown.{IsCut, IsArranged, shown_tasks-IsCut}
use pueue.Tests.Samples.{task}

-- A zone without a shift, where every text means day 3, or its midnight.
abbrev calendar : Calendar
calendar = record {
  parse_time = λ text. some 0;
  parse_datetime = λ text. some 259200;
  parse_date = λ text. some 3;
  today = 3;
  and_time = λ day clock. day * 86400 + clock;
  single_local = λ naive. some naive;
  latest_midnight = λ day. some (day * 86400);
  max_utc = 8210266876799;
}

abbrev token : Rule → String → Pair
token rule text = pair rule text nothing

abbrev status_section : Pair
status_section = pair Rule.status_filter "status=queued" (
    before (token Rule.column_status "status")
      (before (token Rule.eq "=") (before (token Rule.status_queued "queued") nothing)))

abbrev order_section : Pair
order_section = pair Rule.order_by_condition "order_by id desc" (
    before (token Rule.order_by "order_by") (
      before (pair Rule.column "id" (before (token Rule.column_id "id") nothing))
        (before (token Rule.descending "desc") nothing)))

abbrev limit_section : String → Pair
limit_section count =
    pair Rule.limit_condition "first"
      (before (token Rule.first "first") (before (token Rule.limit_count count) nothing))

abbrev parsed : Option Pairs
parsed = some (
    before
      (pair Rule.query "status=queued order_by id desc first 2"
        (before status_section (before order_section (before (limit_section "2") nothing))))
      nothing)

abbrev query_result : QueryResult
query_result = record {
  group = none;
  selected_columns = [];
  filters = status_filter Rule.eq Rule.status_queued ∷ [];
  order_by = some (Rule.column_id, Direction.descending);
  limit = some (Limit.first, 2);
}

applied : apply_query calendar parsed none ≡ ok query_result
unfolding apply_query status parse_usize
applied = refl

zero_limit :
    apply_query calendar
      (some (before (pair Rule.query "first 0" (before (limit_section "0") nothing)) nothing))
      none
    ≡ err zero_count
unfolding apply_query parse_usize
zero_limit = refl

abbrev held : Task
held = task 9 (stashed (some 500000)) [] []

abbrev listed : List Task
listed = task 1 (queued 0) [] [] ∷ task 2 (queued 0) [] [] ∷ held ∷ task 4 (queued 0) [] [] ∷ []

abbrev none_left : List Task → Option (List Task)
none_left tasks = none

abbrev shown : List Task
shown = task 4 (queued 0) [] [] ∷ task 2 (queued 0) [] [] ∷ []

shown_lem : shown_tasks calendar none_left none (some parsed) listed ≡ ok shown
unfolding shown_tasks apply_query status parse_usize comparison_of sort_by keep insert_by
shown_lem = refl

shown_tasks-IsCut_example :
    (filtered ordered : List Task) × Selects
      (λ a. InView none a × PassesAll query_result.filters a)
      listed
      filtered
    × IsArranged calendar query_result.order_by filtered ordered
    × IsCut (some (Limit.first, 2)) shown ordered
shown_tasks-IsCut_example =
    shown_tasks-IsCut calendar none_left none parsed listed shown query_result
      (λ xs ys e. absurd (cc e)) applied shown_lem

order_tasks-InDirection_example :
    (ordered : List Task) × (order_tasks calendar none_left query_result listed ≡ ok ordered)
    × Permᴰ ordered listed
    × Pairwise (InDirection Direction.descending (cmp_by (λ t. t.id) compare)) ordered
unfolding comparison_of
order_tasks-InDirection_example =
    order_tasks-InDirection calendar none_left query_result Rule.column_id Direction.descending
      (cmp_by (λ (t : Task). t.id) compare) listed refl refl

datetime_filter-neq_day_example :
    datetime_filter calendar Rule.column_enqueue_at Rule.neq (date 3) held ≡ false
unfolding field_of
datetime_filter-neq_day_example =
    datetime_filter-neq_day calendar Rule.column_enqueue_at 3 259200 345600 held (λ e. cc) refl refl
      (omega arith)
