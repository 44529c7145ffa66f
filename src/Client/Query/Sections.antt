-- ===== src/Client/Query/Sections.antt =====
-- The sections of a query: column_selection.rs, order_by.rs, limit.rs and `apply_query` of mod.rs in
-- pueue/src/client/commands/state/query.
pub mod Groups
use pueue.Base.{
  ℕ, String, Bool, true, false, Option, none, some, List, [], ◌∷◌, ◌++◌, ◌==◌, nat_ord, Result, ok,
  err, or_err, if◌then◌else◌,
}
use pueue.Base.Results.{◌>>=◌}
use pueue.Client.Numbers.{codes, parse_usize}
use pueue.Client.Query.{
  Rule, Pair, Pairs, nothing, before, QueryError, QueryResult, Calendar, Checked, Direction, Limit,
  as_rule, as_str, into_inner, next, cannot_parse, not_a_query, bad_direction, bad_count,
  zero_count,
}
use pueue.Client.Query.Filters

-- The rule inside each pair of a list of columns.
unfoldable pub column_rules : Pairs → Checked (List Rule)
unfolding next
column_rules nothing = ok []
column_rules (before wrapped rest) = do
  (inner, _) ← next (into_inner wrapped)
  rules ← column_rules rest
  ok (as_rule inner ∷ rules)

unfoldable pub apply : Pair → QueryResult → Checked QueryResult
unfolding column_rules
apply section query_result = do
  (columns_word, equals_on) ← next (into_inner section)
  (equals, columns_on) ← next equals_on
  (multiple_columns, _) ← next columns_on
  columns ← column_rules (into_inner multiple_columns)
  ok (record query_result { selected_columns = query_result.selected_columns ++ columns })

abbrev pub direction_of : Pairs → Direction
direction_of nothing = Direction.ascending
direction_of (before word rest) = elim (as_rule word) [
  | Rule.ascending ↦ Direction.ascending
  | Rule.descending ↦ Direction.descending
  | _ ↦ Direction.ascending
]

unfoldable pub order_by : Pair → QueryResult → Checked QueryResult
unfolding next
order_by section query_result = do
  (keyword, column_on) ← next (into_inner section)
  (wrapped, direction_on) ← next column_on
  (inner, _) ← next (into_inner wrapped)
  ok (record query_result { order_by = some (as_rule inner, direction_of direction_on) })

abbrev pub limit_direction : Rule → Option Limit
limit_direction Rule.first = some Limit.first
limit_direction Rule.last = some Limit.last
limit_direction _ = none

unfoldable pub limit : Pair → QueryResult → Checked QueryResult
unfolding next
limit section query_result = do
  (word, amount_on) ← next (into_inner section)
  direction ← or_err bad_direction (limit_direction (as_rule word))
  (amount, _) ← next amount_on
  count ← or_err bad_count (parse_usize (codes (as_str amount)))
  if count == 0
      then err zero_count
      else ok (record query_result { limit = some (direction, count) })

unfoldable pub apply_section : Calendar → Pair → QueryResult → Checked QueryResult
unfolding apply order_by limit
apply_section calendar section query_result = elim (as_rule section) [
  | Rule.column_selection ↦ apply section query_result
  | Rule.datetime_filter ↦ Filters.datetime calendar section query_result
  | Rule.label_filter ↦ Filters.label section query_result
  | Rule.command_filter ↦ Filters.command section query_result
  | Rule.status_filter ↦ Filters.status section query_result
  | Rule.order_by_condition ↦ order_by section query_result
  | Rule.limit_condition ↦ limit section query_result
  | _ ↦ ok query_result
]

unfoldable pub apply_sections : Calendar → Pairs → QueryResult → Checked QueryResult
unfolding apply_section
apply_sections calendar nothing query_result = ok query_result
apply_sections calendar (before section rest) query_result = do
  applied ← apply_section calendar section query_result
  apply_sections calendar rest applied

abbrev pub is_query : Rule → Bool
is_query Rule.query = true
is_query _ = false

-- From the pairs that the parser returns, or nothing where it fails.
unfoldable pub apply_query : Calendar → Option Pairs → Option String → Checked QueryResult
unfolding apply_sections
apply_query calendar none group = err cannot_parse
apply_query calendar (some parsed) group =
    let query_result : QueryResult = record {
      group = group;
      selected_columns = [];
      filters = [];
      order_by = none;
      limit = none;
    } in
    elim parsed [
      | nothing ↦ ok query_result
      | before p rest ↦
          if is_query (as_rule p)
          then apply_sections calendar (into_inner p) query_result
          else err not_a_query
    ]
