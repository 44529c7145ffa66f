-- ===== src/Client/Query/Filters.antt =====
-- pueue/src/client/commands/state/query/filters.rs.
pub mod Dates
use pueue.Base.{
  ℕ, ◌+◌, String, Bool, true, false, not, ◌&&◌, ◌||◌, Option, none, some, List, [], ◌∷◌, ltb, ◌==◌,
  nat_ord, text_ord, is_some, Result, ok, err, or_err, if◌then◌else◌,
}
use pueue.Base.Results.{◌>>=◌}
use pueue.Task.{
  Task, TaskStatus, TaskResult, stashed, done, success, start_and_end, is_queued, is_queued_status,
  is_stashed_status, is_running_status, is_paused_status, is_successful_status, failed_status,
}
use pueue.Client.Numbers.{codes}
use pueue.Client.Query.{
  Rule, Pair, Pairs, QueryError, QueryResult, Calendar, Checked, as_rule, as_str, into_inner, next,
  push_filter, bad_time, bad_datetime, bad_date, bad_operand, panics,
}

pub data DateOrDateTime : Type 0 where
  date_time : ℕ → DateOrDateTime
  date : ℕ → DateOrDateTime

-- `str::contains`.
unfoldable pub starts_with : List ℕ → List ℕ → Bool
starts_with text [] = true
starts_with [] (c ∷ cs) = false
starts_with (d ∷ text) (c ∷ cs) = d == c && starts_with text cs

unfoldable pub has_substring : List ℕ → List ℕ → Bool
unfolding starts_with
has_substring [] part = starts_with [] part
has_substring (c ∷ text) part = starts_with (c ∷ text) part || has_substring text part

abbrev pub text_contains : String → String → Bool
unfolding has_substring
text_contains text part = has_substring (codes text) (codes part)

abbrev pub stashed_until : TaskStatus → Option ℕ
stashed_until (stashed enqueue_at) = enqueue_at
stashed_until _ = none

-- The field that a column names, and whether the column is one of the three.
unfoldable pub field_of : Rule → Task → Option (Option ℕ)
field_of Rule.column_enqueue_at task = some (stashed_until task.status)
field_of Rule.column_start task = let (start, _) = start_and_end task in some start
field_of Rule.column_end task = let (_, end) = start_and_end task in some end
field_of _ task = none

unfoldable pub compare_datetime : Rule → (field datetime : ℕ) → Bool
compare_datetime Rule.eq field datetime = field == datetime
compare_datetime Rule.neq field datetime = not (field == datetime)
compare_datetime Rule.lt field datetime = ltb field datetime
compare_datetime Rule.gt field datetime = ltb datetime field
compare_datetime _ field datetime = true

unfoldable pub compare_day : Rule → (field start_of_day end_of_day : ℕ) → Bool
compare_day Rule.eq field start_of_day end_of_day = ltb start_of_day field && ltb field end_of_day
compare_day Rule.neq field start_of_day end_of_day = ltb field start_of_day && ltb end_of_day field
compare_day Rule.lt field start_of_day end_of_day = ltb field start_of_day
compare_day Rule.gt field start_of_day end_of_day = ltb end_of_day field
compare_day _ field start_of_day end_of_day = true

abbrev pub between : Rule → ℕ → Option ℕ → Option ℕ → Bool
unfolding compare_day
between operator field (some start_of_day) (some end_of_day) =
    compare_day operator field start_of_day end_of_day
between operator field _ _ = false

unfoldable pub compare_operand : Calendar → Rule → ℕ → DateOrDateTime → Bool
unfolding compare_datetime
compare_operand calendar operator field (date_time datetime) =
    compare_datetime operator field datetime
compare_operand calendar operator field (date day) =
    between operator field (calendar.latest_midnight day) (calendar.latest_midnight (day + 1))

unfoldable pub datetime_filter : Calendar → Rule → Rule → DateOrDateTime → Task → Bool
unfolding compare_operand field_of
datetime_filter calendar field_column operator operand task = elim (field_of field_column task) [
  | none ↦ true
  | some none ↦ false
  | some (some field) ↦ compare_operand calendar operator field operand
]

abbrev pub local_datetime : Calendar → ℕ → Checked DateOrDateTime
local_datetime calendar naive = do
  at ← or_err panics (calendar.single_local naive)
  ok (date_time at)

unfoldable pub parse_operand : Calendar → Rule → String → Checked DateOrDateTime
parse_operand calendar Rule.time text = do
  clock ← or_err bad_time (calendar.parse_time text)
  local_datetime calendar (calendar.and_time calendar.today clock)
parse_operand calendar Rule.datetime text = do
  naive ← or_err bad_datetime (calendar.parse_datetime text)
  local_datetime calendar naive
parse_operand calendar Rule.date text = do
  day ← or_err bad_date (calendar.parse_date text)
  ok (date day)
parse_operand calendar _ text = err bad_operand

unfoldable pub datetime : Calendar → Pair → QueryResult → Checked QueryResult
unfolding parse_operand datetime_filter push_filter
datetime calendar section query_result = do
  (field_column, operator_on) ← next (into_inner section)
  (operator, operand_on) ← next operator_on
  (operand, _) ← next operand_on
  value ← parse_operand calendar (as_rule operand) (as_str operand)
  ok (
      push_filter (datetime_filter calendar (as_rule field_column) (as_rule operator) value)
        query_result)

-- The keyword, the operator and the operand of a filter.
unfoldable pub operator_and_operand : Pair → Checked (Rule × Pair)
operator_and_operand section = do
  (keyword, operator_on) ← next (into_inner section)
  (operator, operand_on) ← next operator_on
  (operand, _) ← next operand_on
  ok (as_rule operator, operand)

unfoldable pub compare_text : Rule → (text operand : String) → Bool
compare_text Rule.eq text operand = text == operand
compare_text Rule.neq text operand = not (text == operand)
compare_text Rule.contains text operand = text_contains text operand
compare_text _ text operand = false

abbrev pub is_neq : Rule → Bool
is_neq Rule.neq = true
is_neq _ = false

unfoldable pub label_filter : Rule → String → Task → Bool
unfolding compare_text
label_filter operator operand task = elim task.label [
  | none ↦ is_neq operator
  | some label ↦ compare_text operator label operand
]

unfoldable pub label : Pair → QueryResult → Checked QueryResult
unfolding operator_and_operand label_filter push_filter
label section query_result = do
  (operator, operand) ← operator_and_operand section
  ok (push_filter (label_filter operator (as_str operand)) query_result)

unfoldable pub command_filter : Rule → String → Task → Bool
unfolding compare_text
command_filter operator operand task = compare_text operator task.command operand

unfoldable pub command : Pair → QueryResult → Checked QueryResult
unfolding operator_and_operand command_filter push_filter
command section query_result = do
  (operator, operand) ← operator_and_operand section
  ok (push_filter (command_filter operator (as_str operand)) query_result)

-- Whether the status is the one that the operand names; nothing for other rules.
unfoldable pub status_matches : Rule → TaskStatus → Option Bool
status_matches Rule.status_queued status = some (is_queued_status status)
status_matches Rule.status_stashed status = some (is_stashed_status status)
status_matches Rule.status_running status = some (is_running_status status)
status_matches Rule.status_paused status = some (is_paused_status status)
status_matches Rule.status_success status = some (is_successful_status status)
status_matches Rule.status_failed status = some (failed_status status)
status_matches _ status = none

abbrev pub by_operator : Rule → Bool → Bool
by_operator Rule.eq matches = matches
by_operator Rule.neq matches = not matches
by_operator _ matches = false

unfoldable pub status_filter : Rule → Rule → Task → Bool
unfolding status_matches
status_filter operator operand task = elim (status_matches operand task.status) [
  | none ↦ false
  | some matches ↦ by_operator operator matches
]

unfoldable pub status : Pair → QueryResult → Checked QueryResult
unfolding operator_and_operand status_filter push_filter
status section query_result = do
  (operator, operand) ← operator_and_operand section
  ok (push_filter (status_filter operator (as_rule operand)) query_result)
