-- ===== src/Client/Query.antt =====
-- The query of `pueue status` (pueue/src/client/commands/state/query). Its parser, pest, hands over
-- a tree of pairs of a rule of syntax.pest and the text that it matched.
pub mod Filters
pub mod Sections
pub mod Selection
use pueue.Base.{ℕ, String, Bool, Option, none, some, List, [], ◌∷◌, ◌++◌, Result, ok, err}
use pueue.Task.{Task}

pub data Rule : Type 0 where
  query column_selection columns_word multiple_columns column : Rule
  column_id column_status column_priority column_command column_label column_path : Rule
  column_enqueue_at column_dependencies column_start column_end order_columns : Rule
  eq neq lt gt contains : Rule
  status_filter label_filter command_filter datetime_filter : Rule
  status_queued status_stashed status_paused status_running status_success status_failed : Rule
  label command datetime date time : Rule
  order_by_condition order_by ascending descending : Rule
  limit_condition first last limit_count eoi : Rule

mutual
  pub data Pair : Type 0 where
    pair : (rule : Rule) (text : String) (inner : Pairs) → Pair

  pub data Pairs : Type 0 where
    nothing : Pairs
    before : Pair → Pairs → Pairs

abbrev pub as_rule : Pair → Rule
as_rule (pair rule text inner) = rule

abbrev pub as_str : Pair → String
as_str (pair rule text inner) = text

abbrev pub into_inner : Pair → Pairs
into_inner (pair rule text inner) = inner

-- The errors, without their texts. `panics` is an `unwrap` of nothing.
pub data QueryError : Type 0 where
  cannot_parse not_a_query bad_time bad_datetime bad_date bad_operand : QueryError
  bad_direction bad_count zero_count panics : QueryError

abbrev pub Checked : Type 0 → Type 0
Checked A = Result QueryError A

-- `pairs.next().unwrap()`, and the pairs that are left.
unfoldable pub next : Pairs → Checked (Pair × Pairs)
next nothing = err panics
next (before p rest) = ok (p, rest)

pub data Direction : Type 0 where
  ascending descending : Direction

pub data Limit : Type 0 where
  first last : Limit

pub record QueryResult : Type 0 where
  pub group : Option String
  pub selected_columns : List Rule
  pub filters : List (Task → Bool)
  pub order_by : Option (Rule × Direction)
  pub limit : Option (Limit × ℕ)

unfoldable pub push_filter : (Task → Bool) → QueryResult → QueryResult
push_filter filter r = record r { filters = r.filters ++ (filter ∷ []) }

-- chrono and the local time zone. A point in time is a number of seconds, a day a number of days.
pub record Calendar : Type 0 where
  -- `NaiveTime`, `NaiveDateTime` and `NaiveDate` from a text.
  pub parse_time : String → Option ℕ
  pub parse_datetime : String → Option ℕ
  pub parse_date : String → Option ℕ
  pub today : ℕ
  -- A day and a time of the day, as a date and time without a zone.
  pub and_time : ℕ → ℕ → ℕ
  -- The only local point in time with this date and time, and the latest one at midnight of a day.
  pub single_local : ℕ → Option ℕ
  pub latest_midnight : ℕ → Option ℕ
  pub max_utc : ℕ
