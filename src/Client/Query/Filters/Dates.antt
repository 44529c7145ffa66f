-- ===== src/Client/Query/Filters/Dates.antt =====
-- The filters for whole days.
use pueue.Base.{ℕ, ◌+◌, ◌≤◌, ◌≡◌, ◌≢◌, refl, inl, inr, false, none, some, Option-cases, arith}
use pueue.Task.{Task}
use pueue.Client.Query.{Rule, Calendar}
use pueue.Client.Query.Filters.{datetime_filter, field_of, compare_operand, compare_day, date}

nothing_in_no_gap :
    (calendar : Calendar) (day start end : ℕ) (field : ℕ)
    → calendar.latest_midnight day ≡ some start
    → calendar.latest_midnight (day + 1) ≡ some end
    → start ≤ end
    → compare_operand calendar Rule.neq field (date day) ≡ false
unfolding compare_operand compare_day
nothing_in_no_gap calendar day start end field e1 e2 below = ground (arith, e1, e2)

-- If the day and the next one have a midnight, in this order, no task passes a filter `!=` with
-- that day on one of the three columns with a date: the filter wants a time that lies both before
-- the day and after it.
pub datetime_filter-neq_day :
    (calendar : Calendar) (field_column : Rule) (day start end : ℕ) (task : Task)
    → field_of field_column task ≢ none
    → calendar.latest_midnight day ≡ some start
    → calendar.latest_midnight (day + 1) ≡ some end
    → start ≤ end
    → datetime_filter calendar field_column Rule.neq (date day) task ≡ false
unfolding datetime_filter
datetime_filter-neq_day calendar field_column day start end task known e1 e2 below =
    elim (Option-cases (field_of field_column task)) [
      | inl unknown ↦ absurd (known unknown)
      | inr (none, found) ↦ rw (found, datetime_filter) refl
      | inr (some field, found) ↦
          rw (found, datetime_filter) (nothing_in_no_gap calendar day start end field e1 e2 below)
    ]
