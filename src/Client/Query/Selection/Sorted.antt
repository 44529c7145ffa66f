-- ===== src/Client/Query/Selection/Sorted.antt =====
-- The order of the tasks that a query asks for.
use mathlib.Core.List.Permᴰ
use mathlib.Core.List.{Permᴰ, Pairwise}
use pueue.Base.{◌≡◌, ◌≢◌, refl, subst, Option, some, List, sort_by, Ordering, compare, ok}
use pueue.Base.Orders.{
  Comparison, IsOrder, before, cmp_list, compare-IsOrder, cmp_by-IsOrder, cmp_option-IsOrder,
  cmp_list-IsOrder,
}
use pueue.Base.Sorting.{sort_by-Permᴰ, reverse-sort_by-Pairwise, sort_by-Pairwise}
use pueue.Task.{Task, start_and_end}
use pueue.Client.Numbers.{codes}
use pueue.Client.Query.{Rule, QueryResult, Calendar, Direction}
use pueue.Client.Query.Selection.{comparison_of, order_tasks, directed, components}

some-IsOrder : {cmp cmp' : Comparison Task} → IsOrder cmp → some cmp ≡ some cmp' → IsOrder cmp'
some-IsOrder o e = subst (λ c. IsOrder c) (cc e) o

texts : IsOrder (cmp_list compare)
texts = cmp_list-IsOrder compare compare-IsOrder

pub comparison_of-IsOrder :
    (calendar : Calendar) (rule : Rule) (cmp : Comparison Task)
    → comparison_of calendar rule ≡ some cmp
    → IsOrder cmp
unfolding comparison_of
comparison_of-IsOrder calendar Rule.column_id cmp e =
    some-IsOrder (cmp_by-IsOrder _ compare compare-IsOrder) e
comparison_of-IsOrder calendar Rule.column_status cmp e =
    some-IsOrder (cmp_by-IsOrder _ compare compare-IsOrder) e
comparison_of-IsOrder calendar Rule.column_label cmp e =
    some-IsOrder
      (cmp_by-IsOrder (λ (t : Task). t.label) _
        (cmp_option-IsOrder _ (cmp_by-IsOrder codes _ texts)))
      e
comparison_of-IsOrder calendar Rule.column_command cmp e =
    some-IsOrder (cmp_by-IsOrder (λ (t : Task). codes t.command) _ texts) e
comparison_of-IsOrder calendar Rule.column_path cmp e =
    some-IsOrder
      (cmp_by-IsOrder (λ (t : Task). components (codes t.path)) _ (cmp_list-IsOrder _ texts)) e
comparison_of-IsOrder calendar Rule.column_enqueue_at cmp e =
    some-IsOrder (cmp_by-IsOrder _ compare compare-IsOrder) e
comparison_of-IsOrder calendar Rule.column_start cmp e =
    some-IsOrder
      (cmp_by-IsOrder (λ (t : Task). (start_and_end t).0) _
        (cmp_option-IsOrder compare compare-IsOrder))
      e
comparison_of-IsOrder calendar Rule.column_end cmp e =
    some-IsOrder
      (cmp_by-IsOrder (λ (t : Task). (start_and_end t).1) _
        (cmp_option-IsOrder compare compare-IsOrder))
      e
comparison_of-IsOrder calendar other cmp e = absurd (cc e)

-- How two tasks stand, the first of them further up.
abbrev pub InDirection : Direction → Comparison Task → Task → Task → Type 0
InDirection Direction.ascending cmp upper lower = cmp upper lower ≢ Ordering.gt
InDirection Direction.descending cmp upper lower = cmp lower upper ≢ Ordering.gt

pub directed-InDirection :
    (direction : Direction) (cmp : Comparison Task) (tasks : List Task)
    → IsOrder cmp
    → Permᴰ (directed direction (sort_by (before cmp) tasks)) tasks
      × Pairwise (InDirection direction cmp) (directed direction (sort_by (before cmp) tasks))
directed-InDirection Direction.ascending cmp tasks o =
    (sort_by-Permᴰ (before cmp) tasks, sort_by-Pairwise cmp tasks o)
directed-InDirection Direction.descending cmp tasks o = (
  Permᴰ.trans (Permᴰ.reverse (sort_by (before cmp) tasks)) (sort_by-Permᴰ (before cmp) tasks),
  reverse-sort_by-Pairwise cmp tasks o,
)

-- An order by any of the columns that have a comparison gives a permutation of the tasks, and none
-- of them stands above one that goes before it in the direction that is asked for.
pub order_tasks-InDirection :
    (calendar : Calendar) (unordered : List Task → Option (List Task)) (query_result : QueryResult)
    (rule : Rule) (direction : Direction) (cmp : Comparison Task) (tasks : List Task)
    → query_result.order_by ≡ some (rule, direction)
    → comparison_of calendar rule ≡ some cmp
    → (ordered : List Task) × (order_tasks calendar unordered query_result tasks ≡ ok ordered)
      × Permᴰ ordered tasks
      × Pairwise (InDirection direction cmp) ordered
unfolding order_tasks
order_tasks-InDirection calendar unordered query_result rule direction cmp tasks asked known =
    let (same, sorted) =
      directed-InDirection direction cmp tasks (comparison_of-IsOrder calendar rule cmp known) in
    (
      directed direction (sort_by (before cmp) tasks),
      rw (asked, order_tasks) (rw known refl),
      same,
      sorted,
    )
