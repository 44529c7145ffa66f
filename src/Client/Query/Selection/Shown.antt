-- ===== src/Client/Query/Selection/Shown.antt =====
-- Which tasks are shown.
use pueue.Base.{
  ℕ, ◌-◌, ◌≤◌, ◌<◌, ◌≡◌, ◌≢◌, ◌⊎◌, inl, inr, refl, sym, subst, ap, ◌∙◌, String, ◌||◌, Option, none,
  some, List, ◌++◌, sort_by, take, drop, length, take-drop, length-take_of_le, length-append, leb,
  ◌==◌, nat_ord, text_ord, Bool-cases, Option-cases, ok, ok_injective, >>=-eq-ok, or_err-eq-ok,
  arith,
}
use mathlib.Core.List.Permᴰ
use mathlib.Core.List.{Permᴰ, Pairwise}
use pueue.Base.Results.{◌>>=◌}
use pueue.Base.Orders.{Comparison, before}
use pueue.Task.{Task}
use pueue.Client.Query.{Rule, Pairs, QueryResult, Calendar, Direction, Limit, panics}
use pueue.Client.Query.Sections.{apply_query}
use pueue.Client.Query.Sections.Groups.{group-apply_query}
use pueue.Client.Query.Selection.Filtered.{InView, PassesAll, Selects, apply_filters-Selects}
use pueue.Client.Query.Selection.Sorted.{InDirection, directed-InDirection, comparison_of-IsOrder}
use pueue.Client.Query.Selection.{
  apply_filters, order_tasks, order_tasks_by, sort_tasks, limit_tasks_to, comparison_of, directed,
  limit_tasks, limited, retained, shown_tasks,
}

-- The tasks from the front or from the back.
abbrev pub IsEnd : Limit → (shown ordered : List Task) → Type 0
IsEnd Limit.first shown ordered = (rest : List Task) × (shown ++ rest ≡ ordered)
IsEnd Limit.last shown ordered = (rest : List Task) × (rest ++ shown ≡ ordered)

-- What `sort_by` may do with a comparison that is no order: give another order of the list.
abbrev pub Rearranges : (List Task → Option (List Task)) → Type 0
Rearranges unordered = (xs ys : List Task) → unordered xs ≡ some ys → Permᴰ ys xs

-- The tasks as a query orders them: as they were without an order; else a permutation, in which none
-- stands above one that goes before it where the column has a comparison.
abbrev pub IsArranged : Calendar → Option (Rule × Direction) → (tasks ordered : List Task) → Type 0
IsArranged calendar none tasks ordered = ordered ≡ tasks
IsArranged calendar (some (rule, direction)) tasks ordered =
    Permᴰ ordered tasks
    × ((cmp : Comparison Task)
        → comparison_of calendar rule ≡ some cmp
        → Pairwise (InDirection direction cmp) ordered)

directed-Permᴰ :
    (direction : Direction) (tasks sorted : List Task)
    → Permᴰ sorted tasks
    → Permᴰ (directed direction sorted) tasks
directed-Permᴰ Direction.ascending tasks sorted p = p
directed-Permᴰ Direction.descending tasks sorted p = Permᴰ.trans (Permᴰ.reverse sorted) p

same_comparison :
    {o : Option (Comparison Task)} {cmp cmp' : Comparison Task}
    → o ≡ some cmp
    → o ≡ some cmp'
    → cmp ≡ cmp'
same_comparison p q = cc

sort_tasks-IsArranged :
    (calendar : Calendar) (unordered : List Task → Option (List Task)) (rule : Rule)
    (direction : Direction) (tasks sorted : List Task)
    → Rearranges unordered
    → sort_tasks unordered (comparison_of calendar rule) tasks ≡ ok sorted
    → IsArranged calendar (some (rule, direction)) tasks (directed direction sorted)
sort_tasks-IsArranged calendar unordered rule direction tasks sorted safe e =
    elim (Option-cases (comparison_of calendar rule)) [
      | inl absent ↦ (
        directed-Permᴰ direction tasks sorted
            (safe tasks sorted (or_err-eq-ok panics (unordered tasks) (rw absent at e))),
        λ cmp known. absurd (ground (arith, absent, known)),
      )
      | inr (cmp, known) ↦
          let same : sort_by (before cmp) tasks ≡ sorted = ok_injective (rw known at e) in
          let (permutes, sorts) =
            subst
              (λ l.
                Permᴰ (directed direction l) tasks
                × Pairwise (InDirection direction cmp) (directed direction l))
              same
              (directed-InDirection direction cmp tasks
                (comparison_of-IsOrder calendar rule cmp known)) in
          (
            permutes,
            λ cmp' known'.
                subst (λ c. Pairwise (InDirection direction c) (directed direction sorted))
                  (same_comparison known known') sorts,
          )
    ]

order_tasks-IsArranged :
    (calendar : Calendar) (unordered : List Task → Option (List Task))
    (o : Option (Rule × Direction)) (tasks ordered : List Task)
    → Rearranges unordered
    → order_tasks_by calendar unordered o tasks ≡ ok ordered
    → IsArranged calendar o tasks ordered
order_tasks-IsArranged calendar unordered none tasks ordered safe e = sym (ok_injective e)
order_tasks-IsArranged calendar unordered (some (rule, direction)) tasks ordered safe e =
    let (sorted, found, shape) =
      >>=-eq-ok (sort_tasks unordered (comparison_of calendar rule) tasks) _ e in
    subst (λ l. IsArranged calendar (some (rule, direction)) tasks l) (ok_injective shape)
      (sort_tasks-IsArranged calendar unordered rule direction tasks sorted safe found)

-- What a limit leaves of the tasks.
abbrev pub IsCut : Option (Limit × ℕ) → (shown ordered : List Task) → Type 0
IsCut none shown ordered = shown ≡ ordered
IsCut (some (direction, n)) shown ordered =
    ((shown ≡ ordered) × ((length ordered ≤ n) ⊎ (n ≡ 0)))
    ⊎ ((n < length ordered) × (n ≢ 0) × (length shown ≡ n) × IsEnd direction shown ordered)

limited-IsEnd :
    (direction : Limit) (n : ℕ) (tasks : List Task)
    → n ≤ length tasks
    → (length (limited direction n tasks) ≡ n) × IsEnd direction (limited direction n tasks) tasks
limited-IsEnd Limit.first n tasks h =
    (length-take_of_le n tasks h, (drop n tasks, take-drop n tasks))
limited-IsEnd Limit.last n tasks h =
    let front = take (length tasks - n) tasks in
    let whole = take-drop (length tasks - n) tasks in
    (
      omega (
        arith,
        length-take_of_le (length tasks - n) tasks (omega arith),
        length-append front (drop (length tasks - n) tasks),
        ap (λ (l : List Task). length l) whole,
      ),
      (front, whole),
    )

limit_tasks-IsCut :
    (limit : Option (Limit × ℕ)) (tasks : List Task)
    → IsCut limit (limit_tasks_to limit tasks) tasks
limit_tasks-IsCut none tasks = refl
limit_tasks-IsCut (some (direction, n)) tasks = elim (Bool-cases (leb (length tasks) n || n == 0)) [
  | inl few ↦ rw few (inl (refl, ground (arith, few)))
  | inr many ↦
      let (counted, from_end) = limited-IsEnd direction n tasks (ground (arith, many)) in
      rw many (inr (ground (arith, many), (λ e. ground (arith, many)), counted, from_end))
]

-- If a query is parsed and its order does not panic, the tasks that it shows come about in three
-- steps. The tasks in view that pass its filters are selected, all of them, in their order; in
-- view are the tasks of the group that was asked for, or, without one, those outside the archive.
-- These are left in their order if the query asks for none, and are else permuted so that, if the
-- column has a comparison, none stands above one that goes before it in the direction that is
-- asked for. What is shown is all of the result without a limit, or if it is no longer than the
-- limit or the limit is 0, and else as many as the limit says, from the end of the result that it
-- names. Where a query orders by a column that has no comparison, it is assumed that the sorting
-- permutes the tasks.
pub shown_tasks-IsCut :
    (calendar : Calendar) (unordered : List Task → Option (List Task)) (group : Option String)
    (query : Option Pairs) (tasks shown : List Task) (r : QueryResult)
    → Rearranges unordered
    → apply_query calendar query group ≡ ok r
    → shown_tasks calendar unordered group (some query) tasks ≡ ok shown
    → (filtered ordered : List Task) × Selects
        (λ a. InView group a × PassesAll r.filters a)
        tasks
        filtered
      × IsArranged calendar r.order_by filtered ordered
      × IsCut r.limit shown ordered
unfolding shown_tasks order_tasks limit_tasks
shown_tasks-IsCut calendar unordered group query tasks shown r safe parsed e =
    let (r', found, rest') = >>=-eq-ok (apply_query calendar query group) _ e in
    let rest =
      subst
        (λ q.
          (order_tasks_by calendar unordered q.order_by (apply_filters q (retained group tasks))
            >>= (λ ordered. ok (limit_tasks_to q.limit ordered)))
          ≡ ok shown)
        (ok_injective (sym found ∙ parsed)) rest' in
    let filtered = apply_filters r (retained group tasks) in
    let (ordered, sorted, cut) =
      >>=-eq-ok (order_tasks_by calendar unordered r.order_by filtered) _ rest in
    (
      filtered,
      ordered,
      apply_filters-Selects r group tasks (group-apply_query calendar query group r parsed),
      order_tasks-IsArranged calendar unordered r.order_by filtered ordered safe sorted,
      subst (λ l. IsCut r.limit l ordered) (ok_injective cut) (limit_tasks-IsCut r.limit ordered),
    )
