-- ===== src/Tests/Client.antt =====
-- The client's task id arguments and its choice of tasks to archive, at concrete inputs.
use pueue.Base.{
  ℕ, some, ◌≡◌, refl, List, [], ◌∷◌, ok, err, stuck, true, false, inr, nat_ord, keep, get, insert,
  any_of, remove, contains, arith,
}
use pueue.State.{filter_tasks}
use pueue.Daemon.Ordered.{IsOrdered}
use pueue.Client.Archive.{archivable_tasks}
use pueue.Client.Archive.Removable.{AllRemovable, archivable_tasks-AllRemovable}
use pueue.Tests.Samples.{inner, daemon-IsLinked}
use pueue.Client.Numbers.{codes, parse_usize}
use pueue.Client.TaskIds.Ranges.{step_loop-goes_on}
use pueue.Client.TaskIds.{
  step_loop, split, parse_task_ids, parse_range, trim, start_after_end, overflows,
}
use pueue.Client.TaskIds.Pieces.{parse_range-overflows}
use pueue.Client.TaskIds.Listed.{Fits, Lists, parse_task_ids-Lists}

combined : parse_task_ids true (codes "9, 2:5,1,2:8:3") ≡ ok (1 ∷ 2 ∷ 3 ∷ 4 ∷ 5 ∷ 8 ∷ 9 ∷ [])
unfolding parse_task_ids contains parse_usize
combined = refl

reversed_range : parse_task_ids true (codes "5:1") ≡ err (start_after_end 5 1)
unfolding parse_task_ids contains parse_usize
reversed_range = refl

blank : parse_task_ids true (codes "  ") ≡ ok []
unfolding parse_task_ids contains parse_usize
blank = refl

-- In a build without overflow checks, with a range whose end lies a step below the limit.
unchecked : parse_task_ids false (codes "9,2:8:3") ≡ ok (2 ∷ 5 ∷ 8 ∷ 9 ∷ [])
unfolding parse_task_ids contains parse_usize
unchecked = refl

steps_fit : Fits (split b',' (codes "9,2:8:3"))
unfolding split trim parse_usize contains
steps_fit = (tt, ((λ end step e2 e3. ground arith), tt))

parse_task_ids-Lists_example : Lists (codes "9,2:8:3") (parse_task_ids false (codes "9,2:8:3"))
parse_task_ids-Lists_example = parse_task_ids-Lists false (codes "9,2:8:3") (inr steps_fit)

step_loop-goes_on_example : step_loop false 1000 1 18446744073709551615 5 ≡ stuck
step_loop-goes_on_example =
    step_loop-goes_on 1000 1 18446744073709551615 5 (omega arith) (omega arith)

abbrev first_piece : List ℕ
first_piece = codes "18446744073709551614"

abbrev last_piece : List ℕ
last_piece = codes "18446744073709551615"

parse_range-overflows_example :
    parse_range true (first_piece ∷ last_piece ∷ codes "1" ∷ []) ≡ err overflows
unfolding parse_usize trim contains
parse_range-overflows_example =
    parse_range-overflows first_piece last_piece (codes "1") 18446744073709551614
      18446744073709551615 1 refl refl refl (omega arith) (omega arith) (omega arith)

-- Task 3 runs; task 2 needs task 1 and is left out, and then task 1 needs task 0.
skipped : archivable_tasks inner (0 ∷ 1 ∷ 3 ∷ []) ≡ some ([], 3 ∷ 1 ∷ 0 ∷ [])
unfolding archivable_tasks keep filter_tasks get insert any_of contains remove
skipped = refl

inner-IsOrdered : IsOrdered inner.tasks
unfolding IsOrdered
inner-IsOrdered = omega arith

archivable_tasks-AllRemovable_example :
    AllRemovable inner.tasks (archivable_tasks inner (0 ∷ 1 ∷ 2 ∷ 3 ∷ []))
archivable_tasks-AllRemovable_example =
    archivable_tasks-AllRemovable inner (0 ∷ 1 ∷ 2 ∷ 3 ∷ []) daemon-IsLinked inner-IsOrdered
