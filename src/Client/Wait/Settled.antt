-- ===== src/Client/Wait/Settled.antt =====
-- When `wait` ends because all tasks have reached the status.
use pueue.Base.{
  ℕ, ◌≡◌, ◌⊎◌, inl, inr, refl, sym, subst, ap, ◌∙◌, Bool, true, false, ◌&&◌, Option, none, some,
  List, [], ◌∷◌, OrdMap, keys, get, is_empty, In, nat_ord, Bool-cases, Option-cases, if◌then◌else◌,
  arith,
}
use pueue.Task.{Task, TaskStatus, has_failed}
use pueue.State.{State}
use pueue.Message.{TaskSelection}
use pueue.Client.Wait.{
  WaitTargetStatus, Waiting, Ended, all_reached, no_tasks, exit_1, Round, ended, goes_on,
  reached_target_status, get_tasks, look_at_each, find_task, waits_for_success, finish, check_task,
  check_each, after_checks, round, rounds, wait,
}
use pueue.Client.Wait.Covered.{
  IsSettled, Covered, Sound, look_at_each-Sound, look_at_each-Covered, look_at_each-Covered_entry,
  Covered-remove,
}

get-eq-none_of_no_keys :
    (id : ℕ) (m : OrdMap ℕ TaskStatus) → is_empty (keys m) ≡ true → get id m ≡ none
unfolding get
get-eq-none_of_no_keys id [] e = refl
get-eq-none_of_no_keys id ((k, status) ∷ m) e = cc

Round-cases : (r : Round) → ((how : Ended) × (r ≡ ended how)) ⊎ ((w : Waiting) × (r ≡ goes_on w))
Round-cases (ended how) = inl (how, refl)
Round-cases (goes_on w) = inr (w, refl)

module _ (target : WaitTargetStatus) (selection : TaskSelection) (all : List State) where
  -- A step of the second loop in one of the states.
  module _ (state : State) (seen : In state all) where
    abbrev Kept : Waiting → Option Waiting → Type 0
    Kept w none = Unit
    Kept w (some w') =
        Sound target selection all w'
        × ((id : ℕ) → Covered target selection all w id → Covered target selection all w' id)

    finish-Kept :
        (id : ℕ) (w : Waiting)
        → IsSettled target selection all id
        → Sound target selection all w
        → Kept w (some (finish id w))
    finish-Kept id w settled sound = (
      (λ i m. elim m [
        | inl same ↦ subst (λ j. IsSettled target selection all j) (sym same) settled
        | inr before ↦ sound i before
      ]),
      λ i c. Covered-remove target selection all id i w (id ∷ w.finished_tasks) settled c,
    )

    if-Kept : (b : Bool) (w w' : Waiting) → Kept w (some w') → Kept w (if b then none else some w')
    if-Kept true w w' k = tt
    if-Kept false w w' k = k

    check_found-Kept :
        (id : ℕ) (task : Task) (w : Waiting) (b : Bool)
        → find_task id (get_tasks state selection) ≡ some task
        → reached_target_status task target ≡ b
        → Sound target selection all w
        → Kept w (some (if b then finish id w else w))
    check_found-Kept id task w true found reached sound =
        finish-Kept id w (state, seen, inr (task, found, reached)) sound
    check_found-Kept id task w false found reached sound = (sound, λ i c. c)

    check_task-Kept :
        (id : ℕ) (o : Option Task) (w : Waiting)
        → find_task id (get_tasks state selection) ≡ o
        → Sound target selection all w
        → Kept w (check_task target id o w)
    check_task-Kept id none w found sound = (
      sound,
      λ i c. Covered-remove target selection all id i w w.finished_tasks (state, seen, inl found) c,
    )
    check_task-Kept id (some task) w found sound =
        if-Kept (waits_for_success target && has_failed task) w _
          (check_found-Kept id task w (reached_target_status task target) found refl sound)

    Kept-trans :
        (w w' : Waiting) (r : Option Waiting)
        → ((id : ℕ) → Covered target selection all w id → Covered target selection all w' id)
        → Kept w' r
        → Kept w r
    Kept-trans w w' none first k = tt
    Kept-trans w w' (some r) first k = (k.0, λ i c. k.1 i (first i c))

    check_each-Kept :
        (ids : List ℕ) (w : Waiting)
        → Sound target selection all w
        → Kept w (check_each target (get_tasks state selection) ids w)
    unfolding check_each
    check_each-Kept [] w sound = (sound, λ i c. c)
    check_each-Kept (id ∷ ids) w sound =
        let found = find_task id (get_tasks state selection) in
        let step = check_task-Kept id found w refl sound in
        elim (Option-cases (check_task target id found w)) [
          | inl exits ↦ rw (exits, check_each) tt
          | inr (w', goes) ↦
              let kept : Kept w (some w') = subst (λ r. Kept w r) goes step in
              rw (goes, check_each)
                (Kept-trans w w' (check_each target (get_tasks state selection) ids w') kept.1
                  (check_each-Kept ids w' kept.0))
        ]

  -- All tasks that were seen are covered, or the wait has ended and they are settled.
  abbrev Before : Waiting → (ℕ → Type 0) → Type 0
  Before w Seen =
      Sound target selection all w × ((id : ℕ) → Seen id → Covered target selection all w id)

  abbrev SeenIn : State → ℕ → Type 0
  SeenIn state id = (task : Task) × In task (get_tasks state selection) × (task.id ≡ id)

  looked-Before :
      (state : State) (w : Waiting) (Seen : ℕ → Type 0)
      → Before w Seen
      → Before (look_at_each (get_tasks state selection) w) (λ id. Seen id ⊎ SeenIn state id)
  looked-Before state w Seen b = (
    look_at_each-Sound target selection all (get_tasks state selection) w b.0,
    λ id seen. elim seen [
      | inl before ↦
          look_at_each-Covered target selection all (get_tasks state selection) w id (b.1 id before)
      | inr (task, m, same) ↦
          subst (λ i. Covered target selection all (look_at_each (get_tasks state selection) w) i)
            same
            (look_at_each-Covered_entry target selection all (get_tasks state selection) w task b.0
              m)
    ],
  )

  -- What a round leaves.
  abbrev AfterRound : (ℕ → Type 0) → Round → Type 0
  AfterRound Seen (ended all_reached) = (id : ℕ) → Seen id → IsSettled target selection all id
  AfterRound Seen (ended no_tasks) = Unit
  AfterRound Seen (ended exit_1) = Unit
  AfterRound Seen (goes_on w) = Before w Seen

  empty-Covered :
      (w : Waiting) (id : ℕ)
      → is_empty (keys w.watched_tasks) ≡ true
      → Covered target selection all w id
      → IsSettled target selection all id
  empty-Covered w id nothing (inr settled) = settled
  empty-Covered w id nothing (inl watched) =
      absurd (ground (arith, watched, get-eq-none_of_no_keys id w.watched_tasks nothing))

  after_checks-AfterRound :
      (w : Waiting) (r : Option Waiting) (Seen : ℕ → Type 0) (state : State) (seen : In state all)
      → ((id : ℕ) → Seen id → Covered target selection all w id)
      → Kept state seen w r
      → AfterRound Seen (after_checks r)
  after_checks-AfterRound w none Seen state seen c k = tt
  after_checks-AfterRound w (some w') Seen state seen c k =
      elim (Bool-cases (is_empty (keys w'.watched_tasks))) [
        | inl nothing ↦ rw nothing (λ id m. empty-Covered w' id nothing (k.1 id (c id m)))
        | inr left ↦ rw left (k.0, λ id m. k.1 id (c id m))
      ]

  round-AfterRound :
      (state : State) (w : Waiting) (Seen : ℕ → Type 0)
      → In state all
      → Before w Seen
      → AfterRound (λ id. Seen id ⊎ SeenIn state id) (round target selection state w)
  unfolding round
  round-AfterRound state w Seen seen b =
      let tasks = get_tasks state selection in
      let looked = look_at_each tasks w in
      let before = looked-Before state w Seen b in
      elim (Bool-cases (is_empty tasks)) [
        | inl nothing ↦ rw (nothing, round) tt
        | inr some_left ↦
            rw (some_left, round)
              (after_checks-AfterRound looked
                (check_each target tasks (keys looked.watched_tasks) looked)
                (λ id. Seen id ⊎ SeenIn state id) state seen before.1
                (check_each-Kept state seen (keys looked.watched_tasks) looked before.0))
      ]

  abbrev AllSettled : (ℕ → Type 0) → List State → Type 0
  AllSettled Seen states =
      ((id : ℕ) → Seen id → IsSettled target selection all id)
      × ((state : State) (id : ℕ)
          → In state states
          → SeenIn state id
          → IsSettled target selection all id)

  AllSettled-cons :
      (state : State) (states : List State) (Seen : ℕ → Type 0)
      → ((id : ℕ) → Seen id ⊎ SeenIn state id → IsSettled target selection all id)
      → ((s : State) (id : ℕ) → In s states → SeenIn s id → IsSettled target selection all id)
      → AllSettled Seen (state ∷ states)
  AllSettled-cons state states Seen first later = (
    λ id m. first id (inl m),
    λ s id m seen. elim m [
      | inl same ↦ first id (inr (subst (λ t. SeenIn t id) same seen))
      | inr rest ↦ later s id rest seen
    ],
  )

  rounds-AllSettled :
      (states : List State) (w : Waiting) (Seen : ℕ → Type 0)
      → ((state : State) → In state states → In state all)
      → Before w Seen
      → rounds target selection states w ≡ some (all_reached, [])
      → AllSettled Seen states
  unfolding rounds
  rounds-AllSettled [] w Seen inside b e = cc
  rounds-AllSettled (state ∷ states) w Seen inside b e =
      let step = round-AfterRound state w Seen (inside state (inl refl)) b in
      elim (Round-cases (round target selection state w)) [
        | inl (how, found) ↦
            let last : some (how, states) ≡ some (all_reached, []) = rw (found, rounds) at e in
            let reached : how ≡ all_reached = cc last in
            let none_left : states ≡ [] = cc last in
            AllSettled-cons state states Seen
              (subst (λ r. AfterRound (λ id. Seen id ⊎ SeenIn state id) r)
                (found ∙ ap ended reached) step)
              (λ s id m. absurd (subst (λ l. In s l) none_left m))
        | inr (w', found) ↦
            let before = subst (λ r. AfterRound (λ id. Seen id ⊎ SeenIn state id) r) found step in
            let (first, later) =
              rounds-AllSettled states w' (λ id. Seen id ⊎ SeenIn state id)
                (λ s m. inside s (inr m)) before (rw (found, rounds) at e) in
            AllSettled-cons state states Seen first later
      ]

-- If `wait` ends after the last of the states that it was given because every task has reached the
-- status, then each task that was selected in one of these states has reached it, or is not
-- selected, in one of them.
pub wait-IsSettled :
    (target : WaitTargetStatus) (selection : TaskSelection) (states : List State) (state : State)
    (task : Task)
    → wait (some target) selection states ≡ some (all_reached, [])
    → In state states
    → In task (get_tasks state selection)
    → IsSettled target selection states task.id
unfolding wait
wait-IsSettled target selection states state task e there selected =
    (rounds-AllSettled target selection states states
        (record { watched_tasks = []; finished_tasks = [] }) (λ id. ⊥) (λ s m. m)
        (λ id m. absurd m, λ id m. absurd m) e).1
      state task.id there (task, selected, refl)
