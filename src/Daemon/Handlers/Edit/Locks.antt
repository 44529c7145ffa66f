-- ===== src/Daemon/Handlers/Edit/Locks.antt =====
-- An edit that is requested and then given up (message_handler/edit.rs): `edit_request` locks the
-- tasks and `edit_restore` unlocks them.
use mathlib.Core.Option
use pueue.Base.{
  ℕ, ◌≡◌, refl, sym, ap, ◌∙◌, inl, inr, false, not, ◌&&◌, Option, some, List, [], ◌∷◌, ◌++◌, arith,
  get, get-update, In, contains, contains→In, ◌==◌, ==→eq, ==_refl, nat_ord, if◌then◌else◌,
  Bool-cases, Option-cases,
}
use pueue.Task.{Task, TaskStatus, locked, is_queued, is_stashed, is_locked_status}
use pueue.Message.{EditableTask, editable, Response, Text}
use pueue.Daemon.Internal.{InternalState, change_status}
use pueue.Daemon.Handlers.Edit.{
  edit_request, edit_request_loop, edit_restore, edit_restore_loop, restored_response,
}

abbrev pub lock : Task → Task
lock task = record task { status = locked task.status }

get-change_status :
    (s : InternalState) (id k : ℕ) (status : TaskStatus)
    → get k (change_status s id status).tasks ≡ (
        if id == k
        then Option.map (λ (t : Task). record t { status = status }) (get k s.tasks)
        else get k s.tasks)
unfolding change_status
get-change_status s id k status =
    get-update k id (λ (t : Task). record t { status = status }) s.tasks

editable_unlocked :
    (t : Task)
    → (not (is_queued t) && not (is_stashed t)) ≡ false
    → is_locked_status t.status ≡ false
editable_unlocked t e = ground arith

-- A round of the loop that goes on.
request_step :
    (s s' : InternalState) (id : ℕ) (ids : List ℕ) (es es' : List EditableTask)
    → edit_request_loop s (id ∷ ids) es ≡ (s', Response.edit es')
    → (t : Task) × (get id s.tasks ≡ some t)
      × (is_locked_status t.status ≡ false)
      × (edit_request_loop (change_status s id (locked t.status)) ids (es ++ editable t ∷ [])
          ≡ (s', Response.edit es'))
unfolding edit_request_loop
request_step s s' id ids es es' e = elim (Option-cases (get id s.tasks)) [
  | inl absent ↦ absurd (ground arith)
  | inr (t, found) ↦ elim (Bool-cases (not (is_queued t) && not (is_stashed t))) [
    | inl refused ↦ absurd (ground arith)
    | inr accepted ↦ (t, found, editable_unlocked t accepted, ground arith)
  ]
]

-- Each requested id is of a task that was not locked.
was_unlocked :
    (s s' : InternalState) (ids : List ℕ) (es es' : List EditableTask)
    → edit_request_loop s ids es ≡ (s', Response.edit es')
    → (k : ℕ) → In k ids
    → (t : Task) × (get k s.tasks ≡ some t) × (is_locked_status t.status ≡ false)
was_unlocked s s' [] es es' e k m = absurd m
was_unlocked s s' (id ∷ ids) es es' e k m =
    let (t, found, unlocked, rest) = request_step s s' id ids es es' e in
    elim (Bool-cases (id == k)) [
      | inl same ↦ (t, ap (λ x. get x s.tasks) (sym (==→eq id k same)) ∙ found, unlocked)
      | inr other ↦
          let (u, later, open_task) =
            was_unlocked (change_status s id (locked t.status)) s' ids (es ++ editable t ∷ []) es'
              rest k (ground (arith, ==_refl k)) in
          (u, ground (arith, get-change_status s id k (locked t.status)), open_task)
    ]

-- No id comes twice.
abbrev Distinct : List ℕ → Type 0
Distinct [] = Unit {0}
Distinct (id ∷ ids) = (contains ids id ≡ false) × Distinct ids

head_distinct :
    (s s' : InternalState) (id : ℕ) (t : Task) (ids : List ℕ) (es es' : List EditableTask)
    → get id s.tasks ≡ some t
    → edit_request_loop (change_status s id (locked t.status)) ids es ≡ (s', Response.edit es')
    → contains ids id ≡ false
head_distinct s s' id t ids es es' found e = elim (Bool-cases (contains ids id)) [
  | inr absent ↦ absent
  | inl again ↦
      let (u, later, unlocked) = was_unlocked _ s' ids es es' e id (contains→In ids id again) in
      absurd (ground (arith, get-change_status s id id (locked t.status), ==_refl id))
]

distinct :
    (s s' : InternalState) (ids : List ℕ) (es es' : List EditableTask)
    → edit_request_loop s ids es ≡ (s', Response.edit es')
    → Distinct ids
distinct s s' [] es es' e = tt
distinct s s' (id ∷ ids) es es' e =
    let (t, found, _, rest) = request_step s s' id ids es es' e in
    (
      head_distinct s s' id t ids _ es' found rest,
      distinct (change_status s id (locked t.status)) s' ids (es ++ editable t ∷ []) es' rest,
    )

-- The tasks of the ids are locked, and the others are as before.
abbrev Locks : (ids : List ℕ) (before after : ℕ → Option Task) → Type 0
Locks ids before after =
    (k : ℕ) → after k ≡ (if contains ids k then Option.map lock (before k) else before k)

request-Locks :
    (s s' : InternalState) (ids : List ℕ) (es es' : List EditableTask)
    → edit_request_loop s ids es ≡ (s', Response.edit es')
    → Locks ids (λ k. get k s.tasks) (λ k. get k s'.tasks)
unfolding contains edit_request_loop
request-Locks s s' [] es es' e k = ground arith
request-Locks s s' (id ∷ ids) es es' e k =
    let (t, found, unlocked, rest) = request_step s s' id ids es es' e in
    let fresh = head_distinct s s' id t ids (es ++ editable t ∷ []) es' found rest in
    let later =
      request-Locks (change_status s id (locked t.status)) s' ids (es ++ editable t ∷ []) es' rest
        k in
    ground (arith, later, get-change_status s id k (locked t.status), ==→eq id k)

-- A round of the restore that unlocks a task.
restore_step :
    (u : InternalState) (id : ℕ) (ids : List ℕ) (complaints : Text) (t : Task)
    → get id u.tasks ≡ some (lock t)
    → edit_restore_loop u (id ∷ ids) complaints
      ≡ edit_restore_loop (change_status u id t.status) ids complaints
unfolding edit_restore_loop
restore_step u id ids complaints t found = ground arith

restore-unlocks :
    (ids : List ℕ) (before : ℕ → Option Task) (u : InternalState) (complaints : Text)
    → Distinct ids
    → ((k : ℕ) → In k ids → (t : Task) × (before k ≡ some t))
    → Locks ids before (λ k. get k u.tasks)
    → ((k : ℕ) → get k (edit_restore_loop u ids complaints).0.tasks ≡ before k)
      × ((edit_restore_loop u ids complaints).1 ≡ complaints)
unfolding edit_restore_loop contains
restore-unlocks [] before u complaints apart exist locks = ((λ k. ground (arith, locks k)), refl)
restore-unlocks (id ∷ ids) before u complaints apart exist locks =
    let (t, found) = exist id (inl refl) in
    let here : get id u.tasks ≡ some (lock t) = ground (arith, locks id, ==_refl id) in
    let step = restore_step u id ids complaints t here in
    let (same, quiet) =
      restore-unlocks ids before (change_status u id t.status) complaints apart.1
        (λ k m. exist k (inr m)) (unlocked t found) in
    ((λ k. ap (λ r. get k r.0.tasks) step ∙ same k), ap (λ r. r.1) step ∙ quiet)
  where
    unlocked :
        (t : Task)
        → before id ≡ some t
        → Locks ids before (λ k. get k (change_status u id t.status).tasks)
    unlocked t found k =
        ground (arith, locks k, locks id, get-change_status u id k t.status, ==→eq id k, ==_refl id)

-- If `edit_request` answers with the editable tasks, then `edit_restore` of the same ids gives
-- every task back as it was before the request, and answers with a success.
pub edit_restore-edit_request :
    (s s' : InternalState) (ids : List ℕ) (es : List EditableTask)
    → edit_request s ids ≡ (s', Response.edit es)
    → ((k : ℕ) → get k (edit_restore s' ids).0.tasks ≡ get k s.tasks)
      × ((edit_restore s' ids).1 ≡ restored_response ids [])
unfolding edit_request edit_restore
edit_restore-edit_request s s' ids es e =
    let (same, quiet) =
      restore-unlocks ids (λ k. get k s.tasks) s' [] (distinct s s' ids [] es e)
        (λ k m. let (t, found, _) = was_unlocked s s' ids [] es e k m in (t, found))
        (request-Locks s s' ids [] es e) in
    (same, ap (restored_response ids) quiet)
