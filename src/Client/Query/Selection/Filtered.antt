-- ===== src/Client/Query/Selection/Filtered.antt =====
-- The tasks in view that pass the filters of a query.
use pueue.Base.{
  ◌≡◌, ◌≢◌, ◌↔◌, inl, inr, refl, sym, subst, ◌∙◌, String, Bool, true, Option, none, some, List, [],
  ◌∷◌, In, keep, ◌==◌, nat_ord, text_ord, ==→eq, eq→==, Bool-cases, arith,
}
use pueue.Task.{Task}
use pueue.Client.Query.{QueryResult}
use pueue.Client.Query.Selection.{
  apply_each, apply_filters, in_group, archive_group, outside_archive, retained,
}

-- What a task must be to pass the filters.
abbrev pub PassesAll : List (Task → Bool) → Task → Type 0
PassesAll filters task = (filter : Task → Bool) → In filter filters → filter task ≡ true

-- Without a group, all but the archive; with one, its tasks.
abbrev pub InView : Option String → Task → Type 0
InView none task = task.group ≢ archive_group
InView (some name) task = task.group ≡ name

-- The second list has the elements of the first that are `P`, all of them, in their order.
pub data Selects (P : Task → Type 0) : List Task → List Task → Type 0 where
  selects_none : Selects P [] []
  takes : (a : Task) (xs ys : List Task) → P a → Selects P xs ys → Selects P (a ∷ xs) (a ∷ ys)
  leaves_out : (a : Task) (xs ys : List Task) → ¬ P a → Selects P xs ys → Selects P (a ∷ xs) ys

keep-Selects :
    (f : Task → Bool) {P : Task → Type 0} (xs : List Task)
    → ((a : Task) → (f a ≡ true) ↔ P a)
    → Selects P xs (keep f xs)
unfolding keep
keep-Selects f [] same = selects_none
keep-Selects f (a ∷ xs) same = elim (Bool-cases (f a)) [
  | inl kept ↦ rw kept (takes a xs (keep f xs) ((same a).0 kept) (keep-Selects f xs same))
  | inr dropped ↦ rw dropped (
      leaves_out a xs (keep f xs) (λ p. absurd (ground (arith, dropped, (same a).1 p)))
        (keep-Selects f xs same))
]

Selects-trans :
    {P Q R : Task → Type 0} {xs ys zs : List Task}
    → ((a : Task) → R a ↔ (P a × Q a))
    → Selects P xs ys
    → Selects Q ys zs
    → Selects R xs zs
Selects-trans same selects_none selects_none = selects_none
Selects-trans same (takes a xs ys p rest) (takes _ _ zs q more) =
    takes a xs zs ((same a).1 (p, q)) (Selects-trans same rest more)
Selects-trans same (takes a xs ys p rest) (leaves_out _ _ zs q more) =
    leaves_out a xs zs (λ r. q ((same a).0 r).1) (Selects-trans same rest more)
Selects-trans same (leaves_out a xs ys p rest) m =
    leaves_out a xs _ (λ r. p ((same a).0 r).0) (Selects-trans same rest m)

Selects-all : {P : Task → Type 0} (xs : List Task) → ((a : Task) → P a) → Selects P xs xs
Selects-all [] h = selects_none
Selects-all (a ∷ xs) h = takes a xs xs (h a) (Selects-all xs h)

PassesAll-∷ :
    (filter : Task → Bool) (filters : List (Task → Bool)) (a : Task)
    → PassesAll (filter ∷ filters) a ↔ ((filter a ≡ true) × PassesAll filters a)
PassesAll-∷ filter filters a = (
  λ h. (h filter (inl refl), λ f m. h f (inr m)),
  λ h f m. elim m [ inl same ↦ subst (λ g. g a ≡ true) (sym same) h.0 | inr later ↦ h.1 f later ],
)

apply_each-Selects :
    (filters : List (Task → Bool)) (tasks : List Task)
    → Selects (PassesAll filters) tasks (apply_each filters tasks)
unfolding apply_each
apply_each-Selects [] tasks = Selects-all tasks (λ a f m. absurd m)
apply_each-Selects (filter ∷ filters) tasks =
    Selects-trans (PassesAll-∷ filter filters) (keep-Selects filter tasks (λ a. (λ e. e, λ e. e)))
      (apply_each-Selects filters (keep filter tasks))

outside_archive-ne : (a : Task) → (outside_archive a ≡ true) ↔ (a.group ≢ archive_group)
outside_archive-ne a = (
  λ h e. ground (arith, h, eq→== a.group archive_group e),
  λ n. elim (Bool-cases (a.group == archive_group)) [
    | inl e ↦ absurd (n (==→eq a.group archive_group e))
    | inr e ↦ rw e refl
  ],
)

in_group-eq : (name : String) (a : Task) → (in_group name a ≡ true) ↔ (a.group ≡ name)
in_group-eq name a = (==→eq a.group name, eq→== a.group name)

retained-Selects :
    (group : Option String) (tasks : List Task)
    → Selects (InView group) tasks (retained group tasks)
unfolding retained
retained-Selects none tasks = keep-Selects outside_archive tasks outside_archive-ne
retained-Selects (some name) tasks = elim (Bool-cases (name == archive_group)) [
  | inl archive ↦ rw (archive, retained) (keep-Selects (in_group name) tasks (in_group-eq name))
  | inr other ↦
      rw (other, retained)
        (Selects-trans
          (λ a. (
            λ e. ((λ same. ground (arith, other, eq→== name archive_group (sym e ∙ same))), e),
            λ h. h.1,
          ))
          (keep-Selects outside_archive tasks outside_archive-ne)
          (keep-Selects (in_group name) (keep outside_archive tasks) (in_group-eq name)))
]

-- The filter on the group of a query that was asked for it changes nothing.
pub apply_filters-Selects :
    (r : QueryResult) (group : Option String) (tasks : List Task)
    → r.group ≡ group
    → Selects
        (λ a. InView group a × PassesAll r.filters a)
        tasks
        (apply_filters r (retained group tasks))
unfolding apply_filters
apply_filters-Selects r none tasks e =
    rw (e, apply_filters)
      (Selects-trans (λ a. (λ h. h, λ h. h)) (retained-Selects none tasks)
        (apply_each-Selects r.filters (retained none tasks)))
apply_filters-Selects r (some name) tasks e =
    rw (e, apply_filters)
      (Selects-trans (λ a. (λ h. h, λ h. h))
        (Selects-trans {R = InView (some name)} (λ a. (λ h. (h, h), λ h. h.0))
          (retained-Selects (some name) tasks)
          (keep-Selects (in_group name) (retained (some name) tasks) (in_group-eq name)))
        (apply_each-Selects r.filters (keep (in_group name) (retained (some name) tasks))))
