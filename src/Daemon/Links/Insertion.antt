-- ===== src/Daemon/Links/Insertion.antt =====
-- The reverse index when a new task is linked to its dependencies (message_handler/add.rs).
use pueue.Base.{
  ℕ, ◌≡◌, refl, sym, ap, ◌∙◌, subst, inl, inr, true, false, Option, none, some, [], arith, get,
  insert, get-insert, In, is_some, ◌==◌, ==→eq, ==_refl, nat_ord, Bool-cases,
}
use pueue.Task.{Task}
use pueue.State.{Tasks}
use pueue.Daemon.Internal.{dependents_of}
use pueue.Daemon.Links.{add_links, dependencies_of}
use pueue.Daemon.Links.Shape.{shape-add_links}
use pueue.Daemon.Links.Steps.{add_links→, add_links←, add_links_self}
use pueue.Daemon.Links.Consistent.{IsLinked, dependencies_of-shape, is_some-of_shape}

-- No task names `n` as a dependency.
abbrev pub IsUnnamed : ℕ → Tasks → Type 0
IsUnnamed n tasks = (a : ℕ) → ¬ In n (dependencies_of (get a tasks))

is_some_of_dependent : (a : ℕ) (o : Option Task) → In a (dependents_of o) → is_some o ≡ true
is_some_of_dependent a none m = absurd m
is_some_of_dependent a (some t) m = refl

module _ (n : ℕ) (t : Task) (tasks : Tasks) where
  abbrev with_new : Tasks
  with_new = insert n t tasks

  abbrev linked_new : Tasks
  linked_new = add_links n t.dependencies with_new

  get_self : get n with_new ≡ some t
  get_self = ground (arith, get-insert n n t tasks, ==_refl n)

  get_other : (b : ℕ) → (n == b) ≡ false → get b with_new ≡ get b tasks
  get_other b e = ground (arith, get-insert b n t tasks)

  dependencies-linked :
      (a : ℕ) → dependencies_of (get a linked_new) ≡ dependencies_of (get a with_new)
  dependencies-linked a = dependencies_of-shape _ _ (shape-add_links a n t.dependencies with_new)

  is_some-linked : (b : ℕ) → is_some (get b linked_new) ≡ is_some (get b with_new)
  is_some-linked b = is_some-of_shape _ _ (shape-add_links b n t.dependencies with_new)

  module _ (absent : get n tasks ≡ none) (alone : t.dependents ≡ []) (unnamed : IsUnnamed n tasks)
      (other : ¬ In n t.dependencies) (linked : IsLinked tasks) where
    named→dependent :
        (a b : ℕ)
        → is_some (get b with_new) ≡ true
        → In b (dependencies_of (get a with_new))
        → In a (dependents_of (get b linked_new))
    named→dependent a b there m = elim (Bool-cases (n == a)) [
      | inl e ↦
          let same = ==→eq n a e in
          let m' = subst (λ x. In b (dependencies_of (get x with_new))) (sym same) m in
          subst (λ x. In x (dependents_of (get b linked_new))) same
            (add_links_self n b t.dependencies with_new there
              (subst (λ o. In b (dependencies_of o)) get_self m'))
      | inr e ↦
          let named = subst (λ o. In b (dependencies_of o)) (get_other a e) m in
          elim (Bool-cases (n == b)) [
            | inl same ↦ absurd (
                unnamed a
                  (subst (λ x. In x (dependencies_of (get a tasks))) (sym (==→eq n b same)) named))
            | inr e' ↦
                let there' = sym (ap is_some (get_other b e')) ∙ there in
                add_links← a n b t.dependencies with_new (
                  subst (λ o. In a (dependents_of o)) (sym (get_other b e'))
                    ((linked a b there').0 named))
          ]
    ]

    dependent→named :
        (a b : ℕ)
        → In a (dependents_of (get b linked_new))
        → In b (dependencies_of (get a with_new))
    dependent→named a b m = elim (add_links→ a n b t.dependencies with_new m) [
      | inr (e, k) ↦
          subst (λ x. In b (dependencies_of (get x with_new))) (sym e)
            (subst (λ o. In b (dependencies_of o)) (sym get_self) k)
      | inl old ↦ elim (Bool-cases (n == b)) [
        | inl e ↦
            let m' = subst (λ x. In a (dependents_of (get x with_new))) (sym (==→eq n b e)) old in
            absurd (subst (In a) alone (subst (λ o. In a (dependents_of o)) get_self m'))
        | inr e ↦
            let before = subst (λ o. In a (dependents_of o)) (get_other b e) old in
            let named = (linked a b (is_some_of_dependent a (get b tasks) before)).1 before in
            elim (Bool-cases (n == a)) [
              | inl same ↦ absurd (
                  subst (λ o. In b (dependencies_of o)) absent
                    (subst (λ x. In b (dependencies_of (get x tasks))) (sym (==→eq n a same))
                      named))
              | inr e' ↦ subst (λ o. In b (dependencies_of o)) (sym (get_other a e')) named
            ]
      ]
    ]

    -- A new task that names other tasks, and that none names, keeps the index exact.
    pub add_links-IsLinked : IsLinked linked_new
    add_links-IsLinked a b there = (
      (λ m. named→dependent a b (sym (is_some-linked b) ∙ there) (rw (dependencies-linked a) at m)),
      (λ m. rw (dependencies-linked a) (dependent→named a b m)),
    )
