-- ===== src/Daemon/Handlers/Remove/Blocked.antt =====
-- Which of the selected tasks `remove` lets go (message_handler/remove.rs).
use pueue.Base.{
  ℕ, suc, ◌≡◌, refl, inl, inr, Bool, true, false, not, some, List, [], ◌∷◌, arith, length, In,
  In-keep, keep-In, ◌==◌, ==→eq, ==_refl, subst, sym, ap, ◌∙◌, nat_ord, if◌then◌else◌, Option-cases,
  Bool-cases,
}
use pueue.State.{Tasks, FilteredTasks}
use pueue.Daemon.Os.{finished}
use pueue.Daemon.Internal.{is_task_removable}
use pueue.Daemon.Internal.Removable.{Descends, Descends-trans, removable→In, In→removable}
use pueue.Daemon.Handlers.Remove.{drop_blocked, move_to_mismatch}

module _ (tasks : Tasks) where
  abbrev next_of : ℕ → FilteredTasks → Bool → FilteredTasks
  next_of id filtered removable = if removable then filtered else move_to_mismatch id filtered

  -- A step of the loop that does not overflow the stack has an answer.
  drop_step :
      (id : ℕ) (ids : List ℕ) (filtered allowed : FilteredTasks)
      → drop_blocked tasks (id ∷ ids) filtered ≡ finished allowed
      → (removable : Bool) × (is_task_removable (suc (length tasks)) tasks id filtered.matching_ids
          ≡ some removable)
        × (drop_blocked tasks ids (next_of id filtered removable) ≡ finished allowed)
  unfolding drop_blocked
  drop_step id ids filtered allowed e =
      elim (Option-cases (is_task_removable (suc (length tasks)) tasks id filtered.matching_ids)) [
        | inl missing ↦ absurd (ground arith)
        | inr (removable, found) ↦ (removable, found, ground arith)
      ]

  next-subset :
      (x : ℕ) (filtered : FilteredTasks) (removable : Bool) (id : ℕ)
      → In id (next_of x filtered removable).matching_ids
      → In id filtered.matching_ids
  next-subset x filtered true id m = m
  next-subset x filtered false id m = (In-keep (λ id. not (id == x)) id filtered.matching_ids m).0

  -- The loop only takes ids out of the matching ones.
  pub drop_blocked-subset :
      (ids : List ℕ) (filtered allowed : FilteredTasks)
      → drop_blocked tasks ids filtered ≡ finished allowed
      → (id : ℕ) → In id allowed.matching_ids
      → In id filtered.matching_ids
  unfolding drop_blocked
  drop_blocked-subset [] filtered allowed e id m = ground arith
  drop_blocked-subset (x ∷ ids) filtered allowed e id m =
      let (removable, found, rest) = drop_step x ids filtered allowed e in
      let m' = drop_blocked-subset ids (next_of x filtered removable) allowed rest id m in
      next-subset x filtered removable id m'

  next_keeps :
      (P : ℕ → Type 0) (x : ℕ) (filtered : FilteredTasks) (removable : Bool)
      → is_task_removable (suc (length tasks)) tasks x filtered.matching_ids ≡ some removable
      → ((a b : ℕ) → P a → Descends tasks a b → P b)
      → ((a : ℕ) → P a → In a filtered.matching_ids)
      → (a : ℕ) → P a
      → In a (next_of x filtered removable).matching_ids
  next_keeps P x filtered true found closed inside a p = inside a p
  next_keeps P x filtered false found closed inside a p =
      keep-In (λ id. not (id == x)) a filtered.matching_ids (inside a p)
        (elim (Bool-cases (a == x)) [
          | inr e ↦ rw e
          | inl e ↦ absurd (
              In→removable tasks filtered.matching_ids (suc (length tasks)) x
                (λ b d. inside b (closed x b (subst P (==→eq a x e) p) d)) found)
        ])

  -- A set of matching ids that is closed under unfinished dependents stays.
  drop_blocked_keeps :
      (P : ℕ → Type 0) (ids : List ℕ) (filtered allowed : FilteredTasks)
      → drop_blocked tasks ids filtered ≡ finished allowed
      → ((a b : ℕ) → P a → Descends tasks a b → P b)
      → ((a : ℕ) → P a → In a filtered.matching_ids)
      → (a : ℕ) → P a
      → In a allowed.matching_ids
  unfolding drop_blocked
  drop_blocked_keeps P [] filtered allowed e closed inside a p = ground (arith, inside a p)
  drop_blocked_keeps P (x ∷ ids) filtered allowed e closed inside a p =
      let (removable, found, rest) = drop_step x ids filtered allowed e in
      drop_blocked_keeps P ids (next_of x filtered removable) allowed rest closed
        (next_keeps P x filtered removable found closed inside) a p

  kept_was_removable :
      (x : ℕ) (ids : List ℕ) (filtered allowed : FilteredTasks) (removable : Bool)
      → drop_blocked tasks ids (next_of x filtered removable) ≡ finished allowed
      → In x allowed.matching_ids
      → removable ≡ true
  kept_was_removable x ids filtered allowed true e k = refl
  kept_was_removable x ids filtered allowed false e k =
      let m = drop_blocked-subset ids (next_of x filtered false) allowed e x k in
      ground (arith, In-keep (λ id. not (id == x)) x filtered.matching_ids m, ==_refl x)

  -- With a task go all unfinished tasks that depend on it, through others too.
  pub drop_blocked-closed :
      (ids : List ℕ) (filtered allowed : FilteredTasks)
      → drop_blocked tasks ids filtered ≡ finished allowed
      → (a b : ℕ) → In a ids
      → In a allowed.matching_ids
      → Descends tasks a b
      → In b allowed.matching_ids
  unfolding drop_blocked
  drop_blocked-closed [] filtered allowed e a b m k d = absurd m
  drop_blocked-closed (x ∷ ids) filtered allowed e a b (inr m) k d =
      let (removable, found, rest) = drop_step x ids filtered allowed e in
      drop_blocked-closed ids (next_of x filtered removable) allowed rest a b m k d
  drop_blocked-closed (x ∷ ids) filtered allowed e a b (inl here) k d =
      let (removable, found, rest) = drop_step x ids filtered allowed e in
      let yes_removable =
        kept_was_removable x ids filtered allowed removable rest
          (subst (λ c. In c allowed.matching_ids) here k) in
      drop_blocked_keeps (λ c. Descends tasks x c) ids (next_of x filtered removable) allowed rest
        (λ _ _ p q. Descends-trans p q)
        (λ c p.
          subst (λ r. In c (next_of x filtered r).matching_ids) (sym yes_removable)
            (removable→In tasks filtered.matching_ids (suc (length tasks)) x c
              (found ∙ ap some yes_removable) p))
        b (subst (λ c. Descends tasks c b) here d)
