-- ===== src/Daemon/Handlers/Edit/Circles.antt =====
-- What a refusal by `check_circular_dependency` (message_handler/edit.rs) means.
use pueue.Base.{
  ℕ, zero, suc, ◌≡◌, refl, subst, ◌⊎◌, inl, inr, Bool, true, false, Option, none, some, List, [],
  ◌∷◌, ◌++◌, arith, get, In, ◌==◌, ==→eq, nat_ord, Bool-cases, Option-cases,
}
use pueue.State.{Tasks}
use pueue.Daemon.Links.{dependencies_of}
use pueue.Daemon.Handlers.Edit.{
  Search, search_each, leave, dfs, dfs_fuel, check_circular_dependency,
}

-- Task `a` depends on task `b`, or on one that does so.
pub data Reaches (tasks : Tasks) : ℕ → ℕ → Type 0 where
  depends : {a b : ℕ} → In b (dependencies_of (get a tasks)) → Reaches tasks a b
  further :
      {a b c : ℕ} → In b (dependencies_of (get a tasks)) → Reaches tasks b c → Reaches tasks a c

search_each-found :
    (from : ℕ → Search → Option (Bool × Search)) (deps : List ℕ) (st st' : Search)
    → search_each from deps st ≡ some (true, st')
    → (d : ℕ) × In d deps × ((t : Search) × (t' : Search) × (from d t ≡ some (true, t')))
unfolding search_each
search_each-found from [] st st' e = absurd (ground arith)
search_each-found from (d ∷ deps) st st' e = elim (Option-cases (from d st)) [
  | inl stuck ↦ absurd (ground arith)
  | inr ((true, t), found) ↦ (d, inl refl, (st, t, found))
  | inr ((false, t), found) ↦
      let (x, m, rest) = search_each-found from deps t st' (ground arith) in (x, inr m, rest)
]

leave-found :
    (o : Option (Bool × Search)) (st : Search)
    → leave o ≡ some (true, st)
    → (t : Search) × (o ≡ some (true, t))
leave-found none st e = cc
leave-found (some (true, t)) st e = (t, refl)
leave-found (some (false, t)) st e = absurd (ground arith)

-- A search that finds its target stands there or can get there.
dfs-found :
    (fuel : ℕ) (tasks : Tasks) (current target : ℕ) (st st' : Search)
    → dfs fuel tasks current target st ≡ some (true, st')
    → (current ≡ target) ⊎ Reaches tasks current target
unfolding dfs
dfs-found zero tasks current target st st' e = cc
dfs-found (suc fuel) tasks current target st st' e = elim (Bool-cases (current == target)) [
  | inl same ↦ inl (==→eq current target same)
  | inr other ↦
      let inside : Search = record {
        visited = current ∷ st.visited;
        path = st.path ++ current ∷ [];
      } in
      let search =
        search_each (λ id t. dfs fuel tasks id target t) (dependencies_of (get current tasks))
          inside in
      let (t, found) = leave-found search st' (ground arith) in
      let (d, m, (u, u', hit)) =
        search_each-found (λ id t. dfs fuel tasks id target t) (dependencies_of (get current tasks))
          inside t found in
      elim (dfs-found fuel tasks d target u u' hit) [
        | inl here ↦ inr (subst (λ x. Reaches tasks current x) here (depends m))
        | inr on ↦ inr (further m on)
      ]
]

-- If `check_circular_dependency` refuses dependencies of a task as circular, then one of them is
-- the task itself or depends on it, perhaps through others.
pub check_circular_dependency-found :
    (tasks : Tasks) (task_id : ℕ) (deps : List ℕ) (x : ℕ) (path : List ℕ)
    → check_circular_dependency tasks task_id deps ≡ some (x ∷ path)
    → (d : ℕ) × In d deps × ((d ≡ task_id) ⊎ Reaches tasks d task_id)
unfolding check_circular_dependency
check_circular_dependency-found tasks task_id [] x path e = absurd (ground arith)
check_circular_dependency-found tasks task_id (d ∷ deps) x path e =
    let start : Search = record { visited = []; path = [] } in
    elim (Option-cases (dfs (dfs_fuel tasks) tasks d task_id start)) [
      | inl stuck ↦ absurd (ground arith)
      | inr ((true, t), found) ↦
          (d, inl refl, dfs-found (dfs_fuel tasks) tasks d task_id start t found)
      | inr ((false, t), found) ↦
          let (b, m, on) =
            check_circular_dependency-found tasks task_id deps x path (ground arith) in
          (b, inr m, on)
    ]
