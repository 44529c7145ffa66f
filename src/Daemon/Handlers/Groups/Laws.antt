-- ===== src/Daemon/Handlers/Groups/Laws.antt =====
-- The groups and the worker pools under group requests (message_handler/group.rs).
use mathlib.Core.Option
use pueue.Base.{
  ℕ, String, ◌≡◌, refl, sym, ap, subst, ◌∙◌, inl, inr, true, false, Option, none, some, [], ◌∷◌,
  arith, get, insert, get-insert, get-update, get-remove, contains_key, is_some, is_empty, any_of,
  values, text_ord, ◌==◌, if◌then◌else◌, Bool-cases, Option-cases,
}
use pueue.State.{Group, Groups, pueue_default_group}
use pueue.Task.{Task}
use pueue.Message.{lit, GroupRequest, Response, ShutdownRequest}
use pueue.Daemon.Os.{Os}
use pueue.Daemon.Workers.{Pool, Children}
use pueue.Daemon.Internal.{InternalState, create_group, remove_group, new_group, with_groups}
use pueue.Daemon.Responses.{ensure_group_exists, save_then}
use pueue.Daemon.Process.Kill.Follows.{limit_of}
use pueue.Daemon.Process.Kill.Shutdown.{Spares, initiate_shutdown-Spares}
use pueue.Daemon.TaskHandler.{empty_pools, init_pools}
use pueue.Daemon.Handlers.Groups.{
  set_parallel, with_parallel, add_group, removed, remove_with_pool, remove_group_request, group,
}

-- A pool for each group and no other.
abbrev pub HasPools : InternalState → Type 0
HasPools s = (g : String) → contains_key g s.children ≡ contains_key g s.groups

limit_is_some : (o : Option Group) → is_some (limit_of o) ≡ is_some o
limit_is_some none = refl
limit_is_some (some g) = refl

Spares-HasPools : {s t : InternalState} → Spares s t → HasPools s → HasPools t
Spares-HasPools {s} {t} f h g =
    ap (λ (c : Children). contains_key g c) f.spared_children
    ∙ h g
    ∙ sym (limit_is_some (get g s.groups))
    ∙ ap is_some (sym (f.spared_limits g))
    ∙ limit_is_some (get g t.groups)

save_then-HasPools :
    (os : Os) (s : InternalState) (r : Response) → HasPools s → HasPools (save_then os s r).0
unfolding save_then
save_then-HasPools os s r h g = ground (arith, h g)

map-is_some : {A : Type 0} (f : A → A) (o : Option A) → is_some (Option.map f o) ≡ is_some o
map-is_some f none = refl
map-is_some f (some a) = refl

with_parallel-keys :
    (n : Option ℕ) (name g : String) (groups : Groups)
    → contains_key g (with_parallel n name groups) ≡ contains_key g groups
with_parallel-keys none name g groups = refl
with_parallel-keys (some n) name g groups =
    ground (
      arith,
      get-update g name (set_parallel n) groups,
      map-is_some (set_parallel n) (get g groups),
    )

create_group-keys :
    (name g : String) (groups : Groups)
    → contains_key name groups ≡ false
    → contains_key g (create_group name groups)
      ≡ (if name == g then true else contains_key g groups)
unfolding create_group
create_group-keys name g groups e = ground (arith, get-insert g name new_group groups)

abbrev created : InternalState → String → Option ℕ → InternalState
created s name parallel =
    record (with_groups s (with_parallel parallel name (create_group name s.groups))) {
      children = insert name [] s.children;
    }

created-HasPools :
    (s : InternalState) (name : String) (parallel : Option ℕ)
    → contains_key name s.groups ≡ false
    → HasPools s
    → HasPools (created s name parallel)
created-HasPools s name parallel absent h g = ground (
  arith,
  get-insert g name [] s.children,
  with_parallel-keys parallel name g (create_group name s.groups),
  create_group-keys name g s.groups absent,
  h g,
)

add_group-HasPools :
    (os : Os) (s : InternalState) (name : String) (parallel : Option ℕ)
    → HasPools s
    → HasPools (add_group os s name parallel).0
unfolding add_group
add_group-HasPools os s name parallel h = elim (Bool-cases (contains_key name s.groups)) [
  | inl known ↦ rw (known, add_group) h
  | inr absent ↦
      let response =
        Response.success (lit "New group \"" ∷ lit name ∷ lit "\" has been created" ∷ []) in
      let same : (save_then os (created s name parallel) response).0
          ≡ (add_group os s name parallel).0 =
        ground arith in
      subst HasPools same (
        save_then-HasPools os (created s name parallel) response
          (created-HasPools s name parallel absent h))
]

removed-HasPools :
    (os : Os) (s : InternalState) (name : String)
    → HasPools s
    → HasPools (removed os s name (remove_group s name)).0
unfolding remove_group
removed-HasPools os s name h = elim (Bool-cases (name == pueue_default_group)) [
  | inl default ↦ rw (default, remove_group) h
  | inr other ↦
      rw (other, remove_group)
        (save_then-HasPools os _ _
          λ g. ground (arith, get-remove g name s.children, get-remove g name s.groups, h g))
]

remove_with_pool-HasPools :
    (os : Os) (s : InternalState) (name : String) (o : Option Pool)
    → HasPools s
    → HasPools (remove_with_pool os s name o).0
unfolding remove_with_pool
remove_with_pool-HasPools os s name none h =
    Spares-HasPools (initiate_shutdown-Spares os s ShutdownRequest.emergency) h
remove_with_pool-HasPools os s name (some pool) h = elim (Bool-cases (is_empty pool)) [
  | inl idle ↦ rw (idle, remove_with_pool) (removed-HasPools os s name h)
  | inr busy ↦
      rw (busy, remove_with_pool)
        (Spares-HasPools (initiate_shutdown-Spares os s ShutdownRequest.emergency) h)
]

remove_group_request-HasPools :
    (os : Os) (s : InternalState) (name : String)
    → HasPools s
    → HasPools (remove_group_request os s name).0
unfolding remove_group_request
remove_group_request-HasPools os s name h =
    elim (Option-cases (ensure_group_exists s.groups name)) [
      | inr (response, missing) ↦ rw (missing, remove_group_request) h
      | inl known ↦ elim (Bool-cases (name == pueue_default_group)) [
        | inl default ↦ rw (known, default, remove_group_request) h
        | inr other ↦
            elim (Bool-cases (any_of (λ (task : Task). task.group == name) (values s.tasks))) [
              | inl used ↦ rw (known, other, used, remove_group_request) h
              | inr unused ↦
                  rw (known, other, unused, remove_group_request)
                    (remove_with_pool-HasPools os s name (get name s.children) h)
            ]
      ]
    ]

-- If each group has a worker pool and each pool a group, then it is so after every group request,
-- refused or not.
pub group-HasPools :
    (os : Os) (s : InternalState) (message : GroupRequest)
    → HasPools s
    → HasPools (group os s message).0
unfolding group
group-HasPools os s GroupRequest.list h = h
group-HasPools os s (GroupRequest.add name parallel) h = add_group-HasPools os s name parallel h
group-HasPools os s (GroupRequest.remove name) h = remove_group_request-HasPools os s name h

-- The daemon's loop starts with a worker pool for each group and for nothing else.
pub init_pools-HasPools : (s : InternalState) → HasPools (init_pools s)
unfolding init_pools empty_pools get
init_pools-HasPools s g = of g s.groups
  where
    of :
        (g : String) (groups : Groups) → contains_key g (empty_pools groups) ≡ contains_key g groups
    of g [] = refl
    of g ((name, x) ∷ groups) = ground (arith, of g groups)
