-- ===== src/Daemon/Workers/Slots.antt =====
-- The slot of a new worker: `get_next_group_worker` of daemon/internal_state/children.rs.
use pueue.Base.{
  ℕ, suc, ◌+◌, ◌≤◌, ◌<◌, String, ◌≡◌, refl, subst, inl, inr, true, none, some, [], ◌∷◌, arith, keys,
  get, is_some, From, IsAscending, get-eq-none_of_lt, ◌==◌, ==→eq, nat_ord, text_ord, Bool-cases,
}
use pueue.Daemon.Os.{finished}
use pueue.Daemon.Workers.{Pool, Children, next_slot, get_next_group_worker}

-- Slots below `n`, from `next` on, are taken, and `n` is free.
pub record IsFirstGap (next n : ℕ) (pool : Pool) : Type 0 where
  pub bound : next ≤ n
  pub free : get n pool ≡ none
  pub taken : (m : ℕ) → next ≤ m → m < n → is_some (get m pool) ≡ true

next_slot-IsFirstGap :
    (next : ℕ) (pool : Pool) → From next pool → IsFirstGap next (next_slot next (keys pool)) pool
unfolding next_slot get
next_slot-IsFirstGap next [] f = record {
  bound = omega arith;
  free = refl;
  taken = λ m h k. absurd (omega arith);
}
next_slot-IsFirstGap next ((j, w) ∷ pool) f = elim (Bool-cases (j == next)) [
  | inl e ↦
      let rec : IsFirstGap (next + 1) (next_slot (next + 1) (keys pool)) pool =
        next_slot-IsFirstGap (next + 1) pool
          (subst (λ x. From x pool) (ground (arith, ==→eq j next e)) f.1) in
      record {
        bound = ground (arith, rec.bound);
        free = ground (arith, rec.free, rec.bound);
        taken = λ m h k. ground (arith, rec.taken m);
      }
  | inr e ↦ record {
    bound = ground arith;
    free = ground (arith, get-eq-none_of_lt next (suc j) pool f.1);
    taken = λ m h k. ground arith;
  }
]

-- If a group's pool has its slots in order, then the slot that `get_next_group_worker` gives is
-- free, and all lower slots are taken.
pub get_next_group_worker-IsFirstGap :
    (children : Children) (group : String) (pool : Pool) (worker_id : ℕ)
    → get group children ≡ some pool
    → IsAscending pool
    → get_next_group_worker children group ≡ finished worker_id
    → IsFirstGap 0 worker_id pool
unfolding get_next_group_worker
get_next_group_worker-IsFirstGap children group pool worker_id e f h =
    subst (λ n. IsFirstGap 0 n pool) (ground arith) (next_slot-IsFirstGap 0 pool f)
