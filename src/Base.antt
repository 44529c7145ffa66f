-- ===== src/Base.antt =====
-- The names that the other modules share: the libraries', passed on, and those of the children.
mod Tests
mod Lists
mod Maps
mod Ascending
mod Int
pub mod Results
pub mod Orders
pub mod Sorting
pub mod Utf8
unfoldable pub use Tests.{ltb, leb, if◌then◌else◌, is_some, nat_ord, text_ord, ◌==◌}
pub use Tests.{
  Ord, nat_cmp_eq, nat_cmp_refl, Bool-cases, Option-cases, Sum-cases, ==→eq, ==_refl, eq→==, ==_iff,
}
unfoldable pub use Lists.{
  length, take, drop, In, All, head?, is_empty, keep, all_of, any_of, insert_by, sort_by, contains,
}
pub use Lists.{
  In-keep, keep-In, all_of→, any_of→, In→any_of, In-insert_by, insert_by-In, In-sort_by, sort_by-In,
  length-append, take-drop, length-take_of_le, length-drop-le, append_inj, contains→In, In→contains,
  all_of-In, In-++, ++-In,
}
unfoldable pub use Maps.{
  OrdMap, keys, values, map_values, retain, last_key, get, contains_key, insert, update, remove,
}
pub use Maps.{
  get-insert, get-update, get-remove, get-map_values, get→In, In-keys, In-keys→get, In-values,
}
unfoldable pub use Ascending.{From, IsAscending}
pub use Ascending.{
  get-eq-none_of_lt, get-eq-none_of_last, insert-From, update-From, remove-From, map_values-From,
  retain-From, In→get,
}
pub use Results.{
  Result, ok, err, stuck, Result-cases, ok_injective, >>=-eq-ok, or_err-eq-ok, >>=-eq-stuck,
  or_err->>=-eq-stuck,
}
unfoldable pub use Results.{or_err}
unfoldable pub use Int.{pos_part, neg_part, ◌≤ℤ◌, ◌<ℤ◌, cmp_ℤ}
pub use Int.{ℤ, pos, negsuc, eq_of_parts}
pub use Prim.Native.Nat.{ℕ, zero, suc, ◌+◌, ◌-◌, ◌*◌, ◌/◌, ◌%◌, ◌^◌, ◌≤◌, ◌<◌, compare, Ordering}
pub use Prim.Native.String.{String}
pub use mathlib.Core.Path.{◌≡◌, refl, sym, ap, ◌∙◌, subst}
pub use mathlib.Core.Logic.{◌≢◌, ◌↔◌, ◌⊎◌, inl, inr}
pub use mathlib.Core.Bool.{Bool, true, false, not, ◌&&◌, ◌||◌}
pub use mathlib.Core.Option.{Option, none, some}
pub use mathlib.Core.List.{List, [], ◌∷◌, ◌++◌, map, reverse, append_assoc, append-nil}
pub use native.Mathlib.Omega.{arith}
