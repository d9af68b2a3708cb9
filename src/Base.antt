-- ===== src/Base.antt =====
-- The names that every module shares: the libraries', passed on, and those of the children.
mod Tests
mod Lists
pub mod Text
pub mod Int
pub mod Decimal
pub mod Trim
pub use Tests.*
pub use Lists.*
unfoldable pub use Text.{
  Str, codes, str_eq, mem_str, is_space, is_digit, lower, to_lower, equal_fold, drop_while, trim,
  trim_space, trim_right, has_prefix, trim_prefix, has_suffix, contains, split, cut, fields,
  join_with, parse_uint, max_uint64,
}
pub use Text.{
  str_eq_iff, str_eq_refl, str_eq-append_self, str_eq-append, str_eq_comm, parse_uint-le-max,
}
pub use Prim.Native.Nat.{ℕ, zero, suc, ◌+◌, ◌-◌, ◌*◌, ◌/◌, ◌%◌, ◌^◌, ◌≤◌, ◌<◌}
pub use mathlib.Core.Path.{◌≡◌, refl, sym, ap, ◌∙◌, subst}
pub use mathlib.Core.Logic.{◌≢◌, ◌↔◌, ◌⊎◌, inl, inr}
pub use mathlib.Core.Bool.{Bool, true, false, not, ◌&&◌, ◌||◌}
pub use mathlib.Core.Option.{Option, none, some}
pub use mathlib.Core.List.{List, [], ◌∷◌, ◌++◌, map, append_assoc, append-nil}
pub use native.Mathlib.Omega.{arith}
