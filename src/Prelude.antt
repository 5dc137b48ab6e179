-- ===== src/Prelude.antt =====
-- The names that the other modules share: the libraries', passed on, and those of the children.
pub mod Tests
pub mod Lists
pub mod Int
pub mod Text
pub mod Dictionary
pub mod Float
pub mod Strings
pub use Tests.*
pub use Lists.{
  length, is_empty, filter-true, length-append, length-filter, count_if-append, any-append,
  all-append,
}
unfoldable pub use Lists.{filter, any, all, count_if, take, drop, replicate}
pub use Int.*
pub use Text.{
  Str, codes, str_eq_iff, str_eq_refl, str_eq_sym, str_lt_irrefl, str_lt_trans, str_lt_total,
}
unfoldable pub use Text.{str_eq, str_lt}
pub use Dictionary.{Dict, lookup-insert, get_or}
unfoldable pub use Dictionary.{lookup, insert}
pub use Prim.Native.Nat.{ℕ, zero, suc, ◌+◌, ◌-◌, ◌*◌, ◌/◌, ◌%◌, ◌^◌, ◌≤◌, ◌<◌}
pub use mathlib.Core.Path.{◌≡◌, refl, sym, ap, ◌∙◌}
pub use mathlib.Core.Logic.{◌≢◌, ◌↔◌, ◌⊎◌, inl, inr}
pub use mathlib.Core.Bool.{Bool, true, false, not, ◌&&◌, ◌||◌}
pub use mathlib.Core.Option.{Option, none, some}
pub use mathlib.Core.List.{List, [], ◌∷◌, ◌++◌, map}
pub use native.Mathlib.Omega.{arith}
pub use Float.{FloatOps}
