-- ===== src/Prelude.antt =====
-- The names that the other modules share: the libraries', passed on, and those of the children.
mod Tests
mod Lists
mod Texts
mod Ints
mod Results
unfoldable pub use Tests.*
unfoldable pub use Lists.*
unfoldable pub use Texts.{bytes, text_eq, text_lt, starts_with, strip_prefix, contains_any}
pub use Texts.{
  Text, text_eq_iff, text_eq_refl, text_eq_sym, is_empty, Eq, ◌==◌, ==_iff, text_instance,
  nat_instance, nat_eq_iff,
}
unfoldable pub use Ints.{int_eq, decimal, int_text}
pub use Ints.{
  ℤ, pos, negsuc, int_eq_iff, int_eq_refl, int_instance, is_neg, is_positive, int_lt, zero_int,
}
pub use Results.*
pub use Prim.Native.Nat.{ℕ, zero, suc, ◌+◌, ◌-◌, ◌*◌, ◌/◌, ◌%◌, ◌^◌, ◌≤◌, ◌<◌}
pub use mathlib.Core.Path.{◌≡◌, refl, sym, ap, ◌∙◌, subst}
pub use mathlib.Core.Logic.{◌≢◌, ◌↔◌, ◌⊎◌, inl, inr}
pub use mathlib.Core.Bool.{Bool, true, false, not, ◌&&◌, ◌||◌}
pub use mathlib.Core.Option.{Option, none, some}
pub use mathlib.Core.List.{List, [], ◌∷◌, ◌++◌, map, reverse}
pub use native.Mathlib.Omega.{arith}
