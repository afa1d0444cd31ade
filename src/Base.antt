-- ===== src/Base.antt =====
-- Shared by every module: the library names passed on, and helpers over the native numbers.
mod Tests
mod Lists
mod Int
mod Strings
mod Decimal
mod Members
pub use Tests.*
pub use Lists.*
pub use Int.{ℤ, pos, negsuc, pos_part, neg_part, sub_ℕ, ◌≤ℤ◌, ◌<ℤ◌, leb_ℤ, ltb_ℤ}
unfoldable pub use Int.{◌+ℤ◌, ◌-ℤ◌}
unfoldable pub use Strings.{text_eq, has_prefix, contains, has_suffix}
unfoldable pub use Decimal.{decimal}
pub use Decimal.{decimal_injective, decimal-digits, decimal-ne, is_decimal_byte}
unfoldable pub use Members.{member}
pub use Members.{member-cons_self, member-cons, member-append, Unique, Unique-length}
pub use Strings.{Text, text, text_eq_iff, text_eq_refl, is_empty, to_lower}
pub use Prim.Native.Nat.{ℕ, zero, suc, ◌+◌, ◌-◌, ◌*◌, ◌/◌, ◌%◌, ◌^◌, ◌≤◌, ◌<◌}
pub use mathlib.Core.Path.{◌≡◌, refl, sym, ap, ◌∙◌, subst}
pub use mathlib.Core.Logic.{◌≢◌, ◌↔◌, ◌⊎◌, inl, inr}
pub use mathlib.Core.Bool.{Bool, true, false, ◌&&◌, ◌||◌, not}
pub use mathlib.Core.Option.{Option, none, some}
pub use mathlib.Core.List.{List, [], ◌∷◌, ◌++◌, map}
pub use native.Mathlib.Omega.{arith}
unfoldable pub use native.Mathlib.Decide.{dec_lt, ℕ_discrete}
