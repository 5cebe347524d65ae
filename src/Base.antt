-- ===== src/Base.antt =====
-- The names that the other modules share: the libraries', passed on, and those of the children.
mod Tests
mod Lists
mod Texts
mod Splits
pub use Tests.*
pub use Lists.*
pub use Splits.*
pub use Texts.{Text, text_eq_refl, text_eq_iff, count-append, count-decimal, parse_int-decimal}
unfoldable pub use Texts.{
  codes, text_eq, starts_with, strip_prefix, remove_first, split_head, split_tail, decimal,
  replicate, count, digits_value, starts_with_digit, parse_int,
}
pub use Prim.Native.Nat.{ℕ, zero, suc, ◌+◌, ◌-◌, ◌*◌, ◌/◌, ◌%◌, ◌≤◌, ◌<◌}
pub use mathlib.Core.Path.{◌≡◌, refl, sym, subst, ap, ap₂, ◌∙◌, fun_ext, ◌≡⟨◌⟩◌, ◌∎}
pub use mathlib.Core.Logic.{◌≢◌, ◌↔◌, ◌⊎◌, inl, inr}
pub use mathlib.Core.Bool.{Bool, true, false, not, ◌&&◌, ◌||◌}
pub use mathlib.Core.Option.{Option, none, some}
pub use mathlib.Core.List.{List, [], ◌∷◌, ◌++◌, map, append_assoc, append-nil, flat_map}
pub use native.Mathlib.Omega.{arith}
