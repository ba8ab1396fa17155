-- ===== src/Base.antt =====
-- The names that the other modules share: the libraries', passed on, and those of the children.
mod Tests
mod Lists
mod Errors
mod Int
mod Strings
mod Sets
mod Disk
pub use Sets.{member-without, member-with_member}
unfoldable pub use Sets.{member, with_member, without}
pub use Disk.{Files}
unfoldable pub use Disk.{set_file, append_file, write_file, rename}
pub use Tests.*
pub use Lists.*
pub use Errors.*
pub use Int.*
pub use Strings.{
  text_eq-path_join, text_not_before, text_lt_asym, text_lt_irrefl, codes, Text, text_eq_refl,
  eq_of_text_eq, text_lt_trans, text_lt_total, text_eq-false,
}
unfoldable pub use Strings.{text_eq, text_lt, path_join, elem, starts_with_slash}
pub use Prim.Native.Nat.{ℕ, zero, suc, ◌+◌, ◌-◌, ◌*◌, ◌/◌, ◌%◌, ◌^◌, ◌≤◌, ◌<◌, min, max}
pub use mathlib.Core.Path.{◌≡◌, refl, sym, ap, ◌∙◌}
pub use mathlib.Core.Logic.{◌≢◌, ◌↔◌, ◌⊎◌, inl, inr}
pub use mathlib.Core.Bool.{Bool, true, false, not, ◌&&◌, ◌||◌}
pub use mathlib.Core.Option.{Option, none, some}
pub use mathlib.Core.List.{List, [], ◌∷◌, ◌++◌, map}
pub use native.Mathlib.Omega.{arith}
