-- ===== src/Prelude.antt =====
-- The names that the other modules share: the libraries', passed on, and those of the children.
mod Tests
mod Rows
mod Maps
mod Members
mod Least
mod Integers
mod Texts
mod Sorted
pub use Tests.*
pub use Rows.*
pub use Members.*
pub use Least.*
pub use Integers.*
pub use Sorted.{IsSorted, sorted_texts-IsSorted, sorted_rows-Perm}
unfoldable pub use Texts.{trim_space, cut_prefix, has_suffix, clean, split_path}
pub use Texts.{is_empty, is_space, text_before, sorted_texts}
unfoldable pub use Maps.{at_key, with_key, without_key, keys}
pub use Maps.{Dict, same_text-false, at_key-with_key, at_key-stored, at_key-without_key}
pub use Prim.Native.Nat.{ℕ, zero, suc, ◌+◌, ◌-◌, ◌*◌, ◌/◌, ◌%◌, ◌^◌, ◌≤◌, ◌<◌}
pub use Prim.Native.String.{String}
pub use mathlib.Core.Path.{◌≡◌, refl, sym, ap, ◌∙◌, subst}
pub use mathlib.Core.Logic.{◌≢◌, ◌↔◌, ◌⊎◌, inl, inr}
pub use mathlib.Core.Bool.{Bool, true, false, not, ◌&&◌, ◌||◌}
pub use mathlib.Core.Option.{Option, none, some}
pub use mathlib.Core.List.{List, [], ◌∷◌, ◌++◌, map}
pub use native.Mathlib.Omega.{arith}
pub use text.Mathlib.Text.{◌==◌ as same_text}
pub use text.Mathlib.TextEquality.{eq_iff}
