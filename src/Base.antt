-- ===== src/Base.antt =====
-- The names that the other modules share: the libraries', passed on, and those of the children.
mod Tests
mod Lists
mod Chunks
mod Equality
pub mod Int
pub use Tests.*
pub use Lists.*
pub use Equality.{
  KeyTest, nat_key, Text, text_key, same_refl, same_ne, Map, empty_map, map_set_same, map_set_other,
  map_delete_same, map_delete_other, or_else,
}
unfoldable pub use Equality.{map_set, map_delete}
pub use Chunks.{concat, chunks-nil, chunks-step, concat-chunks}
unfoldable pub use Chunks.{chunks}
pub use Prim.Native.Nat.{ℕ, zero, suc, ◌+◌, ◌-◌, ◌*◌, ◌/◌, ◌%◌, ◌^◌, ◌≤◌, ◌<◌, min, max}
pub use mathlib.Core.Path.{◌≡◌, refl, sym, ap, subst, ◌∙◌}
pub use mathlib.Core.Logic.{◌≢◌, ◌↔◌, ◌⊎◌, inl, inr}
pub use mathlib.Core.Bool.{Bool, true, false, not, ◌&&◌, ◌||◌}
pub use mathlib.Core.Option.{Option, none, some}
pub use mathlib.Core.List.{List, [], ◌∷◌, ◌++◌, map, append-nil, append_assoc}
pub use native.Mathlib.Omega.{arith}
