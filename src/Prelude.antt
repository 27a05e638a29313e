-- ===== src/Prelude.antt =====
-- The names that the other modules share: those of the libraries, passed on, and the helpers of
-- the child modules (tests and cases, lists, maps with text keys).
mod Tests
mod Lists
mod Maps
mod MultiMaps
pub use Tests.*
unfoldable pub use Lists.{all, any, select, contains}
pub use Lists.{
  length, is_empty, all-mem, all_of_mem, any_of_mem, mem_of_any, mem-cons_cases, mem-append_cases,
  mem-select, mem-select_of_mem, mem_of_contains, contains_of_mem,
}
pub use Maps.{Dict, text_or_empty, lookup-insert, lookup-remove, lookup-insert_self, dict_laws}
pub use MultiMaps.{Key, string_key, MultiMap, values_at-append_at}
unfoldable pub use MultiMaps.{values_at, append_at}
unfoldable pub use Maps.{lookup, insert, remove, get_or_empty}
pub use Prim.Native.Nat.{ℕ, zero, suc, ◌+◌, ◌-◌, ◌*◌, ◌≤◌, ◌<◌}
pub use Prim.Native.String.{String}
pub use mathlib.Core.Path.{◌≡◌, refl, sym, ap, ◌∙◌, subst}
pub use mathlib.Core.Logic.{◌≢◌, ◌↔◌, ◌⊎◌, inl, inr}
pub use mathlib.Core.Bool.{Bool, true, false, not, ◌&&◌, ◌||◌}
pub use mathlib.Core.Option.{Option, none, some}
pub use mathlib.Core.List.{List, [], ◌∷◌, ◌++◌, map, Memᴰ}
pub use native.Mathlib.Omega.{arith}
pub use text.Mathlib.Text.{◌==◌}
pub use text.Mathlib.TextEquality.{eq_iff}
pub use text.Mathlib.TextPositions.{eq_refl}
