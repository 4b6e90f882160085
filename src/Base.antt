-- ===== src/Base.antt =====
-- The names that the other modules share: those of the libraries, passed on, and those of the
-- children: tests, lists, texts, int64, float64, time.Time, UUIDs and maps.
mod Tests
mod Lists
mod Text
pub mod Int64
pub mod Float64
pub mod Time
pub mod Uuid
pub mod Maps
pub mod Entries
pub use Tests.*
pub use Lists.*
unfoldable pub use Lists.{bytes_eq}
unfoldable pub use Text.{codes, cut_prefix, trim_prefix, cut, trim_space, lower_codes, is_space}
pub use Text.{Bytes, ◌<>◌, cut_prefix-some, cut_colon}
pub use Prim.Native.Nat.{ℕ, zero, suc, ◌+◌, ◌-◌, ◌*◌, ◌/◌, ◌%◌, ◌^◌, ◌≤◌, ◌<◌}
pub use Prim.Native.String.{String}
pub use mathlib.Core.Path.{◌≡◌, refl, sym, ap, ◌∙◌, subst}
pub use mathlib.Core.Logic.{◌≢◌, ◌↔◌, ◌⊎◌, inl, inr}
pub use mathlib.Core.Bool.{Bool, true, false, not, ◌&&◌, ◌||◌}
pub use mathlib.Core.Option.{Option, none, some}
pub use mathlib.Core.List.{List, [], ◌∷◌, ◌++◌, map, append_assoc, append-nil}
pub use native.Mathlib.Omega.{arith}
pub use text.Mathlib.Text.{◌==◌ as str_eq}
pub use text.Mathlib.TextEquality.{eq_iff}
pub use text.Mathlib.TextPositions.{eq_refl}
