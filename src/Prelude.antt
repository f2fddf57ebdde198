-- ===== src/Prelude.antt =====
-- Names that every part shares: the libraries' passed on, Boolean tests, lists over native numbers,
-- and the bytes that Go strings are.
mod Tests
mod Lists
mod Strings
mod Maps
pub mod Int
pub use Tests.*
pub use Lists.*
pub use Maps.*
unfoldable pub use Strings.{same, has_prefix}
pub use Strings.{Bytes, codes, same_refl, same_iff}
pub use Prim.Native.Nat.{ℕ, zero, suc, ◌+◌, ◌-◌, ◌*◌, ◌/◌, ◌%◌, ◌^◌, ◌≤◌, ◌<◌, min, max}
pub use Prim.Native.String.{String}
pub use mathlib.Core.Path.{◌≡◌, refl, sym, ap, ap₂, ◌∙◌, subst}
pub use mathlib.Core.Logic.{◌≢◌, ◌↔◌, ◌⊎◌, inl, inr}
pub use mathlib.Core.Bool.{Bool, true, false, not, ◌&&◌, ◌||◌}
pub use mathlib.Core.Option.{Option, none, some}
pub use mathlib.Core.List.{List, [], ◌∷◌, ◌++◌, map, append-nil, append_assoc}
pub use native.Mathlib.Omega.{arith}
