-- ===== src/Base.antt =====
-- What the modules share: library names passed on, Boolean tests, bytes as Go strings, results.
mod Tests
mod Text
mod Outcome
mod Trim
mod TrimLaws
mod Int
pub use Tests.*
pub use Text.*
unfoldable pub use Text.{equal}
pub use Outcome.*
pub use Trim.*
pub use TrimLaws.*
pub use Int.*
unfoldable pub use Int.{decimal}
unfoldable pub use Trim.{space_width, space_width_back, trim_from, trim_back, trim_space}
pub use Prim.Native.Nat.{ℕ, zero, suc, ◌+◌, ◌-◌, ◌*◌, ◌/◌, ◌%◌, ◌≤◌, ◌<◌}
pub use mathlib.Core.Bool.{Bool, true, false, not, ◌&&◌, ◌||◌}
pub use mathlib.Core.List.{List, [], ◌∷◌, ◌++◌, map, append-nil, append_assoc, reverse}
pub use mathlib.Core.Logic.{◌≢◌, ◌↔◌, ◌⊎◌, inl, inr}
pub use mathlib.Core.Option.{Option, none, some}
pub use mathlib.Core.Path.{◌≡◌, refl, sym, ap, ◌∙◌, subst, ◌≡⟨◌⟩◌, ◌∎}
pub use native.Mathlib.Omega.{arith}
