-- ===== src/Base.antt =====
-- The names that every component shares: the libraries' names passed on, Boolean tests, list and
-- option lemmas over the native numbers, and the decisions that the code's `===` stands for.
mod Tests
mod Members
mod Lists
mod Results
mod Splits
pub use Tests.*
unfoldable pub use Tests.{String_discrete}
pub use Members.*
unfoldable pub use Members.{take_out, push_new}
pub use Lists.*
pub use Results.*
pub use Splits.*
pub use Prim.Native.Nat.{ℕ, zero, suc, ◌+◌, ◌-◌, ◌*◌, ◌/◌, ◌%◌, ◌^◌, ◌≤◌, ◌<◌, min, max}
pub use Prim.Native.String.{String}
pub use mathlib.Core.Path.{◌≡◌, refl, sym, ap, subst, ◌∙◌}
pub use mathlib.Core.Logic.{◌≢◌, ◌↔◌, ◌⊎◌, inl, inr, ite, dite, if_pos, if_neg}
pub use mathlib.Core.Bool.{Bool, true, false, not, ◌&&◌, ◌||◌}
pub use mathlib.Core.Option.{Option, none, some}
pub use mathlib.Core.List.{List, [], ◌∷◌, ◌++◌, map, append-nil, append_assoc}
pub use native.Mathlib.Omega.{arith}
unfoldable pub use native.Mathlib.Decide.{dec_lt, dec_le, ℕ_discrete}
