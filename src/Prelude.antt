-- ===== src/Prelude.antt =====
-- Names that every module shares: those of the libraries, passed on, and the Boolean tests, list
-- functions and sets of texts of the child modules.
pub mod Tests
pub mod Lists
pub mod Sets
pub mod Sorting
pub mod Numbers
pub mod Decimal
pub use Tests.*
pub use Lists.*
pub use Sets.*
pub use Numbers.{ℤ, pos, negsuc, eqℤ, ltℤ, Float, nan, inf, neg_inf, finite, lt_float}
pub use Prim.Native.Nat.{ℕ, zero, suc, ◌+◌, ◌-◌, ◌*◌, ◌/◌, ◌%◌, ◌^◌, ◌≤◌, ◌<◌}
pub use Prim.Native.String.{String}
pub use mathlib.Core.Path.{◌≡◌, refl, sym, ap, ap₂, ◌∙◌, subst, fun_ext}
pub use mathlib.Core.Logic.{◌≢◌, ◌↔◌, ◌⊎◌, inl, inr}
pub use mathlib.Core.Bool.{Bool, true, false, not, ◌&&◌, ◌||◌}
pub use mathlib.Core.Option.{Option, none, some}
pub use mathlib.Core.List.{List, [], ◌∷◌, ◌++◌, map}
pub use native.Mathlib.Omega.{arith}
pub use text.Mathlib.Text.{◌==◌}
pub use text.Mathlib.TextEquality.{eq_iff}
pub use text.Mathlib.TextPositions.{eq_refl}
