-- ===== src/Prelude.antt =====
-- What the other modules share: library names passed on, Boolean tests, lists measured by native
-- numbers, and the `Result` of the repository's fallible functions
-- (crates/mapache/src/common/error.rs).
mod Tests
mod Lists
mod Failure
mod Sets
pub mod Bits
pub mod Masks
pub mod Order
pub mod Exhaust
pub mod Search
pub use Tests.*
pub use Lists.*
pub use Failure.*
pub use Sets.*
pub use Prim.Native.Nat.{
  ℕ, zero, suc, ◌+◌, ◌-◌, ◌*◌, ◌/◌, ◌%◌, ◌^◌, ◌≤◌, ◌<◌, min, max, bit_and, bit_or,
}
pub use mathlib.Core.Path.{◌≡◌, refl, sym, ap, ap₂, ◌∙◌, subst, fun_ext, ◌≡⟨◌⟩◌, ◌∎}
pub use mathlib.Core.Logic.{◌≢◌, ◌↔◌, ◌⊎◌, inl, inr}
pub use mathlib.Core.Bool.{Bool, true, false, ◌&&◌, ◌||◌, not}
pub use mathlib.Core.Option.{Option, none, some}
pub use mathlib.Core.List.{
  List, [], ◌∷◌, ◌++◌, map, reverse, reverse_aux, append-nil, append_assoc, Memᴰ,
}
pub use native.Mathlib.Omega.{arith}
