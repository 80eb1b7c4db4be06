-- ===== src/Base.antt =====
-- The names that the other modules share: those of the libraries, passed on, and the children's.
mod Tests
mod Lists
pub mod Bits
pub use Tests.*
pub use Lists.*
pub use Prim.Native.Nat.{ℕ, zero, suc, ◌+◌, ◌-◌, ◌*◌, ◌/◌, ◌%◌, ◌^◌, ◌≤◌, ◌<◌, min, max}
pub use Prim.Native.Nat.{bit_and, bit_or}
pub use mathlib.Core.Path.{◌≡◌, refl, sym, ap, ◌∙◌, subst, fun_ext}
pub use mathlib.Core.Logic.{◌≢◌, ◌↔◌, ◌⊎◌, inl, inr}
pub use mathlib.Core.Bool.{Bool, true, false, not, ◌&&◌, ◌||◌}
pub use mathlib.Core.Option.{Option, none, some}
pub use mathlib.Core.List.{List, [], ◌∷◌, ◌++◌}
pub use native.Mathlib.Omega.{arith}

-- `w & (1u << k)`, as a test.
abbrev pub has_bit : ℕ → ℕ → Bool
has_bit w k = w / 2 ^ k % 2 == 1

-- `w & mask`, where the mask is `width` ones from bit `lo` up.
abbrev pub field : ℕ → ℕ → ℕ → ℕ
field w lo width = w / 2 ^ lo % 2 ^ width * 2 ^ lo

abbrev pub u8 : ℕ → ℕ
u8 n = n % 2 ^ 8

abbrev pub u16 : ℕ → ℕ
u16 n = n % 2 ^ 16

abbrev pub u32 : ℕ → ℕ
u32 n = n % 2 ^ 32

-- `w & ~(1u << k)`
abbrev pub clear_bit : ℕ → ℕ → ℕ
clear_bit w k = w - w / 2 ^ k % 2 * 2 ^ k
