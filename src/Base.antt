-- ===== src/Base.antt =====
-- Names that the other modules share: the libraries', passed on, and those of the children, which
-- hold Boolean tests, signed return codes, arrays as functions, C strings and bit fields.
mod Tests
mod Codes
mod Arrays
mod Bits
mod Bytes
mod Int
mod Strings
pub use Tests.*
pub use Codes.*
unfoldable pub use Arrays.*
pub use Int.{
  sub_ℕ, int32, ◌+ℤ◌, ◌-ℤ◌, ltb_ℤ, is_positive, uint32, is_positive-sub_ℕ, is_positive-pos,
  +ℤ-sub_ℕ, -ℤ-pos, ltb_ℤ-sub_ℕ, sub_ℕ-zero, sub_ℕ-eq, int32-sub_ℕ, sub_ℕ-negsuc,
  is_positive-negsuc,
}
unfoldable pub use Strings.{slash, char_at, drop, starts_with, after_last_slash}
pub use Bits.{bit_or_fields, bit_and_mask}
pub use Bytes.{
  bit, bit-bit_or, bit-bit_and, bit-pow_same, bit-pow_other, bit-complement, bit-narrow,
  bit_and-shift, bit-zero, bit-le_one,
}
pub use Prim.Native.Nat.{ℕ, zero, suc, ◌+◌, ◌-◌, ◌*◌, ◌/◌, ◌%◌, ◌^◌, ◌≤◌, ◌<◌, bit_and, bit_or}
pub use mathlib.Core.Path.{◌≡◌, refl, sym, ap, ◌∙◌, subst, fun_ext}
pub use mathlib.Core.Logic.{◌≢◌, ◌↔◌, ◌⊎◌, inl, inr}
pub use mathlib.Core.Bool.{Bool, true, false, not, ◌&&◌, ◌||◌}
pub use mathlib.Core.Option.{Option, none, some}
pub use mathlib.Core.List.{List, [], ◌∷◌, ◌++◌}
pub use native.Mathlib.Omega.{arith}
