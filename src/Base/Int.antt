-- ===== src/Base/Int.antt =====
-- Sums and comparisons of `int32` values, over their two parts.
use Prim.Native.Nat.{ℕ, suc, ◌+◌, ◌-◌, ◌%◌, ◌^◌, ◌≤◌, ◌<◌}
use mathlib.Core.Path.{◌≡◌, refl}
use mathlib.Core.Bool.{Bool, false}
use native.Mathlib.Omega.{arith}
use hello_world_osal.Base.Codes.{ℤ, pos, negsuc}
use hello_world_osal.Base.Tests.{ltb, leb, if◌then◌else◌}

unfoldable pub pos_part : ℤ → ℕ
pos_part (pos n) = n
pos_part (negsuc n) = 0

unfoldable pub neg_part : ℤ → ℕ
neg_part (pos n) = 0
neg_part (negsuc n) = suc n

-- a - b, as an integer.
unfoldable pub sub_ℕ : ℕ → ℕ → ℤ
sub_ℕ a b = if leb b a then pos (a - b) else negsuc (b - a - 1)

-- The `int32` that stands for a value modulo 2 ^ 32: what a conversion to `int32` gives.
unfoldable pub int32 : ℤ → ℤ
int32 a =
    let r = (pos_part a + (2 ^ 32 - neg_part a % 2 ^ 32)) % 2 ^ 32 in
    if ltb r (2 ^ 31) then pos r else negsuc (2 ^ 32 - r - 1)

-- `a + b` and `a - b` without the conversion.
infixl 65 ◌+ℤ◌ ◌-ℤ◌
unfoldable pub ◌+ℤ◌ : ℤ → ℤ → ℤ
a +ℤ b = sub_ℕ (pos_part a + pos_part b) (neg_part a + neg_part b)

unfoldable pub ◌-ℤ◌ : ℤ → ℤ → ℤ
a -ℤ b = sub_ℕ (pos_part a + neg_part b) (neg_part a + pos_part b)

unfoldable pub ltb_ℤ : ℤ → ℤ → Bool
ltb_ℤ a b = ltb (pos_part a + neg_part b) (pos_part b + neg_part a)

-- `0 < a`
unfoldable pub is_positive : ℤ → Bool
is_positive a = ltb 0 (pos_part a)

-- The value of an `int32`, read as a `uint32`.
unfoldable pub uint32 : ℤ → ℕ
uint32 a = (pos_part a + (2 ^ 32 - neg_part a % 2 ^ 32)) % 2 ^ 32

pub is_positive-sub_ℕ : (a b : ℕ) → is_positive (sub_ℕ a b) ≡ ltb b a
unfolding is_positive pos_part sub_ℕ
is_positive-sub_ℕ a b = ground arith

pub is_positive-pos : (a : ℕ) → is_positive (pos a) ≡ ltb 0 a
unfolding is_positive pos_part
is_positive-pos a = refl

-- A sum of a difference and a number.
pub +ℤ-sub_ℕ : (a b c : ℕ) → sub_ℕ a b +ℤ pos c ≡ sub_ℕ (a + c) b
unfolding ◌+ℤ◌ pos_part neg_part sub_ℕ
+ℤ-sub_ℕ a b c = ground arith

pub -ℤ-pos : (a b : ℕ) → pos a -ℤ pos b ≡ sub_ℕ a b
unfolding ◌-ℤ◌ pos_part neg_part sub_ℕ
-ℤ-pos a b = ground arith

pub ltb_ℤ-sub_ℕ : (a b c d : ℕ) → ltb_ℤ (sub_ℕ a b) (sub_ℕ c d) ≡ ltb (a + d) (c + b)
unfolding ltb_ℤ pos_part neg_part sub_ℕ
ltb_ℤ-sub_ℕ a b c d = ground arith

pub sub_ℕ-zero : (a : ℕ) → sub_ℕ a 0 ≡ pos a
unfolding sub_ℕ
sub_ℕ-zero a = ground arith

-- Differences with the same excess are the same.
pub sub_ℕ-eq : (a b c d : ℕ) → a + d ≡ c + b → sub_ℕ a b ≡ sub_ℕ c d
unfolding sub_ℕ
sub_ℕ-eq a b c d h = ground arith

-- A difference in the range of `int32` is kept.
pub int32-sub_ℕ : (a b : ℕ) → a < 2 ^ 31 → b ≤ 2 ^ 31 → int32 (sub_ℕ a b) ≡ sub_ℕ a b
unfolding int32 pos_part neg_part sub_ℕ
int32-sub_ℕ a b h k = ground arith

pub sub_ℕ-negsuc : (a : ℕ) → sub_ℕ 0 (suc a) ≡ negsuc a
unfolding sub_ℕ
sub_ℕ-negsuc a = ground arith

pub is_positive-negsuc : (a : ℕ) → is_positive (negsuc a) ≡ false
unfolding is_positive pos_part
is_positive-negsuc a = refl
