-- ===== src/Base/Bytes.antt =====
-- The bits of a number one by one, and what `|`, `&`, `~` and a narrower type do to them.
use Prim.Native.Nat.{
  ℕ, zero, suc, ◌+◌, ◌-◌, ◌*◌, ◌/◌, ◌%◌, ◌^◌, ◌≤◌, ◌<◌, min, max, bit_and, bit_or,
}
use mathlib.Core.Path.{◌≡◌, refl, sym, ap, ◌∙◌}
use mathlib.Core.Logic.{◌≢◌}
use native.Mathlib.Nat.{pow-suc, one-le-pow, div-div-eq-div-mul}
use native.Mathlib.Omega.{arith}
use hello_world_osal.Base.Bits.{bit_or_digit, bit_and_digit, bit_and_mask, mod_digit}

-- Bit `k` of a number.
abbrev pub bit : ℕ → ℕ → ℕ
bit zero a = a % 2
bit (suc k) a = bit k (a / 2)

pub bit-le_one : (k a : ℕ) → bit k a ≤ 1
bit-le_one zero a = omega arith
bit-le_one (suc k) a = bit-le_one k (a / 2)

pub bit-bit_or : (k a b : ℕ) → bit k (bit_or a b) ≡ max (bit k a) (bit k b)
bit-bit_or zero a b = omega (arith, bit_or_digit a b)
bit-bit_or (suc k) a b =
    let half : bit_or a b / 2 ≡ bit_or (a / 2) (b / 2) = omega (arith, bit_or_digit a b) in
    ap (bit k) half ∙ bit-bit_or k (a / 2) (b / 2)

pub bit-bit_and : (k a b : ℕ) → bit k (bit_and a b) ≡ min (bit k a) (bit k b)
bit-bit_and zero a b = omega (arith, bit_and_digit a b)
bit-bit_and (suc k) a b =
    let half : bit_and a b / 2 ≡ bit_and (a / 2) (b / 2) = omega (arith, bit_and_digit a b) in
    ap (bit k) half ∙ bit-bit_and k (a / 2) (b / 2)

pub bit-zero : (k : ℕ) → bit k 0 ≡ 0
bit-zero zero = refl
bit-zero (suc k) = bit-zero k

half_pow : (j : ℕ) → 2 ^ suc j / 2 ≡ 2 ^ j
half_pow j = omega (arith, pow-suc 2 j)

pub bit-pow_same : (k : ℕ) → bit k (2 ^ k) ≡ 1
bit-pow_same zero = refl
bit-pow_same (suc k) = ap (bit k) (half_pow k) ∙ bit-pow_same k

pub bit-pow_other : (k j : ℕ) → k ≢ j → bit k (2 ^ j) ≡ 0
bit-pow_other zero zero ne = absurd (ne refl)
bit-pow_other zero (suc j) ne = omega (arith, pow-suc 2 j)
bit-pow_other (suc k) zero ne = bit-zero k
bit-pow_other (suc k) (suc j) ne =
    ap (bit k) (half_pow j) ∙ bit-pow_other k j (λ e. ne (ap (λ (n : ℕ). suc n) e))

-- `~a` of `n` bits
pub bit-complement : (k n a : ℕ) → k < n → a < 2 ^ n → bit k (2 ^ n - 1 - a) ≡ 1 - bit k a
bit-complement k zero a h l = absurd (omega (arith, h))
bit-complement zero (suc n) a h l = omega (arith, pow-suc 2 n, l)
bit-complement (suc k) (suc n) a h l =
    let half : (2 ^ suc n - 1 - a) / 2 ≡ 2 ^ n - 1 - a / 2 = omega (arith, pow-suc 2 n, l) in
    ap (bit k) half ∙ bit-complement k n (a / 2) (omega (arith, h)) (omega (arith, pow-suc 2 n, l))

mod_pow : (n a : ℕ) → a % 2 ^ suc n ≡ a / 2 % 2 ^ n * 2 + a % 2
mod_pow n a =
    let e : 2 ^ suc n ≡ 2 * 2 ^ n = omega (arith, pow-suc 2 n) in
    ap (λ (m : ℕ). a % m) e ∙ mod_digit (2 ^ n) a (one-le-pow n 2 (omega arith))

-- `(uint8) a`, for 8 bits
pub bit-narrow : (k n a : ℕ) → k < n → bit k (a % 2 ^ n) ≡ bit k a
bit-narrow k zero a h = absurd (omega (arith, h))
bit-narrow zero (suc n) a h = omega (arith, mod_pow n a)
bit-narrow (suc k) (suc n) a h =
    let half : a % 2 ^ suc n / 2 ≡ a / 2 % 2 ^ n = omega (arith, mod_pow n a) in
    ap (bit k) half ∙ bit-narrow k n (a / 2) (omega (arith, h))

-- `(a >> k) & 1`
pub bit_and-shift : (k a : ℕ) → bit_and (a / 2 ^ k) 1 ≡ bit k a
bit_and-shift zero a = bit_and_mask 1 (a / 1) ∙ ap (λ (m : ℕ). m % 2) (omega arith)
bit_and-shift (suc k) a =
    let e : 2 * 2 ^ k ≡ 2 ^ suc k = omega (arith, pow-suc 2 k) in
    ap (λ (m : ℕ). bit_and m 1) (sym (div-div-eq-div-mul a 2 (2 ^ k) ∙ ap (λ (m : ℕ). a / m) e))
    ∙ bit_and-shift k (a / 2)
