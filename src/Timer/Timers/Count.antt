-- ===== src/Timer/Timers/Count.antt =====
-- A ring has no more timers than OS_timecb_table has places.
use Prim.{Unit}
use hello_world_osal.Base.{
  ℕ, zero, suc, ◌≤◌, ◌<◌, ◌≡◌, refl, sym, ap, subst, arith, inl, inr, false, List, [], ◌∷◌, ◌==◌,
  if◌then◌else◌, length, Bool-cases,
}
use hello_world_osal.Timer.Timers.Ring.{IsApart, IsDistinct}

abbrev pub AreBelow : ℕ → List ℕ → Type 0
AreBelow n [] = Unit {0}
AreBelow n (x ∷ xs) = (x < n) × AreBelow n xs

without : ℕ → List ℕ → List ℕ
without n [] = []
without n (x ∷ xs) = if n == x then without n xs else x ∷ without n xs

without-IsApart : (n a : ℕ) (xs : List ℕ) → IsApart a xs → IsApart a (without n xs)
unfolding without
without-IsApart n a [] apart = apart
without-IsApart n a (x ∷ xs) (ne, apart) = elim (Bool-cases (n == x)) [
  | inl same ↦ rw same (without-IsApart n a xs apart)
  | inr other ↦ rw other (ne, without-IsApart n a xs apart)
]

without-IsDistinct : (n : ℕ) (xs : List ℕ) → IsDistinct xs → IsDistinct (without n xs)
unfolding without
without-IsDistinct n [] distinct = distinct
without-IsDistinct n (x ∷ xs) (apart, distinct) = elim (Bool-cases (n == x)) [
  | inl same ↦ rw same (without-IsDistinct n xs distinct)
  | inr other ↦ rw other (without-IsApart n x xs apart, without-IsDistinct n xs distinct)
]

without-AreBelow : (n : ℕ) (xs : List ℕ) → AreBelow (suc n) xs → AreBelow n (without n xs)
unfolding without
without-AreBelow n [] below = below
without-AreBelow n (x ∷ xs) (lt, below) = elim (Bool-cases (n == x)) [
  | inl same ↦ rw same (without-AreBelow n xs below)
  | inr other ↦
      let lower : x < n = ground (arith, other, lt) in rw other (lower, without-AreBelow n xs below)
]

length-without : (n : ℕ) (xs : List ℕ) → IsApart n xs → length (without n xs) ≡ length xs
unfolding without
length-without n [] apart = refl
length-without n (x ∷ xs) (ne, apart) =
    let other : (n == x) ≡ false = ground arith in rw other (ap suc (length-without n xs apart))

length-most : (n : ℕ) (xs : List ℕ) → IsDistinct xs → length xs ≤ suc (length (without n xs))
unfolding without
length-most n [] distinct = omega arith
length-most n (x ∷ xs) (apart, distinct) = elim (Bool-cases (n == x)) [
  | inl same ↦
      let e : n ≡ x = ground (arith, same) in
      rw same (omega (arith, length-without n xs (subst (λ i. IsApart i xs) (sym e) apart)))
  | inr other ↦ rw other (omega (arith, length-most n xs distinct))
]

pub length-AreBelow : (n : ℕ) (xs : List ℕ) → IsDistinct xs → AreBelow n xs → length xs ≤ n
length-AreBelow zero [] distinct below = omega arith
length-AreBelow zero (x ∷ xs) distinct (lt, below) = absurd (omega (arith, lt))
length-AreBelow (suc n) xs distinct below = omega (
  arith,
  length-most n xs distinct,
  length-AreBelow n (without n xs) (without-IsDistinct n xs distinct) (without-AreBelow n xs below),
)
