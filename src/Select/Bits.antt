-- ===== src/Select/Bits.antt =====
-- What a set of streams tells after a call (osapi-select.c).
use Prim.Native.Nat.{min, max}
use native.Mathlib.Nat.{pow-le-pow_right}
use hello_world_osal.Base.{
  if◌then◌else◌, bit-zero, bit-le_one, ℕ, ◌-◌, ◌/◌, ◌%◌, ◌^◌, ◌<◌, ◌≡◌, refl, ap, ◌∙◌, arith, bit,
  bit_and, bit_or, bit-bit_or, bit-bit_and, bit-pow_same, bit-pow_other, bit-complement, bit-narrow,
  bit_and-shift, bit_and_mask, false, not, ◌&&◌, ◌||◌, ◌==◌, some, update, Bool-cases, inl, inr,
}
use hello_world_osal.Idmap.ObjectType
use hello_world_osal.Idmap.Id.{ok, to_array_index}
use hello_world_osal.Select.{
  FdSet, bit_of, add_index, clear_index, has_index, select_fd_zero, select_fd_add, select_fd_clear,
  select_fd_is_set,
}

-- The bit of place `j` in a set.
abbrev place : FdSet → ℕ → ℕ
place set j = bit (j % 8) (set (j / 8))

has_index-place : (j : ℕ) (set : FdSet) → has_index (ok j) set ≡ not (place set j == 0)
unfolding has_index
has_index-place j set =
    ap (λ (k : ℕ). not (bit_and (set (j / 8) / 2 ^ k) 1 == 0)) (bit_and_mask 3 j)
    ∙ ap (λ (b : ℕ). not (b == 0)) (bit_and-shift (j % 8) (set (j / 8)))

bit_of-pow : (i : ℕ) → bit_of i ≡ 2 ^ (i % 8)
bit_of-pow i = ap (λ (k : ℕ). 2 ^ k) (bit_and_mask 3 i)

small_pow : (k : ℕ) → k < 8 → 2 ^ k < 2 ^ 32
small_pow k h =
    omega (arith, pow-le-pow_right {n = 2} (omega arith) {i = k} {j = 7} (omega (arith, h)))

-- A byte after `|=` and after `&= ~`.
bit-or_byte :
    (k i b : ℕ) → k < 8 → bit k (bit_or b (bit_of i) % 2 ^ 8) ≡ max (bit k b) (bit k (2 ^ (i % 8)))
bit-or_byte k i b h =
    bit-narrow k 8 (bit_or b (bit_of i)) h
    ∙ bit-bit_or k b (bit_of i)
    ∙ ap (λ m. max (bit k b) (bit k m)) (bit_of-pow i)

bit-and_byte :
    (k i b : ℕ)
    → k < 8
    → bit k (bit_and b (2 ^ 32 - 1 - bit_of i) % 2 ^ 8) ≡ min (bit k b) (1 - bit k (2 ^ (i % 8)))
bit-and_byte k i b h =
    bit-narrow k 8 (bit_and b (2 ^ 32 - 1 - bit_of i)) h
    ∙ bit-bit_and k b (2 ^ 32 - 1 - bit_of i)
    ∙ ap (λ m. min (bit k b) (bit k (2 ^ 32 - 1 - m))) (bit_of-pow i)
    ∙ ap (λ (m : ℕ). min (bit k b) m)
        (bit-complement k 32 (2 ^ (i % 8)) (omega (arith, h)) (small_pow (i % 8) (omega arith)))

bit-place : (i k : ℕ) → bit k (2 ^ i) ≡ (if i == k then 1 else 0)
bit-place i k = elim (Bool-cases (i == k)) [
  | inl same ↦
      let e : i ≡ k = ground (arith, same) in rw same (ap (λ j. bit k (2 ^ j)) e ∙ bit-pow_same k)
  | inr other ↦ rw other (bit-pow_other k i (ground (arith, other)))
]

place-add :
    (i j : ℕ) (set : FdSet)
    → place (update set (i / 8) (bit_or (set (i / 8)) (bit_of i) % 2 ^ 8)) j
      ≡ (if i == j then 1 else place set j)
place-add i j set = elim (Bool-cases (i / 8 == j / 8)) [
  | inl same ↦
      let e : i / 8 ≡ j / 8 = ground (arith, same) in
      rw (same, e)
        (ground (
          arith,
          e,
          bit-or_byte (j % 8) i (set (j / 8)) (omega arith),
          bit-place (i % 8) (j % 8),
          bit-le_one (j % 8) (set (j / 8)),
        ))
  | inr other ↦ ground (arith, other)
]

place-clear :
    (i j : ℕ) (set : FdSet)
    → place (update set (i / 8) (bit_and (set (i / 8)) (2 ^ 32 - 1 - bit_of i) % 2 ^ 8)) j
      ≡ (if i == j then 0 else place set j)
place-clear i j set = elim (Bool-cases (i / 8 == j / 8)) [
  | inl same ↦
      let e : i / 8 ≡ j / 8 = ground (arith, same) in
      rw (same, e)
        (ground (
          arith,
          e,
          bit-and_byte (j % 8) i (set (j / 8)) (omega arith),
          bit-place (i % 8) (j % 8),
          bit-le_one (j % 8) (set (j / 8)),
        ))
  | inr other ↦ ground (arith, other)
]

-- A set of streams holds what was added to it: for two IDs of streams, with the indices `i` and
-- `j`, OS_SelectFdIsSet finds the second after OS_SelectFdAdd of the first if they have the same
-- index or it was in the set, after OS_SelectFdClear of the first if it was in the set and they
-- have not, and after OS_SelectFdZero never.
pub select_fd_is_set_lem :
    (set : FdSet) (id id' i j : ℕ)
    → to_array_index ObjectType.stream id ≡ ok i
    → to_array_index ObjectType.stream id' ≡ ok j
    → (select_fd_is_set (select_fd_add (some set) id).1 id'
        ≡ (i == j || select_fd_is_set (some set) id'))
      × (select_fd_is_set (select_fd_clear (some set) id).1 id'
          ≡ (not (i == j) && select_fd_is_set (some set) id'))
      × (select_fd_is_set (select_fd_zero (some set)).1 id' ≡ false)
unfolding select_fd_is_set select_fd_add select_fd_clear select_fd_zero add_index clear_index
select_fd_is_set_lem set id id' i j e e' =
    let added = update set (i / 8) (bit_or (set (i / 8)) (bit_of i) % 2 ^ 8) in
    let cleared = update set (i / 8) (bit_and (set (i / 8)) (2 ^ 32 - 1 - bit_of i) % 2 ^ 8) in
    rw
      (
        e,
        e',
        has_index-place j added,
        place-add i j set,
        has_index-place j set,
        has_index-place j cleared,
        place-clear i j set,
        has_index-place j (λ k. 0),
        bit-zero (j % 8),
      )
      (ground arith, ground arith, refl)
