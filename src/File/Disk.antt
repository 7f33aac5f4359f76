-- ===== src/File/Disk.antt =====
-- A layer below that reads one file and writes another, as documented, and lemmas on bytes.
use hello_world_osal.Base.{
  ℕ, zero, suc, ◌<◌, ◌≤◌, ◌≡◌, ◌⊎◌, refl, ap, ◌∙◌, arith, ℤ, pos, negsuc, Text, [], ◌∷◌, ◌++◌,
  length, take, drop,
}
use hello_world_osal.Idmap.State.{Os}
use hello_world_osal.File.{FileImpl, pend}

-- What is left to read of file `i`, and what file `j` holds, in the state of the layer below. A read
-- into a buffer that is not empty gives the next bytes, and none only at the end; a write of some
-- bytes takes at least one; both may fail.
pub record IsDisk {K : Type 0} (impl : FileImpl K) (i j : ℕ) (left made : K → Text) : Type 0 where
  pub reads : Text → K → ℤ × Text × K
  pub writes : Text → K → ℤ × K
  pub read_runs :
      (buffer : Text) (s : Os K)
      → let (c, after, k) = reads buffer s.kernel in
        impl.read_impl i buffer pend s ≡ (c, after, record s { kernel = k })
  pub write_runs :
      (buffer : Text) (s : Os K)
      → let (c, k) = writes buffer s.kernel in
        impl.write_impl j buffer pend s ≡ (c, record s { kernel = k })
  pub next_bytes :
      (buffer : Text) (k : K)
      → 0 < length buffer
      → let (c, after, k') = reads buffer k in
        ((n : ℕ) × (c ≡ pos n)
          × (n ≤ length buffer)
          × (n ≤ length (left k))
          × (n ≡ 0 → left k ≡ [])
          × (length after ≡ length buffer)
          × (take n after ≡ take n (left k))
          × (left k' ≡ drop n (left k))
          × (made k' ≡ made k))
        ⊎ ((n : ℕ) × (c ≡ negsuc n))
  pub taken :
      (buffer : Text) (k : K)
      → 0 < length buffer
      → let (c, k') = writes buffer k in
        ((n : ℕ) × (c ≡ pos n)
          × (0 < n)
          × (n ≤ length buffer)
          × (made k' ≡ made k ++ take n buffer)
          × (left k' ≡ left k))
        ⊎ ((n : ℕ) × (c ≡ negsuc n))

pub append_assoc : (a b c : Text) → (a ++ b) ++ c ≡ a ++ (b ++ c)
append_assoc [] b c = refl
append_assoc (x ∷ a) b c = ap (λ t. x ∷ t) (append_assoc a b c)

pub append-nil : (a : Text) → a ++ [] ≡ a
append-nil [] = refl
append-nil (x ∷ a) = ap (λ t. x ∷ t) (append-nil a)

pub take-drop : (n : ℕ) (t : Text) → take n t ++ drop n t ≡ t
unfolding drop
take-drop zero t = refl
take-drop (suc n) [] = refl
take-drop (suc n) (x ∷ t) = ap (λ u. x ∷ u) (take-drop n t)

pub length-take : (n : ℕ) (t : Text) → length (take n t) ≤ n
length-take zero t = omega arith
length-take (suc n) [] = omega arith
length-take (suc n) (x ∷ t) = omega (arith, length-take n t)

-- Bytes that are read in two parts and written in two parts.
pub two_parts :
    (n : ℕ) (after left1 left2 made1 made2 made3 : Text)
    → take n after ≡ take n left1
    → left2 ≡ drop n left1
    → made2 ≡ made1 ++ take n after
    → made3 ≡ made2 ++ left2
    → made3 ≡ made1 ++ left1
two_parts n after left1 left2 made1 made2 made3 same rest first next =
    next
    ∙ ap (λ t. t ++ left2) first
    ∙ append_assoc made1 (take n after) left2
    ∙ ap (λ t. made1 ++ (t ++ left2)) same
    ∙ ap (λ t. made1 ++ (take n left1 ++ t)) rest
    ∙ ap (λ t. made1 ++ t) (take-drop n left1)
