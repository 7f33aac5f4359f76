-- ===== src/File/Rounds.antt =====
-- Rounds of the loops of OS_cp (osapi-file.c).
use hello_world_osal.Base.{
  ℕ, zero, suc, ◌≡◌, refl, ap, ℤ, pos, negsuc, false, Option, some, Text, [], ◌∷◌, take, drop,
  is_success, os_success,
}
use hello_world_osal.Idmap.State.{Os, Port}
use hello_world_osal.File.{FileImpl, read, write}
use hello_world_osal.File.Copy.{write_all, and_then, copy_loop, block_of}

module _ {K : Type 0} where
  pub and_then-fails :
      (c : ℤ) (q : Os K) (next : Os K → Option (ℤ × Os K))
      → is_success c ≡ false
      → and_then (some (c, q)) next ≡ some (c, q)
  unfolding and_then
  and_then-fails c q next h = rw h refl

  pub and_then-goes :
      (c : ℤ) (q : Os K) (next : Os K → Option (ℤ × Os K))
      → c ≡ os_success
      → and_then (some (c, q)) next ≡ next q
  unfolding and_then
  and_then-goes c q next h = rw h refl

module _ {K : Type 0} (p : Port K) (impl : FileImpl K) (file1 file2 : ℕ) where
  pub write_all-nil :
      (fuel : ℕ) (q : Os K) → write_all p impl (suc fuel) file2 [] q ≡ some (os_success, q)
  unfolding write_all
  write_all-nil fuel q = refl

  -- A round of the loop after its write.
  abbrev pub written : ℕ → ℕ → Text → ℤ × Os K → Option (ℤ × Os K)
  written fuel b rest (wr_size, s') = elim wr_size [
    | negsuc n ↦ some (negsuc n, s')
    | pos n ↦ write_all p impl fuel file2 (drop n (b ∷ rest)) s'
  ]

  pub write_all-step :
      (fuel b n : ℕ) (rest : Text) (q q' : Os K)
      → write p impl file2 (some (b ∷ rest)) q ≡ (pos n, q')
      → write_all p impl (suc fuel) file2 (b ∷ rest) q
        ≡ write_all p impl fuel file2 (drop n (b ∷ rest)) q'
  unfolding write_all
  write_all-step fuel b n rest q q' e = ap (written fuel b rest) e

  pub write_all-fails :
      (fuel b n : ℕ) (rest : Text) (q q' : Os K)
      → write p impl file2 (some (b ∷ rest)) q ≡ (negsuc n, q')
      → write_all p impl (suc fuel) file2 (b ∷ rest) q ≡ some (negsuc n, q')
  unfolding write_all
  write_all-fails fuel b n rest q q' e = ap (written fuel b rest) e

  -- A round of OS_cp's loop after its read.
  abbrev pub has_read : ℕ → ℕ → ℤ × Option Text × Os K → Option (ℤ × Os K)
  has_read fuel limit (rd_size, after, s1) = elim rd_size [
    | negsuc n ↦ some (negsuc n, s1)
    | pos zero ↦ some (os_success, s1)
    | pos (suc n) ↦
        and_then (write_all p impl limit file2 (take (suc n) (block_of after)) s1)
          (copy_loop p impl fuel limit file1 file2 (block_of after))
  ]

  pub copy_loop-read :
      (fuel limit : ℕ) (block : Text) (q q' : Os K) (c : ℤ) (after : Option Text)
      → read p impl file1 (some block) q ≡ (c, after, q')
      → copy_loop p impl (suc fuel) limit file1 file2 block q ≡ has_read fuel limit (c, after, q')
  unfolding copy_loop
  copy_loop-read fuel limit block q q' c after e = ap (has_read fuel limit) e
