-- ===== src/File/Copy.antt =====
-- OS_cp and OS_mv (osapi-file.c).
use hello_world_osal.Base.{
  ℕ, zero, suc, ℤ, pos, negsuc, true, Option, none, some, Text, [], ◌∷◌, if◌then◌else◌, take, drop,
  is_success, os_success, os_invalid_pointer,
}
use hello_world_osal.Idmap.Id.{is_defined, undefined_id}
use hello_world_osal.Idmap.State.{Os, Port}
use hello_world_osal.FileSys.{FileSysImpl}
use hello_world_osal.File.{
  read_only, write_only, no_flags, create_and_truncate, FileImpl, read, write, close,
}
use hello_world_osal.File.Paths.{open_create, remove, rename}

-- The ID that went out, or the undefined one that was there before.
abbrev pub id_or_undefined : Option ℕ → ℕ
id_or_undefined none = undefined_id
id_or_undefined (some id) = id

abbrev pub block_of : Option Text → Text
block_of none = []
block_of (some block) = block

module _ {K : Type 0} where
  -- What follows on success.
  unfoldable pub and_then : Option (ℤ × Os K) → (Os K → Option (ℤ × Os K)) → Option (ℤ × Os K)
  and_then none next = none
  and_then (some (code, s)) next =
      let rest = next s in if is_success code then rest else some (code, s)

module _ {K : Type 0} (p : Port K) (impl : FileImpl K) where
  -- The loop that writes the bytes that were read, of which `rest` is still to go; `none` if the fuel
  -- runs out.
  unfoldable pub write_all : ℕ → ℕ → Text → Os K → Option (ℤ × Os K)
  write_all zero file2 rest s = none
  write_all (suc fuel) file2 [] s = some (os_success, s)
  write_all (suc fuel) file2 (b ∷ rest) s =
      let (wr_size, s') = write p impl file2 (some (b ∷ rest)) s in
      elim wr_size [
        | negsuc n ↦ some (negsuc n, s')
        | pos n ↦ write_all fuel file2 (drop n (b ∷ rest)) s'
      ]

  -- The loop of OS_cp with the block that it copies through, and the fuel of the inner loop; `none` if
  -- the fuel runs out.
  unfoldable pub copy_loop : ℕ → ℕ → ℕ → ℕ → Text → Os K → Option (ℤ × Os K)
  copy_loop zero limit file1 file2 block s = none
  copy_loop (suc fuel) limit file1 file2 block s =
      let (rd_size, after, s1) = read p impl file1 (some block) s in
      elim rd_size [
        | negsuc n ↦ some (negsuc n, s1)
        | pos zero ↦ some (os_success, s1)
        | pos (suc n) ↦
            and_then (write_all limit file2 (take (suc n) (block_of after)) s1)
              (copy_loop fuel limit file1 file2 (block_of after))
      ]

  abbrev close_defined : ℕ → Os K → Os K
  close_defined id s = if is_defined id then (close p impl id s).1 else s

  -- The end of OS_cp.
  unfoldable pub close_both : ℕ → ℕ → Option (ℤ × Os K) → Option (ℤ × Os K)
  close_both file1 file2 none = none
  close_both file1 file2 (some (code, s)) = some (code, close_defined file2 (close_defined file1 s))

module _ {K : Type 0} (p : Port K) (volumes : FileSysImpl K) (garbage : ℕ) (impl : FileImpl K) where
  -- `block` is what the stack holds where the block is; `none` if the fuel runs out.
  unfoldable pub cp : ℕ → Text → Option Text → Option Text → Os K → Option (ℤ × Os K)
  cp fuel block none dest s = some (os_invalid_pointer, s)
  cp fuel block (some src) none s = some (os_invalid_pointer, s)
  cp fuel block (some src) (some dest) s =
      let (code1, out1, s1) =
        open_create p volumes garbage impl true (some src) no_flags read_only s in
      let (code2, out2, s2) =
        open_create p volumes garbage impl true (some dest) create_and_truncate write_only s1 in
      let file1 = id_or_undefined out1 in
      let file2 = id_or_undefined out2 in
      let copied =
        if is_success code2
        then copy_loop p impl fuel fuel file1 file2 block s2
        else some (code2, s2) in
      if is_success code1
      then close_both p impl file1 file2 copied
      else close_both p impl file1 undefined_id (some (code1, s1))

  unfoldable pub remove_source : Text → Option (ℤ × Os K) → Option (ℤ × Os K)
  remove_source src none = none
  remove_source src (some (code, s)) =
      if is_success code
      then some (code, (remove p volumes garbage impl (some src) s).1)
      else some (code, s)

  unfoldable pub mv : ℕ → Text → Option Text → Option Text → Os K → Option (ℤ × Os K)
  mv fuel block src dest s =
      let (code, s1) = rename p volumes garbage impl src dest s in
      let copied = cp fuel block src dest s1 in
      if is_success code
      then some (code, s1)
      else elim src [ none ↦ copied | some path ↦ remove_source path copied ]
