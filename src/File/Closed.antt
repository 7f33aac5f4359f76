-- ===== src/File/Closed.antt =====
-- Which names of files are open after OS_CloseFileByName (osapi-file.c).
use hello_world_osal.Base.{
  ℕ, zero, suc, ◌+◌, ◌≤◌, ◌<◌, ◌≡◌, refl, sym, ap, subst, ◌∙◌, subst, arith, ℤ, true, false, not,
  ◌&&◌, ◌||◌, ◌==◌, ltb, leb, some, Text, if◌then◌else◌, is_success, is_code, os_error,
  os_fs_err_path_invalid, str_eq, Bool-cases, inl, inr,
}
use hello_world_osal.Idmap.ObjectType
use hello_world_osal.Idmap.Id.{get_max_for_object_type}
use hello_world_osal.Idmap.Id.Layout.{entry_injective}
use hello_world_osal.Idmap.State.{Os, Port}
use hello_world_osal.Idmap.Lock.{lock_global}
use hello_world_osal.File.{FileImpl, is_named, file_open_check}
use hello_world_osal.File.Closing.{close_stream, close_named, close_file_by_name}
use hello_world_osal.File.Names.{
  any_named-none, any_named-same, is_named-one, is_named-lock_global, is_named-unlock_global,
  is_open, file_open_check-is_open,
}

module _ {K : Type 0} (p : Port K) (impl : FileImpl K)
    (plain : (i : ℕ) (s : Os K)
      → is_code (impl.close_impl i s).0 os_fs_err_path_invalid ≡ false) where
  is_named-close_stream :
      (x : Text) (i j : ℕ) (s : Os K)
      → i < get_max_for_object_type ObjectType.stream
      → j < get_max_for_object_type ObjectType.stream
      → let (code, s') = close_stream p impl i s in
        is_named x j s' ≡ (not (i == j && is_success code) && is_named x j s)
  unfolding is_named close_stream
  is_named-close_stream x i j s hi hj =
      ground (arith, entry_injective ObjectType.stream ObjectType.stream i j hi hj)

  close_stream-plain :
      (i : ℕ) (s : Os K) → is_code (close_stream p impl i s).0 os_fs_err_path_invalid ≡ false
  unfolding close_stream
  close_stream-plain i s = ground (arith, plain i s)

  -- The code after the close of a stream.
  abbrev next_code : ℤ → ℤ → ℤ
  next_code code c = if is_code code os_fs_err_path_invalid || not (is_success c) then c else code

  close_named-other :
      (n i : ℕ) (x : Text) (code : ℤ) (s : Os K)
      → is_named x i s ≡ false
      → close_named p impl (suc n) i x (code, s) ≡ close_named p impl n (i + 1) x (code, s)
  unfolding close_named
  close_named-other n i x code s other =
      ap (λ (r : ℤ × Os K). close_named p impl n (i + 1) x r) (rw other refl)

  close_named-named :
      (n i : ℕ) (x : Text) (code : ℤ) (s : Os K)
      → is_named x i s ≡ true
      → let (c, s') = close_stream p impl i s in
        close_named p impl (suc n) i x (code, s)
        ≡ close_named p impl n (i + 1) x (next_code code c, s')
  unfolding close_named
  close_named-named n i x code s named =
      ap (λ (r : ℤ × Os K). close_named p impl n (i + 1) x r) (rw named refl)

  next_code-bad :
      (code c : ℤ)
      → is_success code ≡ false
      → is_code code os_fs_err_path_invalid ≡ false
      → is_code c os_fs_err_path_invalid ≡ false
      → (is_success (next_code code c) ≡ false)
        × (is_code (next_code code c) os_fs_err_path_invalid ≡ false)
  next_code-bad code c bad known plain_c = elim (Bool-cases (is_success c)) [
    | inl fine ↦ rw (known, fine) (bad, known)
    | inr failed ↦ rw (known, failed) (failed, plain_c)
  ]

  -- A failure stays.
  close_named-failed :
      (n i : ℕ) (x : Text) (code : ℤ) (s : Os K)
      → is_success code ≡ false
      → is_code code os_fs_err_path_invalid ≡ false
      → is_success (close_named p impl n i x (code, s)).0 ≡ false
  close_named-failed zero i x code s bad known = unfold close_named in bad
  close_named-failed (suc n) i x code s bad known = elim (Bool-cases (is_named x i s)) [
    | inr other ↦
        ap (λ (r : ℤ × Os K). is_success r.0) (close_named-other n i x code s other)
        ∙ close_named-failed n (i + 1) x code s bad known
    | inl named ↦
        let (c, s') = close_stream p impl i s in
        let (bad', known') = next_code-bad code c bad known (close_stream-plain i s) in
        ap (λ (r : ℤ × Os K). is_success r.0) (close_named-named n i x code s named)
        ∙ close_named-failed n (i + 1) x (next_code code c) s' bad' known'
  ]

  -- If no close failed, a stream is named as before but for those of the name.
  close_named-is_named :
      (n i : ℕ) (x y : Text) (j : ℕ) (code : ℤ) (s : Os K)
      → i + n ≤ get_max_for_object_type ObjectType.stream
      → j < get_max_for_object_type ObjectType.stream
      → let (code', s') = close_named p impl n i x (code, s) in
        is_success code' ≡ true
        → is_named y j s' ≡ (not ((leb i j && ltb j (i + n)) && is_named x j s) && is_named y j s)
  close_named-is_named zero i x y j code s h k done = unfold close_named in ground arith
  close_named-is_named (suc n) i x y j code s h k done = elim (Bool-cases (is_named x i s)) [
    | inr other ↦
        let e = close_named-other n i x code s other in
        let rest =
          close_named-is_named n (i + 1) x y j code s (omega arith) k
            (ap (λ (r : ℤ × Os K). is_success r.0) (sym e) ∙ done) in
        let here : (i ≡ j) → is_named x j s ≡ false =
          λ q. subst (λ m. is_named x m s ≡ false) q other in
        ap (λ (r : ℤ × Os K). is_named y j r.1) e ∙ rest ∙ ground (arith, here)
    | inl named ↦
        let (c, s') = close_stream p impl i s in
        let e = close_named-named n i x code s named in
        let done' = ap (λ (r : ℤ × Os K). is_success r.0) (sym e) ∙ done in
        elim (Bool-cases (is_success c)) [
          | inr failed ↦
              let next : next_code code c ≡ c = rw failed (ground arith) in
              let bad =
                close_named-failed n (i + 1) x (next_code code c) s' (ap is_success next ∙ failed) (
                  ap (λ (a : ℤ). is_code a os_fs_err_path_invalid) next ∙ close_stream-plain i s) in
              absurd (ground (arith, bad, done'))
          | inl fine ↦
              let rest =
                close_named-is_named n (i + 1) x y j (next_code code c) s' (omega arith) k done' in
              let here : (i ≡ j) → is_named x j s ≡ true =
                λ q. subst (λ m. is_named x m s ≡ true) q named in
              ap (λ (r : ℤ × Os K). is_named y j r.1) e
              ∙ rest
              ∙ ground (
                arith,
                here,
                fine,
                is_named-close_stream x i j s (omega arith) k,
                is_named-close_stream y i j s (omega arith) k,
              )
        ]
  ]

  close_file_by_name-is_named :
      (x y : Text) (j : ℕ) (s : Os K)
      → j < get_max_for_object_type ObjectType.stream
      → let (code, s') = close_file_by_name p impl (some x) s in
        is_success code ≡ true → is_named y j s' ≡ (not (is_named x j s) && is_named y j s)
  unfolding close_file_by_name
  close_file_by_name-is_named x y j s k done =
      let m = get_max_for_object_type ObjectType.stream in
      let s1 = lock_global p ObjectType.stream s in
      let rest = close_named-is_named m 0 x y j os_fs_err_path_invalid s1 (omega arith) k done in
      ground (
        arith,
        rest,
        is_named-unlock_global p y j ObjectType.stream
            (close_named p impl m 0 x (os_fs_err_path_invalid, s1)).1,
        is_named-lock_global p x j ObjectType.stream s,
        is_named-lock_global p y j ObjectType.stream s,
      )

  -- If OS_CloseFileByName succeeds, no file is open under the name, and what OS_FileOpenCheck says
  -- of any other name is unchanged; the layer below never closes with OS_FS_ERR_PATH_INVALID.
  pub close_file_by_name-file_open_check :
      (x y : Text) (s : Os K)
      → str_eq x y ≡ false
      → let (code, s') = close_file_by_name p impl (some x) s in
        is_success code ≡ true
        → ((file_open_check p (some x) s').0 ≡ os_error)
          × ((file_open_check p (some y) s').0 ≡ (file_open_check p (some y) s).0)
  close_file_by_name-file_open_check x y s ne done =
      let m = get_max_for_object_type ObjectType.stream in
      let s' = (close_file_by_name p impl (some x) s).1 in
      let gone : is_open p x s' ≡ false =
        any_named-none m m 0 x s' (omega arith)
          (λ j h. ground (arith, close_file_by_name-is_named x x j s h done)) in
      let kept : is_open p y s' ≡ is_open p y s = any_named-same m m 0 y s s' (omega arith) (λ j h.
        ground (arith, close_file_by_name-is_named x y j s h done, is_named-one x y j s ne)) in
      rw
        (
          file_open_check-is_open p x s',
          file_open_check-is_open p y s',
          file_open_check-is_open p y s,
          gone,
          kept,
        )
        (refl, refl)
