-- ===== src/File/Names.antt =====
-- Which names of files are open after OS_rename (osapi-file.c).
use hello_world_osal.Base.{
  ℕ, zero, suc, ◌+◌, ◌≤◌, ◌<◌, ◌≡◌, refl, ap, ◌∙◌, arith, Bool, true, false, ◌&&◌, ◌||◌, ◌==◌, ltb,
  leb, some, Text, if◌then◌else◌, is_success, os_success, os_error, str_eq, str_eq_refl, str_eq→eq,
}
use hello_world_osal.Idmap.ObjectType
use hello_world_osal.Idmap.Id.{get_max_for_object_type}
use hello_world_osal.Idmap.State.{Os, Port}
use hello_world_osal.Idmap.Lock.{lock_global, unlock_global}
use hello_world_osal.File.{is_named, rename_stream, rename_streams, any_named, file_open_check}
use hello_world_osal.File.Paths.{rename_open}

module _ {K : Type 0} where
  is_named-rename_stream :
      (old new x : Text) (i j : ℕ) (s : Os K)
      → is_named x j (rename_stream old new i s)
        ≡ (if i == j && is_named old j s then str_eq new x else is_named x j s)
  unfolding is_named rename_stream
  is_named-rename_stream old new x i j s = ground arith

  is_named-rename_streams :
      (n i : ℕ) (old new x : Text) (j : ℕ) (s : Os K)
      → is_named x j (rename_streams n i old new s)
        ≡ (if (leb i j && ltb j (i + n)) && is_named old j s then str_eq new x else is_named x j s)
  unfolding rename_streams
  is_named-rename_streams zero i old new x j s = ground arith
  is_named-rename_streams (suc n) i old new x j s =
      let s1 = rename_stream old new i s in
      ground (
        arith,
        is_named-rename_streams n (i + 1) old new x j s1,
        is_named-rename_stream old new x i j s,
        is_named-rename_stream old new old i j s,
      )

  pub any_named-none :
      (limit n i : ℕ) (x : Text) (s : Os K)
      → i + n ≤ limit
      → ((j : ℕ) → j < limit → is_named x j s ≡ false)
      → any_named n i x s ≡ false
  unfolding any_named
  any_named-none limit zero i x s h none_left = refl
  any_named-none limit (suc n) i x s h none_left =
      rw (none_left i (omega arith)) (any_named-none limit n (i + 1) x s (omega arith) none_left)

  pub any_named-same :
      (limit n i : ℕ) (x : Text) (s s' : Os K)
      → i + n ≤ limit
      → ((j : ℕ) → j < limit → is_named x j s' ≡ is_named x j s)
      → any_named n i x s' ≡ any_named n i x s
  unfolding any_named
  any_named-same limit zero i x s s' h same = refl
  any_named-same limit (suc n) i x s s' h same =
      rw (same i (omega arith), any_named-same limit n (i + 1) x s s' (omega arith) same) refl

  any_named-or :
      (limit n i : ℕ) (x y : Text) (s s' : Os K)
      → i + n ≤ limit
      → ((j : ℕ) → j < limit → is_named x j s' ≡ (is_named y j s || is_named x j s))
      → any_named n i x s' ≡ (any_named n i y s || any_named n i x s)
  unfolding any_named
  any_named-or limit zero i x y s s' h same = refl
  any_named-or limit (suc n) i x y s s' h same =
      ground (arith, same i, any_named-or limit n (i + 1) x y s s' (omega arith) same)

  -- A stream is open under one name.
  pub is_named-one :
      (old x : Text) (j : ℕ) (s : Os K)
      → str_eq old x ≡ false
      → is_named old j s ≡ true
      → is_named x j s ≡ false
  unfolding is_named
  is_named-one old x j s ne named =
      let name = (s.stream_table j).stream_name in
      let same : name ≡ old = str_eq→eq name old (ground (arith, named)) in
      let other : str_eq name x ≡ false = ap (λ n. str_eq n x) same ∙ ne in ground (arith, other)

module _ {K : Type 0} (p : Port K) where
  pub is_named-lock_global :
      (x : Text) (j t : ℕ) (s : Os K) → is_named x j (lock_global p t s) ≡ is_named x j s
  unfolding is_named lock_global
  is_named-lock_global x j t s = ground arith

  pub is_named-unlock_global :
      (x : Text) (j t : ℕ) (s : Os K) → is_named x j (unlock_global p t s) ≡ is_named x j s
  unfolding is_named unlock_global
  is_named-unlock_global x j t s = ground arith

  -- Whether a file is open under a name.
  abbrev pub is_open : Text → Os K → Bool
  is_open x s = any_named (get_max_for_object_type ObjectType.stream) 0 x s

  pub file_open_check-is_open :
      (x : Text) (s : Os K)
      → (file_open_check p (some x) s).0 ≡ (if is_open x s then os_success else os_error)
  unfolding file_open_check
  file_open_check-is_open x s =
      let m = get_max_for_object_type ObjectType.stream in
      ap (λ b. if b then os_success else os_error)
        (any_named-same m m 0 x s (lock_global p ObjectType.stream s) (omega arith)
          (λ j h. is_named-lock_global x j ObjectType.stream s))

  is_named-rename_open :
      (old new x : Text) (j : ℕ) (s : Os K)
      → j < get_max_for_object_type ObjectType.stream
      → is_named x j (rename_open p old new (os_success, s)).1
        ≡ (if is_named old j s then str_eq new x else is_named x j s)
  unfolding rename_open
  is_named-rename_open old new x j s h =
      let m = get_max_for_object_type ObjectType.stream in
      let s1 = lock_global p ObjectType.stream s in
      ground (
        arith,
        is_named-unlock_global x j ObjectType.stream (rename_streams m 0 old new s1),
        is_named-rename_streams m 0 old new x j s1,
        is_named-lock_global x j ObjectType.stream s,
        is_named-lock_global old j ObjectType.stream s,
      )

  rename_open-code :
      (old new : Text) (s : Os K) → (rename_open p old new (os_success, s)).0 ≡ os_success
  unfolding rename_open
  rename_open-code old new s = refl

  -- After a rename that the layer below has made, for two different names, OS_FileOpenCheck finds
  -- the new name if a file was open under either, never finds the old name, and says of any other
  -- name what it said before.
  pub file_open_check-rename_open :
      (old new x : Text) (s : Os K)
      → str_eq new old ≡ false
      → str_eq new x ≡ false
      → str_eq old x ≡ false
      → let (code, s') = rename_open p old new (os_success, s) in
        (code ≡ os_success)
        × ((file_open_check p (some new) s').0 ≡ (
            if is_success (file_open_check p (some old) s).0
            then os_success
            else (file_open_check p (some new) s).0))
        × ((file_open_check p (some old) s').0 ≡ os_error)
        × ((file_open_check p (some x) s').0 ≡ (file_open_check p (some x) s).0)
  file_open_check-rename_open old new x s moved ne other =
      let m = get_max_for_object_type ObjectType.stream in
      let s' = (rename_open p old new (os_success, s)).1 in
      let found : is_open new s' ≡ (is_open old s || is_open new s) =
        any_named-or m m 0 new old s s' (omega arith)
          (λ j h. ground (arith, is_named-rename_open old new new j s h, str_eq_refl new)) in
      let gone : is_open old s' ≡ false =
        any_named-none m m 0 old s' (omega arith)
          (λ j h. ground (arith, is_named-rename_open old new old j s h, moved)) in
      let kept : is_open x s' ≡ is_open x s = any_named-same m m 0 x s s' (omega arith) (λ j h.
        ground (arith, is_named-rename_open old new x j s h, is_named-one old x j s other)) in
      rw
        (
          file_open_check-is_open new s',
          file_open_check-is_open old s',
          file_open_check-is_open x s',
          file_open_check-is_open old s,
          file_open_check-is_open new s,
          file_open_check-is_open x s,
          found,
          gone,
          kept,
        )
        (rename_open-code old new s, ground arith, refl, refl)
