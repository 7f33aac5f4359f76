-- ===== src/File/Paths.antt =====
-- The calls on the path of a file (osapi-file.c).
use hello_world_osal.Base.{
  ℕ, ℤ, pos, Bool, true, false, ◌||◌, Option, none, some, Text, if◌then◌else◌, is_code, is_success,
  int32, os_error, os_invalid_pointer,
}
use hello_world_osal.Idmap.ObjectType
use hello_world_osal.Idmap.Id.{get_max_for_object_type}
use hello_world_osal.Idmap.State.{Os, Port}
use hello_world_osal.Idmap.Lock.{lock_global, unlock_global}
use hello_world_osal.Idmap.Alloc.{allocate_new}
use hello_world_osal.Service.{build}
use hello_world_osal.FileSys.{FileSysImpl}
use hello_world_osal.FileSys.Paths.{translate_path, on_local}
use hello_world_osal.File.{
  read_only, write_only, read_write, no_flags, create_and_truncate, FileStat, FileImpl, file_store,
  rename_streams,
}

module _ {K : Type 0} (p : Port K) where
  -- What follows on a rename in the layer below.
  unfoldable pub rename_open : Text → Text → ℤ × Os K → ℤ × Os K
  rename_open old new (code, s) =
      let s1 =
        rename_streams (get_max_for_object_type ObjectType.stream) 0 old new
          (lock_global p ObjectType.stream s) in
      if is_success code then (code, unlock_global p ObjectType.stream s1) else (code, s)

module _ {K : Type 0} (p : Port K) (volumes : FileSysImpl K) (garbage : ℕ) (impl : FileImpl K) where
  unfoldable pub open_file_local : Text → ℕ → ℤ → ℤ × Option Text × Os K → ℤ × Option ℕ × Os K
  open_file_local path flags access (code, none, s) = (code, none, s)
  open_file_local path flags access (code, some local, s) =
      if is_success code
      then build p ObjectType.stream (file_store path) (λ i. impl.open_impl i local flags access)
          (allocate_new p ObjectType.stream none s)
      else (code, none, s)

  unfoldable pub open_file : Option Text → ℕ → ℤ → Os K → ℤ × Option ℕ × Os K
  open_file none flags access s = (os_invalid_pointer, none, s)
  open_file (some path) flags access s =
      open_file_local path flags access (translate_path p volumes garbage true (some path) s)

  -- A NULL pointer for the ID is `false`, a NULL path `none`, which OS_TranslatePath refuses.
  unfoldable pub open_create : Bool → Option Text → ℕ → ℤ → Os K → ℤ × Option ℕ × Os K
  open_create false path flags access s = (os_invalid_pointer, none, s)
  open_create true path flags access s =
      if is_code access write_only || is_code access read_only || is_code access read_write
      then open_file path flags access s
      else (os_error, none, s)

  -- The ID as the code of a call that succeeds.
  unfoldable pub id_as_code : ℤ × Option ℕ × Os K → ℤ × Os K
  id_as_code (code, none, s) = (code, s)
  id_as_code (code, some id, s) = (if is_success code then int32 (pos id) else code, s)

  unfoldable pub creat : Option Text → ℤ → Os K → ℤ × Os K
  creat path access s =
      if is_code access write_only || is_code access read_write
      then id_as_code (open_create true path create_and_truncate access s)
      else (os_error, s)

  unfoldable pub os_open : Option Text → ℤ → ℕ → Os K → ℤ × Os K
  os_open path access mode s =
      if is_code access write_only || is_code access read_write || is_code access read_only
      then id_as_code (open_create true path no_flags access s)
      else (os_error, s)

  unfoldable pub chmod : Option Text → ℕ → Os K → ℤ × Os K
  chmod path access s =
      on_local (λ local. impl.chmod_impl local access)
        (translate_path p volumes garbage true path s)

  abbrev zero_stat : FileStat
  zero_stat = record { mode_bits = 0; time = pos 0; size = 0 }

  unfoldable pub stat_local : ℤ × Option Text × Os K → ℤ × FileStat × Os K
  stat_local (code, none, s) = (code, zero_stat, s)
  stat_local (code, some local, s) =
      if is_success code then impl.stat_impl local zero_stat s else (code, zero_stat, s)

  -- A NULL pointer for the result is `false`.
  unfoldable pub stat : Option Text → Bool → Os K → ℤ × Option FileStat × Os K
  stat path false s = (os_invalid_pointer, none, s)
  stat path true s =
      let (code, filestats, s') = stat_local (translate_path p volumes garbage true path s) in
      (code, some filestats, s')

  unfoldable pub remove : Option Text → Os K → ℤ × Os K
  remove path s = on_local impl.remove_impl (translate_path p volumes garbage true path s)

  -- The new path is only translated if the old one could be.
  unfoldable pub rename : Option Text → Option Text → Os K → ℤ × Os K
  rename none new s = (os_invalid_pointer, s)
  rename (some old) none s =
      on_local (λ old_path s1. (os_invalid_pointer, s1))
        (translate_path p volumes garbage true (some old) s)
  rename (some old) (some new) s =
      on_local
        (λ old_path s1.
          on_local (λ new_path s2. rename_open p old new (impl.rename_impl old_path new_path s2))
            (translate_path p volumes garbage true (some new) s1))
        (translate_path p volumes garbage true (some old) s)
