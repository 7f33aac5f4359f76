-- ===== src/File/Closing.antt =====
-- OS_CloseFileByName and OS_CloseAllFiles (osapi-file.c).
use hello_world_osal.Base.{
  ℕ, zero, suc, ◌+◌, ℤ, not, ◌||◌, Option, none, some, Text, if◌then◌else◌, is_code, is_success,
  os_success, os_invalid_pointer, os_fs_err_path_invalid,
}
use hello_world_osal.Idmap.ObjectType
use hello_world_osal.Idmap.Id.{entry, is_defined, undefined_id, get_max_for_object_type}
use hello_world_osal.Idmap.State.{Os, Port, set_record}
use hello_world_osal.Idmap.Lock.{lock_global, unlock_global}
use hello_world_osal.File.{FileImpl, is_named}

module _ {K : Type 0} (p : Port K) (impl : FileImpl K) where
  -- The layer below closes stream `i`, whose ID is then taken back.
  unfoldable pub close_stream : ℕ → Os K → ℤ × Os K
  close_stream i s =
      let (code, k) = impl.close_impl i s in
      let e = entry ObjectType.stream i in
      let s1 = record s { kernel = k } in
      if is_success code
      then (code, set_record s1 e (record (s.common_table e) { active_id = undefined_id }))
      else (code, s1)

  -- The loop of OS_CloseFileByName; the code is `return_code`.
  unfoldable pub close_named : ℕ → ℕ → Text → ℤ × Os K → ℤ × Os K
  close_named zero i name r = r
  close_named (suc count) i name (code, s) =
      let (close_code, s') = close_stream i s in
      let next : ℤ =
        if is_code code os_fs_err_path_invalid || not (is_success close_code)
        then close_code
        else code in
      close_named count (i + 1) name (if is_named name i s then (next, s') else (code, s))

  unfoldable pub close_file_by_name : Option Text → Os K → ℤ × Os K
  close_file_by_name none s = (os_invalid_pointer, s)
  close_file_by_name (some name) s =
      let (code, s') =
        close_named (get_max_for_object_type ObjectType.stream) 0 name
          (os_fs_err_path_invalid, lock_global p ObjectType.stream s) in
      (code, unlock_global p ObjectType.stream s')

  -- The loop of OS_CloseAllFiles.
  unfoldable pub close_all : ℕ → ℕ → ℤ × Os K → ℤ × Os K
  close_all zero i r = r
  close_all (suc count) i (code, s) =
      let (close_code, s') = close_stream i s in
      let next : ℤ = if not (is_success close_code) then close_code else code in
      close_all count (i + 1) (
        if is_defined (s.common_table (entry ObjectType.stream i)).active_id
        then (next, s')
        else (code, s))

  unfoldable pub close_all_files : Os K → ℤ × Os K
  close_all_files s =
      let (code, s') =
        close_all (get_max_for_object_type ObjectType.stream) 0
          (os_success, lock_global p ObjectType.stream s) in
      (code, unlock_global p ObjectType.stream s')
