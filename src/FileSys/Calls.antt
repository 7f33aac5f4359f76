-- ===== src/FileSys/Calls.antt =====
-- The calls of osal/src/os/shared/src/osapi-filesys.c.
use hello_world_osal.Base.{
  ℕ, ◌+◌, bit_or, ℤ, Bool, true, false, not, ◌||◌, Option, none, some, Text, ◌==◌, leb,
  if◌then◌else◌, length, is_success, char_at, after_last_slash, os_success, os_invalid_pointer,
  os_err_name_too_long, os_err_name_not_found, os_err_incorrect_obj_state, os_fs_err_path_too_long,
  os_fs_err_path_invalid,
}
use hello_world_osal.Idmap.ObjectType
use hello_world_osal.Idmap.Id.{Result, ok, fail, entry, undefined_id}
use hello_world_osal.Idmap.State.{Os, Port, set_record}
use hello_world_osal.Idmap.Lock.{exclusive, unlock_global}
use hello_world_osal.Idmap.Lookup.{max_api_name, get_by_name, get_by_search}
use hello_world_osal.Idmap.Alloc.{allocate_new, finalize_new}
use hello_world_osal.FileSys.{
  max_path_len, dev_name_len, max_local_path_len, is_fixed, is_ready, is_mounted_system,
  is_mounted_virtual, FileSysImpl, clear_flags, set_filesys, set_flags, run_volume, local_index,
  search_path, volume_store, fixed_store, historic_code,
}

-- Every failure becomes OS_ERR_NAME_NOT_FOUND in the end.
abbrev pub blur : ℤ → ℤ
blur code = if is_success code then code else os_err_name_not_found

module _ {K : Type 0} (p : Port K) (impl : FileSysImpl K) where
  -- OS_FileSys_Initialize on volume `i`, from the call of OS_FileSysStartVolume_Impl on.
  unfoldable pub format_volume : Bool → ℕ → Os K → ℤ × Os K
  format_volume false i s = (os_success, s)
  format_volume true i s = run_volume i (impl.format_impl i s) s

  unfoldable pub start_volume : Bool → ℕ → Os K → ℤ × Os K
  start_volume should_format i s =
      let (status, s1) = run_volume i (impl.start_impl i s) s in
      let (status', s2) = format_volume should_format i s1 in
      if not (is_success status)
      then (status, s1)
      else if is_success status'
      then (status', set_flags i (bit_or (s2.filesys_table i).flags is_ready) s2)
      else (status', (run_volume i (impl.stop_impl i s2) s2).1)

  -- The code, and the ID of the new volume.
  unfoldable pub initialize_allocated :
      (ℕ → Os K → Os K) → (ℕ → Os K → ℤ × Os K) → Result ℕ × Os K → ℤ × Option ℕ × Os K
  initialize_allocated store start (fail code, s) = (code, none, s)
  initialize_allocated store start (ok i, s) =
      let (status, s1) = start i (store i s) in
      let (code, id, s2) = finalize_new p status (entry ObjectType.filesys i) s1 in
      (code, some id, s2)

  unfoldable pub file_sys_initialize :
      Option ℕ → Option Text → Option Text → ℕ → ℕ → Bool → Os K → ℤ × Os K
  file_sys_initialize address none vol blocksize numblocks format s = (os_invalid_pointer, s)
  file_sys_initialize address (some dev) none blocksize numblocks format s = (os_invalid_pointer, s)
  file_sys_initialize address (some dev) (some vol) blocksize numblocks format s =
      let (code, id, s') =
        initialize_allocated (volume_store address dev vol blocksize numblocks)
          (start_volume format) (allocate_new p ObjectType.filesys (some dev) s) in
      if char_at 0 dev == 0 || char_at 0 vol == 0
      then (os_fs_err_path_invalid, s)
      else if leb dev_name_len (length dev) || leb dev_name_len (length vol)
      then (os_fs_err_path_too_long, s)
      else (code, s')

  unfoldable pub mkfs : Option ℕ → Option Text → Option Text → ℕ → ℕ → Os K → ℤ × Os K
  mkfs address dev vol blocksize numblocks s =
      let (code, s') = file_sys_initialize address dev vol blocksize numblocks true s in
      (historic_code code, s')

  unfoldable pub initfs : Option ℕ → Option Text → Option Text → ℕ → ℕ → Os K → ℤ × Os K
  initfs address dev vol blocksize numblocks s =
      let (code, s') = file_sys_initialize address dev vol blocksize numblocks false s in
      (historic_code code, s')

  -- The volume of a fixed map is started and mounted at once.
  unfoldable pub start_fixed : ℕ → Os K → ℤ × Os K
  start_fixed i s =
      let (status, s1) = run_volume i (impl.start_impl i s) s in
      let s2 = set_flags i (bit_or (s1.filesys_table i).flags is_ready) s1 in
      let (status', s3) = run_volume i (impl.mount_impl i s2) s2 in
      if not (is_success status)
      then (status, s1)
      else if is_success status'
      then (
        status',
        set_flags i (bit_or (s3.filesys_table i).flags (is_mounted_system + is_mounted_virtual)) s3,
      )
      else (status', s3)

  unfoldable pub file_sys_add_fixed_map : Option Text → Option Text → Os K → ℤ × Option ℕ × Os K
  file_sys_add_fixed_map none virt s = (os_invalid_pointer, none, s)
  file_sys_add_fixed_map (some phys) none s = (os_invalid_pointer, none, s)
  file_sys_add_fixed_map (some phys) (some virt) s =
      let dev : Text = elim (after_last_slash phys) [ some rest ↦ rest | none ↦ phys ] in
      if leb max_local_path_len (length phys) || leb max_path_len (length virt)
      then (os_err_name_too_long, none, s)
      else if leb dev_name_len (length dev)
      then (os_err_name_too_long, none, s)
      else initialize_allocated (fixed_store dev phys virt) start_fixed
          (allocate_new p ObjectType.filesys (some dev) s)

module _ {K : Type 0} (p : Port K) (impl : FileSysImpl K) (garbage : ℕ) where
  -- The volume is stopped, and its entry freed, before the unlocking.
  unfoldable pub remove_found : Result ℕ × Os K → ℤ × Os K
  remove_found (fail code, s) = (os_err_name_not_found, s)
  remove_found (ok g, s) =
      let i = local_index garbage g s in
      let e = entry ObjectType.filesys g in
      let (status, s1) = run_volume i (impl.stop_impl i s) s in
      let s2 =
        if is_success status
        then set_record s1 e (record (s1.common_table e) { active_id = undefined_id })
        else s1 in
      (status, unlock_global p ObjectType.filesys s2)

  unfoldable pub rmfs : Option Text → Os K → ℤ × Os K
  rmfs none s = (os_invalid_pointer, s)
  rmfs (some dev) s =
      if leb max_api_name (length dev)
      then (os_fs_err_path_too_long, s)
      else remove_found (get_by_name p exclusive ObjectType.filesys dev s)

  unfoldable pub mount_volume : Text → ℕ → Os K → ℤ × Os K
  mount_volume mountpoint i s =
      let r = s.filesys_table i in
      let (status, s1) = run_volume i (impl.mount_impl i s) s in
      let r1 = s1.filesys_table i in
      if not (clear_flags r.flags is_fixed == is_ready)
      then (os_err_incorrect_obj_state, s)
      else if char_at 0 r.system_mountpt == 0
      then (os_fs_err_path_invalid, s)
      else if is_success status
      then (
        status,
        set_filesys s1 i (record r1 {
          flags = bit_or r1.flags (is_mounted_system + is_mounted_virtual);
          virtual_mountpt = mountpoint;
        }),
      )
      else (status, s1)

  unfoldable pub mount_found : Text → Result ℕ × Os K → ℤ × Os K
  mount_found mountpoint (fail code, s) = (os_err_name_not_found, s)
  mount_found mountpoint (ok g, s) =
      let (code, s1) = mount_volume mountpoint (local_index garbage g s) s in
      (blur code, unlock_global p ObjectType.filesys s1)

  unfoldable pub mount : Option Text → Option Text → Os K → ℤ × Os K
  mount none mountpoint s = (os_invalid_pointer, s)
  mount (some dev) none s = (os_invalid_pointer, s)
  mount (some dev) (some mountpoint) s =
      if leb dev_name_len (length dev) || leb max_path_len (length mountpoint)
      then (os_fs_err_path_too_long, s)
      else mount_found mountpoint (get_by_name p exclusive ObjectType.filesys dev s)

  unfoldable pub unmount_volume : ℕ → Os K → ℤ × Os K
  unmount_volume i s =
      let r = s.filesys_table i in
      let (status, s1) = run_volume i (impl.unmount_impl i s) s in
      let r1 = s1.filesys_table i in
      if not (clear_flags r.flags is_fixed == is_ready + is_mounted_system + is_mounted_virtual)
      then (os_err_incorrect_obj_state, s)
      else if is_success status
      then (status, set_flags i (clear_flags r1.flags (is_mounted_system + is_mounted_virtual)) s1)
      else (status, s1)

  unfoldable pub unmount_found : Result ℕ × Os K → ℤ × Os K
  unmount_found (fail code, s) = (os_err_name_not_found, s)
  unmount_found (ok g, s) =
      let (code, s1) = unmount_volume (local_index garbage g s) s in
      (blur code, unlock_global p ObjectType.filesys s1)

  unfoldable pub unmount : Option Text → Os K → ℤ × Os K
  unmount none s = (os_invalid_pointer, s)
  unmount (some mountpoint) s =
      if leb max_path_len (length mountpoint)
      then (os_fs_err_path_too_long, s)
      else unmount_found (get_by_search p exclusive ObjectType.filesys (search_path mountpoint s) s)
