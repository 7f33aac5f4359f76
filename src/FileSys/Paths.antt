-- ===== src/FileSys/Paths.antt =====
-- The volume that a path is on: its free space, its check, its drive and the translation of the path
-- (osapi-filesys.c).
use hello_world_osal.Base.{
  ℕ, ◌+◌, ◌-◌, ◌*◌, ◌%◌, ◌^◌, bit_and, ℤ, pos, Bool, true, false, not, Option, none, some, Text,
  ◌++◌, ◌==◌, ltb, leb, if◌then◌else◌, length, take, is_success, int32, slash, char_at, drop,
  after_last_slash, os_success, os_invalid_pointer, os_err_name_not_found,
  os_err_incorrect_obj_state, os_fs_err_path_too_long, os_fs_err_name_too_long,
  os_fs_err_path_invalid,
}
use hello_world_osal.Idmap.ObjectType
use hello_world_osal.Idmap.Id.{Result, ok, fail, entry}
use hello_world_osal.Idmap.Tables.{FilesysRecord}
use hello_world_osal.Idmap.State.{Os, Port}
use hello_world_osal.Idmap.Lock.{global, refcounted, lock_global, unlock_global}
use hello_world_osal.Idmap.Lookup.{get_by_search, refcount_decr}
use hello_world_osal.FileSys.{
  max_path_len, max_file_name, phys_name_len, max_local_path_len, is_mounted_system, FileSysImpl,
  local_index, search_path, count_free,
}

-- os_fsinfo_t
pub record FsInfo : Type 0 where
  pub max_fds : ℕ
  pub free_fds : ℕ
  pub max_volumes : ℕ
  pub free_volumes : ℕ

module _ {K : Type 0} (p : Port K) (impl : FileSysImpl K) (garbage : ℕ) where
  -- The size of a block and the number of the free ones, from the volume that is found.
  unfoldable pub stat_found : Result ℕ × Os K → ℤ × ℕ × ℕ × Os K
  stat_found (fail code, s) = (os_fs_err_path_invalid, 0, 0, s)
  stat_found (ok g, s) =
      let (status, block_size, blocks_free) = impl.stat_impl (local_index garbage g s) s.kernel in
      (status, block_size, blocks_free, unlock_global p ObjectType.filesys s)

  -- The number of blocks is returned as a code, of 32 bits.
  unfoldable pub fs_blocks_free : Option Text → Os K → ℤ × Os K
  fs_blocks_free none s = (os_invalid_pointer, s)
  fs_blocks_free (some name) s =
      let (code, block_size, blocks_free, s') =
        stat_found (get_by_search p global ObjectType.filesys (search_path name s) s) in
      if leb max_path_len (length name)
      then (os_fs_err_path_too_long, s)
      else (if is_success code then int32 (pos blocks_free) else code, s')

  unfoldable pub fs_bytes_free : Bool → Option Text → Os K → ℤ × Option ℕ × Os K
  fs_bytes_free out none s = (os_invalid_pointer, none, s)
  fs_bytes_free false (some name) s = (os_invalid_pointer, none, s)
  fs_bytes_free true (some name) s =
      let (code, block_size, blocks_free, s') =
        stat_found (get_by_search p global ObjectType.filesys (search_path name s) s) in
      if leb max_path_len (length name)
      then (os_fs_err_path_too_long, none, s)
      else (code, if is_success code then some (blocks_free * block_size % 2 ^ 64) else none, s')

  unfoldable pub check_found : Bool → Result ℕ × Os K → ℤ × Os K
  check_found repair (fail code, s) = (code, s)
  check_found repair (ok g, s) =
      let (status, s1) = impl.check_impl (local_index garbage g s) repair s in
      (status, (refcount_decr p (entry ObjectType.filesys g) s1).1)

  unfoldable pub chkfs : Option Text → Bool → Os K → ℤ × Os K
  chkfs none repair s = (os_invalid_pointer, s)
  chkfs (some name) repair s =
      if leb max_path_len (length name)
      then (os_fs_err_path_too_long, s)
      else check_found repair (get_by_search p refcounted ObjectType.filesys (search_path name s) s)

  -- The text in the buffer of OS_FS_PHYS_NAME_LEN characters.
  unfoldable pub drive_found : Result ℕ × Os K → ℤ × Option Text × Os K
  drive_found (fail code, s) = (os_err_name_not_found, none, s)
  drive_found (ok g, s) =
      let r = s.filesys_table (local_index garbage g s) in
      let s' = unlock_global p ObjectType.filesys s in
      if not (bit_and r.flags is_mounted_system == 0)
      then (os_success, some (take (phys_name_len - 1) r.system_mountpt), s')
      else (os_err_incorrect_obj_state, none, s')

  unfoldable pub get_phys_drive_name : Bool → Option Text → Os K → ℤ × Option Text × Os K
  get_phys_drive_name out none s = (os_invalid_pointer, none, s)
  get_phys_drive_name false (some mountpoint) s = (os_invalid_pointer, none, s)
  get_phys_drive_name true (some mountpoint) s =
      if leb max_path_len (length mountpoint)
      then (os_fs_err_path_too_long, none, s)
      else drive_found (get_by_search p global ObjectType.filesys (search_path mountpoint s) s)

  -- The path in the host's file system, from the volume's record.
  unfoldable pub local_path : Text → FilesysRecord → ℤ × Option Text
  local_path path r =
      let begin = length r.virtual_mountpt in
      if bit_and r.flags is_mounted_system == 0
      then (os_err_incorrect_obj_state, none)
      else if ltb (length path) begin
      then (os_fs_err_path_invalid, none)
      else if ltb (length r.system_mountpt + (length path - begin)) max_local_path_len
      then (os_success, some (r.system_mountpt ++ drop begin path))
      else (os_fs_err_path_too_long, none)

  unfoldable pub translate_found : Text → Result ℕ × Os K → ℤ × Option Text × Os K
  translate_found path (fail code, s) = (os_fs_err_path_invalid, none, s)
  translate_found path (ok g, s) =
      let (code, out) = local_path path (s.filesys_table (local_index garbage g s)) in
      (code, out, unlock_global p ObjectType.filesys s)

  -- A NULL pointer for the local path is `false`.
  unfoldable pub translate_path : Bool → Option Text → Os K → ℤ × Option Text × Os K
  translate_path out none s = (os_invalid_pointer, none, s)
  translate_path false (some path) s = (os_invalid_pointer, none, s)
  translate_path true (some path) s =
      if leb max_path_len (length path)
      then (os_fs_err_path_too_long, none, s)
      else elim (after_last_slash path) [
        | none ↦ (os_fs_err_path_invalid, none, s)
        | some name ↦
            if leb max_file_name (length name)
            then (os_fs_err_name_too_long, none, s)
            else if not (char_at 0 path == slash)
            then (os_fs_err_path_invalid, none, s)
            else translate_found path
                (get_by_search p global ObjectType.filesys (search_path path s) s)
      ]

module _ {K : Type 0} where
  -- What follows on a path that could be translated.
  unfoldable pub on_local : (Text → Os K → ℤ × Os K) → ℤ × Option Text × Os K → ℤ × Os K
  on_local action (code, none, s) = (code, s)
  on_local action (code, some local, s) = if is_success code then action local s else (code, s)

module _ {K : Type 0} (p : Port K) where
  unfoldable pub get_fs_info : Bool → Os K → ℤ × Option FsInfo × Os K
  get_fs_info false s = (os_invalid_pointer, none, s)
  get_fs_info true s =
      let s1 = lock_global p ObjectType.stream s in
      let free_fds = count_free 50 ObjectType.stream 0 s1 in
      let s2 = unlock_global p ObjectType.stream s1 in
      let s3 = lock_global p ObjectType.filesys s2 in
      let free_volumes = count_free 14 ObjectType.filesys 0 s3 in
      (
        os_success,
        some (record {
          max_fds = 50;
          free_fds = free_fds;
          max_volumes = 14;
          free_volumes = free_volumes;
        }),
        unlock_global p ObjectType.filesys s3,
      )
