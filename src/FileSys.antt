-- ===== src/FileSys.antt =====
-- File systems: osal/src/os/shared/src/osapi-filesys.c. Here the records of the volumes and the match by
-- mount point.
pub mod Calls
pub mod Paths
pub mod Search
pub mod Find
pub mod Stages
pub mod Mounted
use hello_world_osal.Base.{
  ℕ, zero, suc, ◌+◌, ◌-◌, ◌*◌, ◌%◌, ◌^◌, bit_and, bit_or, ℤ, pos, Bool, true, false, not, ◌&&◌,
  ◌||◌, Option, none, some, Text, [], ◌∷◌, ◌++◌, ◌==◌, ltb, leb, if◌then◌else◌, length, take,
  update, is_success, is_code, int32, slash, char_at, drop, starts_with, after_last_slash,
  os_success, os_invalid_pointer, os_err_name_too_long, os_err_no_free_ids, os_err_name_not_found,
  os_err_incorrect_obj_state, os_fs_err_path_too_long, os_fs_err_name_too_long,
  os_fs_err_device_not_free, os_fs_err_path_invalid,
}
use hello_world_osal.Idmap.ObjectType
use hello_world_osal.Idmap.Id.{Result, ok, fail, entry, is_defined, undefined_id, to_array_index}
use hello_world_osal.Idmap.Tables.{FilesysRecord, zero_filesys}
use hello_world_osal.Idmap.State.{Os, Port, set_record}
use hello_world_osal.Idmap.Lock.{global, exclusive, refcounted, lock_global, unlock_global}
use hello_world_osal.Idmap.Lookup.{Match, max_api_name, get_by_name, get_by_search, refcount_decr}
use hello_world_osal.Idmap.Alloc.{allocate_new, finalize_new}

abbrev pub max_path_len : ℕ
max_path_len = 64

abbrev pub max_file_name : ℕ
max_file_name = 20

-- OS_FS_DEV_NAME_LEN and OS_FS_VOL_NAME_LEN
abbrev pub dev_name_len : ℕ
dev_name_len = 32

abbrev pub phys_name_len : ℕ
phys_name_len = 64

abbrev pub max_local_path_len : ℕ
max_local_path_len = max_path_len + phys_name_len

abbrev pub is_fixed : ℕ
is_fixed = 0x01

abbrev pub is_ready : ℕ
is_ready = 0x02

abbrev pub is_mounted_system : ℕ
is_mounted_system = 0x10

abbrev pub is_mounted_virtual : ℕ
is_mounted_virtual = 0x20

abbrev pub type_unknown : ℕ
type_unknown = 0

abbrev pub type_fs_based : ℕ
type_fs_based = 1

abbrev pub type_volatile_disk : ℕ
type_volatile_disk = 3

-- OS_FILESYS_RAMDISK_VOLNAME_PREFIX, "RAM"
abbrev pub ramdisk_prefix : Text
ramdisk_prefix = 82 ∷ 65 ∷ 77 ∷ []

-- The OS_FileSys*_Impl functions. The first five may write the volume's own record.
pub record FileSysImpl (K : Type 0) : Type 0 where
  pub start_impl : ℕ → Os K → ℤ × FilesysRecord × K
  pub stop_impl : ℕ → Os K → ℤ × FilesysRecord × K
  pub format_impl : ℕ → Os K → ℤ × FilesysRecord × K
  pub mount_impl : ℕ → Os K → ℤ × FilesysRecord × K
  pub unmount_impl : ℕ → Os K → ℤ × FilesysRecord × K
  pub check_impl : ℕ → Bool → Os K → ℤ × Os K
  pub stat_impl : ℕ → K → ℤ × ℕ × ℕ

-- The virtual mount point is a whole leading part of the path.
unfoldable pub find_virt_mount_point : (ℕ → FilesysRecord) → Text → Match
find_virt_mount_point table target local_id obj =
    let rec = table local_id in
    let mplen = length rec.virtual_mountpt in
    let next = char_at mplen target in
    if bit_and rec.flags is_mounted_virtual == 0
    then false
    else ltb 0 mplen && starts_with rec.virtual_mountpt target && (next == slash || next == 0)

-- `value & ~bits` on 8 bits.
unfoldable pub clear_flags : ℕ → ℕ → ℕ
clear_flags value bits = bit_and value (0xFF - bits)

-- The historic code of mkfs and initfs.
unfoldable pub historic_code : ℤ → ℤ
historic_code code =
    if is_code os_err_incorrect_obj_state code || is_code os_err_no_free_ids code
    then os_fs_err_device_not_free
    else code

module _ {K : Type 0} where
  abbrev pub set_filesys : Os K → ℕ → FilesysRecord → Os K
  set_filesys s i r = record s { filesys_table = update s.filesys_table i r }

  abbrev pub set_flags : ℕ → ℕ → Os K → Os K
  set_flags i flags s = set_filesys s i (record (s.filesys_table i) { flags = flags })

  -- A call into the layer below on volume `i`, with its status.
  abbrev pub run_volume : ℕ → ℤ × FilesysRecord × K → Os K → ℤ × Os K
  run_volume i (status, r, k) s = (status, record (set_filesys s i r) { kernel = k })

  unfoldable pub file_sys_api_init : Os K → Os K
  file_sys_api_init s = record s { filesys_table = λ i. zero_filesys }

  -- `local_id` from the ID of the entry that was found; it stays as it is on the stack if that
  -- is no ID of a file system.
  unfoldable pub local_index : ℕ → ℕ → Os K → ℕ
  local_index garbage i s =
      elim (to_array_index ObjectType.filesys
        (s.common_table (entry ObjectType.filesys i)).active_id) [ ok j ↦ j | fail code ↦ garbage ]

  abbrev pub search_path : Text → Os K → Match
  search_path path s = find_virt_mount_point s.filesys_table path

  -- The record of a new volume, before the layer below starts it.
  unfoldable pub volume_store : Option ℕ → Text → Text → ℕ → ℕ → ℕ → Os K → Os K
  volume_store address dev vol blocksize numblocks i s =
      let e = entry ObjectType.filesys i in
      let is_ram = starts_with ramdisk_prefix vol in
      let fstype : ℕ = elim address [
        | some a ↦ type_volatile_disk
        | none ↦ if is_ram then type_volatile_disk else type_unknown
      ] in
      set_filesys (set_record s e (record (s.common_table e) { name_entry = some dev })) i
        (record zero_filesys {
          device_name = dev;
          volume_name = vol;
          blocksize = blocksize;
          numblocks = numblocks;
          address = address;
          fstype = fstype;
        })

  -- The record of a new fixed map.
  unfoldable pub fixed_store : Text → Text → Text → ℕ → Os K → Os K
  fixed_store dev phys virt i s =
      let e = entry ObjectType.filesys i in
      set_filesys (set_record s e (record (s.common_table e) { name_entry = some dev })) i
        (record zero_filesys {
          device_name = dev;
          volume_name = dev;
          system_mountpt = phys;
          virtual_mountpt = virt;
          fstype = type_fs_based;
          flags = is_fixed;
        })

  -- The free places of the table of a type, with `count` places to look at.
  unfoldable pub count_free : ℕ → ℕ → ℕ → Os K → ℕ
  count_free zero idtype i s = 0
  count_free (suc count) idtype i s =
      let rest = count_free count idtype (i + 1) s in
      if not (is_defined (s.common_table (entry idtype i)).active_id) then rest + 1 else rest
