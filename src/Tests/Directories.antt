-- ===== src/Tests/Directories.antt =====
-- The directory "/ram/a" on a mounted volume.
use hello_world_osal.Base.{
  starts_with, drop, char_at, after_last_slash, ℕ, ◌≡◌, refl, true, some, Text, ◌++◌, os_success,
}
use hello_world_osal.Idmap.Id.{
  get_max_for_object_type, get_base_for_object_type, to_type, to_serial_number, to_array_index,
  compose,
}
use hello_world_osal.Idmap.Lock.{
  self_owner, initiate_lock, convert_lock, convert_loop, try_lock, try_mode, finish_convert,
  clear_bits, lock_global, unlock_global,
}
use hello_world_osal.Idmap.Lookup.{search, search_from, convert_found, get_by_search}
use hello_world_osal.Idmap.Alloc.{
  notify_event, notify_defined, find_free, is_taken, announce, claim, find_next, allocate_locked,
  unlock_failed, allocate_new, settle_new, finalize_new,
}
use hello_world_osal.Service.{build}
use hello_world_osal.FileSys.{find_virt_mount_point, local_index}
use hello_world_osal.FileSys.Paths.{translate_path, translate_found, local_path}
use hello_world_osal.FileSys.Find.{Translated}
use hello_world_osal.Directory.{dir_store, open_local, directory_open}
use hello_world_osal.Directory.Open.{Opened, directory_open-Opened}
use hello_world_osal.Tests.{idle}
use hello_world_osal.Tests.Lifecycle.{directories}
use hello_world_osal.Tests.Volumes.{volumes, ram, file_a, with_volume, with_volume-IsConsistent}

opens :
    (directory_open idle volumes 99 directories true (some (ram ++ file_a)) (with_volume 0x32)).0
    ≡ os_success
unfolding directory_open open_local translate_path translate_found local_path local_index
    after_last_slash char_at drop starts_with get_by_search initiate_lock search search_from
    find_virt_mount_point convert_found convert_lock convert_loop try_lock try_mode finish_convert
    clear_bits lock_global unlock_global get_max_for_object_type get_base_for_object_type to_type
    to_serial_number to_array_index self_owner build dir_store allocate_new allocate_locked is_taken
    find_next find_free claim announce unlock_failed notify_event finalize_new settle_new
    notify_defined compose
opens = refl

directory_open-Opened_example :
    let (code, out, s') =
      directory_open idle volumes 99 directories true (some (ram ++ file_a)) (with_volume 0x32) in
    (local : Text) × Translated (with_volume 0x32) (ram ++ file_a) local
    × ((id : ℕ) × (out ≡ some id) × Opened idle volumes 99 directories (ram ++ file_a) local id s')
directory_open-Opened_example =
    directory_open-Opened idle volumes 99 directories (ram ++ file_a) (with_volume 0x32)
      with_volume-IsConsistent opens
