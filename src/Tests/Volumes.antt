-- ===== src/Tests/Volumes.antt =====
-- File systems on concrete states: volume 1, "RAM0", stands for the directory "/tmp".
use hello_world_osal.Base.{
  ℕ, ◌<◌, ◌≡◌, ◌≢◌, ◌⊎◌, inl, inr, refl, sym, ap, arith, true, false, some, Text, [], ◌∷◌, ◌++◌,
  ◌==◌, if◌then◌else◌, update_ne, length, after_last_slash, char_at, drop, starts_with, os_success,
}
use hello_world_osal.Idmap.ObjectType
use hello_world_osal.Idmap.Id.{
  get_max_for_object_type, get_base_for_object_type, entry, to_type, to_serial_number,
  to_array_index,
}
use hello_world_osal.Idmap.Tables.{FilesysRecord, zero_filesys}
use hello_world_osal.Idmap.State.{CommonRecord, Os, set_record, zero_record}
use hello_world_osal.Idmap.Invariant.{IsConsistent, Fits, replace-IsConsistent}
use hello_world_osal.Idmap.Lock.{
  try_mode, try_lock, convert_loop, clear_bits, finish_convert, convert_lock, lock_global,
  unlock_global, initiate_lock,
}
use hello_world_osal.Idmap.Lookup.{search_from, search, convert_found, get_by_search}
use hello_world_osal.FileSys.{
  FileSysImpl, max_local_path_len, clear_flags, local_index, find_virt_mount_point,
}
use hello_world_osal.FileSys.Calls.{mount_volume, unmount_volume}
use hello_world_osal.FileSys.Paths.{local_path, translate_path, translate_found}
use hello_world_osal.FileSys.Find.{Translated, translate_path-Translated}
use hello_world_osal.FileSys.Stages.{
  KeepsFlags, flags_of, ready, mounted, mount_volume-Stage, unmount_volume-Stage,
}
use hello_world_osal.FileSys.Mounted.{mount_volume-translate_path}
use hello_world_osal.Tests.{idle, blank}

-- "/ram", "/tmp" and "/a"
abbrev pub ram : Text
ram = 47 ∷ 114 ∷ 97 ∷ 109 ∷ []

abbrev tmp : Text
tmp = 47 ∷ 116 ∷ 109 ∷ 112 ∷ []

abbrev pub file_a : Text
file_a = 47 ∷ 97 ∷ []

-- A layer below that always agrees.
abbrev pub volumes : FileSysImpl ℕ
volumes = record {
  start_impl = λ i s. (os_success, s.filesys_table i, s.kernel);
  stop_impl = λ i s. (os_success, s.filesys_table i, s.kernel);
  format_impl = λ i s. (os_success, s.filesys_table i, s.kernel);
  mount_impl = λ i s. (os_success, s.filesys_table i, s.kernel);
  unmount_impl = λ i s. (os_success, s.filesys_table i, s.kernel);
  check_impl = λ i repair s. (os_success, s);
  stat_impl = λ i k. (os_success, 512, 100);
}

volumes-KeepsFlags : KeepsFlags volumes
volumes-KeepsFlags = record {
  start = λ i s. refl;
  stop = λ i s. refl;
  format = λ i s. refl;
  mount = λ i s. refl;
  unmount = λ i s. refl;
}

abbrev volume : ℕ → FilesysRecord
volume flags = record zero_filesys { system_mountpt = tmp; virtual_mountpt = ram; flags = flags }

abbrev pub with_volume : ℕ → Os ℕ
with_volume flags =
    record (set_record blank (entry ObjectType.filesys 1)
      (record zero_record { active_id = 0xB_0001 })) {
        filesys_table = λ i. if i == 1 then volume flags else zero_filesys;
      }

volume_place : 1 < get_max_for_object_type ObjectType.filesys
unfolding get_max_for_object_type
volume_place = omega arith

volume-Fits : Fits ObjectType.filesys 1 0xB_0001
unfolding get_max_for_object_type
volume-Fits = record { kind = refl; serial = omega arith; place = refl }

pub with_volume-IsConsistent : IsConsistent (with_volume 0x32)
unfolding get_base_for_object_type
with_volume-IsConsistent =
    replace-IsConsistent ObjectType.filesys 1 blank (with_volume 0x32) volume_place
      (record { slots = λ t i h. inl refl })
      (λ e ne.
        ap (λ (r : CommonRecord). r.active_id)
          (update_ne blank.common_table 278 e (record zero_record { active_id = 0xB_0001 })
            (λ q. ne (sym q))))
      (inr volume-Fits)

translates :
    (translate_path idle volumes 99 true (some (ram ++ file_a)) (with_volume 0x32)).0 ≡ os_success
unfolding translate_path translate_found local_path local_index after_last_slash char_at drop
    starts_with get_by_search initiate_lock search search_from find_virt_mount_point convert_found
    convert_lock convert_loop try_lock try_mode finish_convert clear_bits lock_global unlock_global
    get_max_for_object_type get_base_for_object_type to_type to_serial_number to_array_index
translates = refl

translate_path-Translated_example :
    (out : Text) × ((translate_path idle volumes 99 true
        (some (ram ++ file_a))
        (with_volume 0x32)).1
      ≡ some out)
    × Translated (with_volume 0x32) (ram ++ file_a) out
translate_path-Translated_example =
    translate_path-Translated idle volumes 99 (ram ++ file_a) (with_volume 0x32)
      with_volume-IsConsistent translates

mount_volume-Stage_example :
    let (code, s') = mount_volume idle volumes 99 file_a 1 (with_volume 2) in
    ((code ≡ os_success)
      × (ready ≡ ready)
      × ((s'.filesys_table 1).flags ≡ flags_of false mounted)
      × ((s'.filesys_table 1).virtual_mountpt ≡ file_a))
    ⊎ ((code ≢ os_success) × ((s'.filesys_table 1).flags ≡ flags_of false ready))
mount_volume-Stage_example =
    mount_volume-Stage volumes idle 99 volumes-KeepsFlags false ready file_a 1 (with_volume 2) refl

unmount_volume-Stage_example :
    let (code, s') = unmount_volume idle volumes 99 1 (with_volume 0x32) in
    ((code ≡ os_success)
      × (mounted ≡ mounted)
      × ((s'.filesys_table 1).flags ≡ flags_of false ready))
    ⊎ ((code ≢ os_success) × ((s'.filesys_table 1).flags ≡ flags_of false mounted))
unmount_volume-Stage_example =
    unmount_volume-Stage volumes idle 99 volumes-KeepsFlags false mounted 1 (with_volume 0x32) refl

mounts : (mount_volume idle volumes 99 ram 1 (with_volume 2)).0 ≡ os_success
unfolding mount_volume clear_flags char_at
mounts = refl

room :
    length (
      ((mount_volume idle volumes 99 ram 1 (with_volume 2)).1.filesys_table 1).system_mountpt
      ++ file_a)
    < max_local_path_len
unfolding mount_volume clear_flags char_at
room = omega arith

ready-IsConsistent : IsConsistent (with_volume 2)
unfolding get_base_for_object_type
ready-IsConsistent = record { slots = with_volume-IsConsistent.slots }

alone :
    (j : ℕ)
    → j < get_max_for_object_type ObjectType.filesys
    → j ≢ 1
    → ((with_volume 2).common_table (entry ObjectType.filesys j)).active_id ≢ 0
    → find_virt_mount_point (with_volume 2).filesys_table (ram ++ file_a) j zero_record ≡ false
unfolding find_virt_mount_point
alone j h ne taken = ground (arith, ne)

mount_volume-translate_path_example :
    let s' = (mount_volume idle volumes 99 ram 1 (with_volume 2)).1 in
    let (code, out, _) = translate_path idle volumes 99 true (some (ram ++ file_a)) s' in
    (code ≡ os_success) × (out ≡ some ((s'.filesys_table 1).system_mountpt ++ file_a))
unfolding after_last_slash char_at get_base_for_object_type
mount_volume-translate_path_example =
    mount_volume-translate_path volumes idle 99 volumes-KeepsFlags false ram file_a (97 ∷ []) 1
      (with_volume 2) ready-IsConsistent volume_place (λ z. ground (arith, z)) refl mounts alone
      refl (inl refl) (omega arith) refl (omega arith) room
