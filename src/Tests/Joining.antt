-- ===== src/Tests/Joining.antt =====
-- A new timer on a time base that has two.
use Prim.{tt}
use hello_world_osal.Base.{
  true, ℕ, ◌<◌, ◌≡◌, refl, arith, false, some, [], ◌∷◌, ◌==◌, length, if◌then◌else◌, os_success,
}
use hello_world_osal.Idmap.ObjectType
use hello_world_osal.Idmap.Id.{
  compose, to_serial_number, to_type, get_base_for_object_type, get_max_for_object_type,
  to_array_index, ok,
}
use hello_world_osal.Idmap.Tables.{arg_callback}
use hello_world_osal.Idmap.State.{Os, zero_record}
use hello_world_osal.Idmap.Lock.{
  self_owner, unlock_global, lock_global, initiate_lock, clear_bits, finish_convert, try_refcount,
  try_mode, try_lock, convert_loop, convert_lock, refcounted,
}
use hello_world_osal.Idmap.Lookup.{
  object_name_match, search, search_from, convert_found, max_api_name, get_by_id,
}
use hello_world_osal.Idmap.Alloc.{
  notify_event, notify_defined, find_free, is_taken, announce, claim, find_next, allocate_locked,
  unlock_failed, allocate_new, settle_new, finalize_new,
}
use hello_world_osal.Service.{build}
use hello_world_osal.Timer.TimeBase.{in_callback}
use hello_world_osal.Timer.Timers.{attach, timecb_store, add_allocated, add_found, do_timer_add}
use hello_world_osal.Timer.Rings.{Hangs}
use hello_world_osal.Timer.Adding.Joined.{AreInUse, Joined, do_timer_add-Joined}
use hello_world_osal.Tests.{idle, sem_name}
use hello_world_osal.Tests.Timers.{ringing, ringing-Hangs, time_bases}

-- The time base 0 has an ID.
abbrev based : Os ℕ
based = record ringing {
  common_table =
      λ e. if e == 242 then record zero_record { active_id = 0x8_0000 } else ringing.common_table e;
}

-- The state after the lookup of the time base.
abbrev referenced : Os ℕ
referenced = (get_by_id idle refcounted ObjectType.timebase 0x8_0000 based).1

based-found : get_by_id idle refcounted ObjectType.timebase 0x8_0000 based ≡ (ok 0, referenced)
unfolding get_by_id convert_found convert_lock convert_loop try_lock try_mode try_refcount
    finish_convert clear_bits initiate_lock lock_global unlock_global to_array_index
    get_max_for_object_type get_base_for_object_type to_type to_serial_number self_owner
based-found = refl

referenced-Hangs : Hangs referenced 0 (1 ∷ 2 ∷ [])
unfolding get_by_id convert_found convert_lock convert_loop try_lock try_mode try_refcount
    finish_convert clear_bits initiate_lock lock_global unlock_global to_array_index
    get_max_for_object_type get_base_for_object_type to_type to_serial_number self_owner
referenced-Hangs = ringing-Hangs

referenced-AreInUse : AreInUse referenced (1 ∷ 2 ∷ [])
unfolding get_by_id convert_found convert_lock convert_loop try_lock try_mode try_refcount
    finish_convert clear_bits initiate_lock lock_global unlock_global to_array_index
    get_max_for_object_type get_base_for_object_type to_type to_serial_number self_owner
referenced-AreInUse = ((λ e. omega (arith, e)), ((λ e. omega (arith, e)), tt))

new_timer-ok :
    (do_timer_add idle time_bases 99 true
      (some sem_name)
      0x8_0000
      (some (arg_callback 8))
      5
      0
      based).0
    ≡ os_success
unfolding get_by_id convert_found convert_lock convert_loop try_lock try_mode try_refcount
    finish_convert clear_bits initiate_lock lock_global unlock_global to_array_index
    get_max_for_object_type get_base_for_object_type to_type to_serial_number self_owner
    do_timer_add add_found add_allocated in_callback build allocate_new allocate_locked is_taken
    search search_from find_next find_free claim announce unlock_failed notify_event finalize_new
    settle_new notify_defined compose attach timecb_store object_name_match
new_timer-ok = refl

do_timer_add-Joined_example :
    let r =
      do_timer_add idle time_bases 99 true
        (some sem_name)
        0x8_0000
        (some (arg_callback 8))
        5
        0
        based in
    (length sem_name < max_api_name) × (in_callback idle ≡ false) × Joined 0 (1 ∷ 2 ∷ []) r
do_timer_add-Joined_example =
    do_timer_add-Joined idle time_bases 99 0x8_0000 (arg_callback 8) 5 0 sem_name based referenced 0
      (1 ∷ 2 ∷ []) based-found referenced-Hangs referenced-AreInUse new_timer-ok
