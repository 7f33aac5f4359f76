-- ===== src/Tests/Timers.antt =====
-- Timers on concrete states: the timers 1 and 2 hang on time base 0, timer 3 is not started.
use Prim.{tt}
use hello_world_osal.Base.{
  ℕ, ◌+◌, ◌*◌, ◌<◌, ◌≤◌, ◌≡◌, ◌⊎◌, refl, arith, pos, true, [], ◌∷◌, ◌==◌, leb, if◌then◌else◌,
  os_success, os_error,
}
use hello_world_osal.Idmap.ObjectType
use hello_world_osal.Idmap.Id.{
  ok, to_array_index, to_type, to_serial_number, get_max_for_object_type, get_base_for_object_type,
  compose,
}
use hello_world_osal.Idmap.Tables.{arg_callback, TimecbRecord, zero_timecb, zero_timebase}
use hello_world_osal.Idmap.State.{Os, zero_record}
use hello_world_osal.Idmap.Invariant.{Fits}
use hello_world_osal.Idmap.Lock.{
  initiate_lock, convert_lock, convert_loop, try_lock, try_mode, try_exclusive, finish_convert,
  clear_bits, lock_global, unlock_global, self_owner,
}
use hello_world_osal.Idmap.Lookup.{get_by_id, convert_found, drop_reference, refcount_decr}
use hello_world_osal.Idmap.Alloc.{notify_event, notify_defined, finalize_delete}
use hello_world_osal.Timer.Timers.{detach, dedicated_timebase, unlink, set_next, set_prev}
use hello_world_osal.Timer.Timers.Ring.{IsRing}
use hello_world_osal.Timer.TimeBase.{TimeBaseImpl, milli2ticks, in_callback, time_base_delete}
use hello_world_osal.Timer.Tick.{expire, tick_timer, process_tick}
use hello_world_osal.Timer.Tick.Expire.{armed, on_tick, tick_timer-on_tick}
use hello_world_osal.Timer.Tick.OneShot.{tick_times, tick_times-single}
use hello_world_osal.Timer.Tick.Fuel.{expire_fuel}
use hello_world_osal.Timer.Tick.Walk.{ticked, calls_of, ids_of}
use hello_world_osal.Timer.Rings.{Hangs, free_running, process_tick-Hangs}
use hello_world_osal.Timer.Timers.Calls.{timer_delete, delete_timer}
use hello_world_osal.Timer.Objects.{KeepsTimers, SameTimers-refl}
use hello_world_osal.Timer.Deleted.{timer_delete-other, process_tick-timer_delete}
use hello_world_osal.Timer.Calls.{milli2ticks_lem}
use hello_world_osal.Tests.{idle, blank, agree}

-- Due after 10 units, then every 10 units, and due once.
abbrev periodic : TimecbRecord
periodic = armed zero_timecb (arg_callback 7) (pos 10) 10

tick_timer-on_tick_example :
    tick_timer 25 0x9_0001 periodic ≡ on_tick 0x9_0001 (arg_callback 7) 25 10 10 zero_timecb
tick_timer-on_tick_example =
    tick_timer-on_tick 0x9_0001 (arg_callback 7) 25 10 10 zero_timecb (omega arith) (omega arith)
      (omega arith) (omega arith)

tick_times-single_example :
    (tick_times (4 ∷ 8 ∷ 9 ∷ []) 0x9_0001 (armed zero_timecb (arg_callback 7) (pos 10) 0)).1
    ≡ (if leb 10 21 then (arg_callback 7, 0x9_0001, 0) ∷ [] else [])
tick_times-single_example =
    tick_times-single 0x9_0001 (arg_callback 7) (4 ∷ 8 ∷ 9 ∷ []) 10 zero_timecb (omega arith)
      (omega arith) (omega arith, (omega arith, (omega arith, tt)))

expire_fuel_example : expire 5 true 0x9_0001 periodic ≡ expire 3 true 0x9_0001 periodic
expire_fuel_example = expire_fuel true 0x9_0001 2 periodic

abbrev linked : ℕ → TimecbRecord
linked i =
    if i == 1
    then record periodic { next_ref = 2; prev_ref = 2 }
    else if i == 2
    then record periodic { next_ref = 1; prev_ref = 1 }
    else zero_timecb

abbrev pub ringing : Os ℕ
ringing = record blank {
  common_table = λ e.
      if e == 248
      then record zero_record { active_id = 0x9_0001 }
      else if e == 249
      then record zero_record { active_id = 0x9_0002 }
      else if e == 250
      then record zero_record { active_id = 0x9_0003 }
      else zero_record;
  timebase_table = λ b. record zero_timebase { first_cb = 0x9_0001 };
  timecb_table = linked;
}

ringing-Fits : (i : ℕ) → i < 10 → Fits ObjectType.timecb i (0x9_0000 + i)
unfolding get_max_for_object_type
ringing-Fits i h = record {
  kind = omega (arith, h);
  serial = omega (arith, h);
  place = omega (arith, h);
}

pub ringing-Hangs : Hangs ringing 0 (1 ∷ 2 ∷ [])
ringing-Hangs = (
  (omega arith, (omega arith, tt)),
  ringing-Fits 1 (omega arith),
  ((((λ e. omega (arith, e)), tt), (tt, tt)), (refl, refl, (refl, refl))),
)

process_tick-Hangs_example : process_tick 25 0 ringing ≡ (
  record (free_running 25 0 ringing) {
    timecb_table = ticked 25 (ids_of ringing) linked (1 ∷ 2 ∷ []);
  },
  calls_of 25 (ids_of ringing) linked (1 ∷ 2 ∷ []),
)
process_tick-Hangs_example = process_tick-Hangs 25 0 ringing (1 ∷ 2 ∷ []) ringing-Hangs

abbrev pub time_bases : TimeBaseImpl ℕ
time_bases = record {
  create_impl = agree;
  set_impl = λ i start interval s. agree i s;
  delete_impl = agree;
  get_info_impl = λ i k prop. (os_success, prop);
}

idle-KeepsTimers : KeepsTimers idle
idle-KeepsTimers n s = SameTimers-refl s

second_place : to_array_index ObjectType.timecb 0x9_0002 ≡ ok 2
unfolding to_array_index to_type to_serial_number get_max_for_object_type
second_place = refl

deleted_first : (timer_delete idle time_bases 99 0x9_0001 ringing).0 ≡ os_success
unfolding timer_delete delete_timer in_callback detach dedicated_timebase unlink set_next set_prev
    get_by_id initiate_lock convert_found convert_lock convert_loop try_lock try_mode try_exclusive
    finish_convert clear_bits lock_global unlock_global self_owner get_max_for_object_type
    get_base_for_object_type to_type to_serial_number to_array_index compose finalize_delete
    notify_defined notify_event refcount_decr drop_reference time_base_delete
deleted_first = refl

deleted_second : (timer_delete idle time_bases 99 0x9_0002 ringing).0 ≡ os_success
unfolding timer_delete delete_timer in_callback detach dedicated_timebase unlink set_next set_prev
    get_by_id initiate_lock convert_found convert_lock convert_loop try_lock try_mode try_exclusive
    finish_convert clear_bits lock_global unlock_global self_owner get_max_for_object_type
    get_base_for_object_type to_type to_serial_number to_array_index compose finalize_delete
    notify_defined notify_event refcount_decr drop_reference time_base_delete
deleted_second = refl

timer_delete-other_example : Hangs (timer_delete idle time_bases 99 0x9_0002 ringing).1 0 (1 ∷ [])
timer_delete-other_example =
    timer_delete-other idle idle-KeepsTimers time_bases 99 0x9_0002 2 1 ringing [] [] second_place
      ringing-Hangs (λ e. omega (arith, e)) deleted_second

process_tick-timer_delete_example :
    let s' = (timer_delete idle time_bases 99 0x9_0001 ringing).1 in
    IsRing s'.timecb_table 2 [] × (process_tick 25 0 s' ≡ (free_running 25 0 s', []))
process_tick-timer_delete_example =
    process_tick-timer_delete idle idle-KeepsTimers time_bases 99 25 1 2 ringing [] ringing-Hangs
      deleted_first

milli2ticks_lem_example :
    let (code, ticks) = milli2ticks 1234 blank in
    ((code ≡ os_success)
      × (123400 ≤ 1000 * ticks)
      × (1000 * ticks < 123400 + 1000)
      × (ticks < 2147483648))
    ⊎ ((code ≡ os_error) × (ticks ≡ 0) × (2147483647000 < 123400))
milli2ticks_lem_example = milli2ticks_lem 1234 blank (omega arith) (omega arith)
