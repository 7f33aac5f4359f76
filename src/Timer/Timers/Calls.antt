-- ===== src/Timer/Timers/Calls.antt =====
-- OS_TimerSet, OS_TimerDelete, OS_TimerGetIdByName and OS_TimerGetInfo (osapi-time.c).
use mathlib.Core.Option
use hello_world_osal.Base.{
  ℕ, ◌-◌, ℤ, Bool, true, false, ◌&&◌, ◌||◌, Option, none, some, Text, [], ◌==◌, leb, if◌then◌else◌,
  take, is_success, os_success, os_error, os_invalid_pointer, os_err_incorrect_obj_state,
  os_timer_err_invalid_args, uint32,
}
use hello_world_osal.Idmap.ObjectType
use hello_world_osal.Idmap.Id.{Result, ok, fail, entry, is_defined, undefined_id}
use hello_world_osal.Idmap.State.{Os, Port}
use hello_world_osal.Idmap.Lock.{global, exclusive, unlock_global}
use hello_world_osal.Idmap.Lookup.{max_api_name, get_by_id, refcount_decr}
use hello_world_osal.Idmap.Alloc.{finalize_delete}
use hello_world_osal.Service.{get_id_by_name}
use hello_world_osal.Timer.TimeBase.{TimeBaseImpl, in_callback, time_base_set, time_base_delete}
use hello_world_osal.Timer.Timers.{detach, set_times, dedicated_timebase}

-- OS_timer_prop_t
pub record TimerProp : Type 0 where
  pub name : Option Text
  pub creator : ℕ
  pub interval_time : ℕ
  pub accuracy : ℕ

module _ {K : Type 0} (p : Port K) (impl : TimeBaseImpl K) (garbage : ℕ) where
  -- The ID of a time base to set as well comes second.
  unfoldable pub set_timer : ℕ → ℕ → Result ℕ × Os K → ℤ × ℕ × Os K
  set_timer start interval (fail code, s) = (code, undefined_id, s)
  set_timer start interval (ok i, s) = (
    os_success,
    dedicated_timebase i s,
    unlock_global p ObjectType.timecb (set_times start interval i s),
  )

  unfoldable pub timer_set : ℕ → ℕ → ℕ → Os K → ℤ × Os K
  timer_set id start interval s =
      let (code, timebase, s1) =
        set_timer start interval (get_by_id p global ObjectType.timecb id s) in
      if leb 0x7FFF_FFFF start || leb 0x7FFF_FFFF interval
      then (os_timer_err_invalid_args, s)
      else if start == 0 && interval == 0
      then (os_error, s)
      else if in_callback p
      then (os_err_incorrect_obj_state, s)
      else if is_success code && is_defined timebase
      then time_base_set p impl timebase start interval s1
      else (code, s1)

  unfoldable pub delete_timer : ℕ → Result ℕ × Os K → ℤ × Os K
  delete_timer id (fail code, s) = (code, s)
  delete_timer id (ok i, s) =
      let b = (s.timecb_table i).timebase_ref in
      let timebase = dedicated_timebase i s in
      let (code, s1) = finalize_delete p os_success (entry ObjectType.timecb i) (detach id i s) in
      let s2 = (refcount_decr p (entry ObjectType.timebase b) s1).1 in
      if is_defined timebase then (code, (time_base_delete p impl timebase s2).1) else (code, s2)

  unfoldable pub timer_delete : ℕ → Os K → ℤ × Os K
  timer_delete id s =
      if in_callback p
      then (os_err_incorrect_obj_state, s)
      else delete_timer id (get_by_id p exclusive ObjectType.timecb id s)

  unfoldable pub timer_get_id_by_name : Bool → Option Text → Os K → ℤ × Option ℕ × Os K
  timer_get_id_by_name false name s = (os_invalid_pointer, none, s)
  timer_get_id_by_name true none s = (os_invalid_pointer, none, s)
  timer_get_id_by_name true (some name) s =
      if in_callback p
      then (os_err_incorrect_obj_state, none, s)
      else get_id_by_name p ObjectType.timecb true (some name) s

  unfoldable pub timer_describe : Result ℕ × Os K → ℤ × TimerProp × Os K
  timer_describe (fail code, s) =
      (code, record { name = some []; creator = 0; interval_time = 0; accuracy = 0 }, s)
  timer_describe (ok i, s) =
      let r = s.common_table (entry ObjectType.timecb i) in
      let cb = s.timecb_table i in
      (
        os_success,
        record {
          name = Option.map (take (max_api_name - 1)) r.name_entry;
          creator = r.creator;
          interval_time = uint32 cb.interval_time;
          accuracy = (s.timebase_table cb.timebase_ref).accuracy_usec;
        },
        unlock_global p ObjectType.timecb s,
      )

  unfoldable pub timer_get_info : Bool → ℕ → Os K → ℤ × Option TimerProp × Os K
  timer_get_info false id s = (os_invalid_pointer, none, s)
  timer_get_info true id s =
      if in_callback p
      then (os_err_incorrect_obj_state, none, s)
      else (let (code, prop, s') = timer_describe (get_by_id p global ObjectType.timecb id s) in
          (code, some prop, s'))
