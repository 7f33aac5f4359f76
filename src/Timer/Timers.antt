-- ===== src/Timer/Timers.antt =====
-- Timers: osal/src/os/shared/src/osapi-time.c.
pub mod Calls
pub mod Links
pub mod Ring
pub mod Count
use mathlib.Core.Option
use hello_world_osal.Base.{
  ℕ, ◌-◌, ℤ, pos, Bool, true, false, not, ◌&&◌, ◌||◌, Option, none, some, Text, [], ◌==◌, leb,
  bit_and, if◌then◌else◌, length, take, update, is_success, os_success, os_error,
  os_invalid_pointer, os_err_name_too_long, os_err_incorrect_obj_state, os_timer_err_invalid_args,
  uint32,
}
use hello_world_osal.Idmap.ObjectType
use hello_world_osal.Idmap.Id.{
  Result, ok, fail, entry, is_defined, undefined_id, compose, to_array_index,
}
use hello_world_osal.Idmap.Tables.{
  Callback, no_arg_callback, TimecbRecord, zero_timecb, zero_timebase,
}
use hello_world_osal.Idmap.State.{Os, Port, set_record}
use hello_world_osal.Idmap.Lock.{global, exclusive, refcounted, unlock_global}
use hello_world_osal.Idmap.Lookup.{max_api_name, get_by_id, refcount_decr}
use hello_world_osal.Idmap.Alloc.{allocate_new, finalize_delete}
use hello_world_osal.Service.{build, get_id_by_name, call_found}
use hello_world_osal.Timer.TimeBase.{
  TimeBaseImpl, in_callback, time_base_create, time_base_set, time_base_delete,
}

-- TIMECB_FLAG_DEDICATED_TIMEBASE
abbrev pub dedicated_timebase_flag : ℕ
dedicated_timebase_flag = 1

-- The links of the rings.
unfoldable pub set_next : (ℕ → TimecbRecord) → ℕ → ℕ → ℕ → TimecbRecord
set_next table i n = update table i (record (table i) { next_ref = n })

unfoldable pub set_prev : (ℕ → TimecbRecord) → ℕ → ℕ → ℕ → TimecbRecord
set_prev table i n = update table i (record (table i) { prev_ref = n })

-- A timer that is alone joins the ring of `attach_id`, before that timer.
unfoldable pub link : ℕ → ℕ → (ℕ → TimecbRecord) → ℕ → TimecbRecord
link local_id attach_id table0 =
    let table1 = set_next table0 local_id attach_id in
    let table2 = set_prev table1 local_id (table1 attach_id).prev_ref in
    let table3 = set_next table2 (table2 local_id).prev_ref local_id in
    set_prev table3 (table3 local_id).next_ref local_id

-- A timer leaves its ring.
unfoldable pub unlink : ℕ → (ℕ → TimecbRecord) → ℕ → TimecbRecord
unlink local_id table0 =
    let table1 = set_next table0 (table0 local_id).prev_ref (table0 local_id).next_ref in
    let table2 = set_prev table1 (table1 local_id).next_ref (table1 local_id).prev_ref in
    set_prev (set_next table2 local_id local_id) local_id local_id

module _ {K : Type 0} where
  unfoldable pub timer_cb_api_init : Os K → Os K
  timer_cb_api_init s = record s { timecb_table = λ i. zero_timecb }

  abbrev pub set_first_cb : ℕ → ℕ → Os K → Os K
  set_first_cb b id s = record s {
    timebase_table = update s.timebase_table b (record (s.timebase_table b) { first_cb = id });
  }

  -- The new timer `i` becomes the first of time base `b`. An ID of another type in `first_cb` leaves
  -- the local variable `attach_id` as it is on the stack, which is `garbage`.
  unfoldable pub attach : ℕ → ℕ → ℕ → Os K → Os K
  attach garbage b i s =
      let cb_list = (s.timebase_table b).first_cb in
      let s1 = set_first_cb b (s.common_table (entry ObjectType.timecb i)).active_id s in
      let attach_id : ℕ = elim (to_array_index ObjectType.timecb cb_list) [
        | ok j ↦ j
        | fail code ↦ garbage
      ] in
      if is_defined cb_list
      then record s1 { timecb_table = link i attach_id s1.timecb_table }
      else s1

  -- The record of the new timer `i`, which is alone in its ring.
  unfoldable pub timecb_store : ℕ → Option Callback → ℕ → ℕ → Text → ℕ → Os K → Os K
  timecb_store b callback arg flags name i s =
      let e = entry ObjectType.timecb i in
      record (set_record s e (record (s.common_table e) { name_entry = some name })) {
        timecb_table = update s.timecb_table i (record zero_timecb {
          timer_name = name;
          callback_ptr = callback;
          callback_arg = arg;
          timebase_ref = b;
          flags = flags;
          prev_ref = i;
          next_ref = i;
        });
      }

  -- The timer leaves the ring of its time base. If it was the first of others, `first_cb` becomes
  -- an ID of the type OS_OBJECT_TYPE_OS_TIMEBASE.
  unfoldable pub detach : ℕ → ℕ → Os K → Os K
  detach id i s =
      let r = s.timecb_table i in
      let b = r.timebase_ref in
      let first =
        if (s.timebase_table b).first_cb == id
        then (if not (r.next_ref == i)
            then compose ObjectType.timebase r.next_ref
            else undefined_id)
        else (s.timebase_table b).first_cb in
      let s1 = set_first_cb b first s in record s1 { timecb_table = unlink i s1.timecb_table }

  unfoldable pub set_times : ℕ → ℕ → ℕ → Os K → Os K
  set_times start interval i s = record s {
    timecb_table =
        update s.timecb_table i
          (record (s.timecb_table i) { wait_time = pos start; interval_time = pos interval });
  }

  -- The ID of the time base that a timer has for itself, or no ID.
  unfoldable pub dedicated_timebase : ℕ → Os K → ℕ
  dedicated_timebase i s =
      let r = s.timecb_table i in
      if not (bit_and r.flags dedicated_timebase_flag == 0)
      then (s.common_table (entry ObjectType.timebase r.timebase_ref)).active_id
      else undefined_id

module _ {K : Type 0} (p : Port K) (impl : TimeBaseImpl K) (garbage : ℕ) where
  -- The new timer is allocated on time base `b`, whose reference is given back if no timer is.
  unfoldable pub add_allocated :
      ℕ → Option Callback → ℕ → ℕ → Text → Result ℕ × Os K → ℤ × Option ℕ × Os K
  add_allocated b callback arg flags name (fail code, s) =
      (code, none, (refcount_decr p (entry ObjectType.timebase b) s).1)
  add_allocated b callback arg flags name (ok i, s) =
      build p ObjectType.timecb
        (λ j s'. attach garbage b j (timecb_store b callback arg flags name j s'))
        (λ j s'. (os_success, s'.kernel)) (ok i, s)

  unfoldable pub add_found : Option Callback → ℕ → ℕ → Text → Result ℕ × Os K → ℤ × Option ℕ × Os K
  add_found callback arg flags name (fail code, s) = (code, none, s)
  add_found callback arg flags name (ok b, s) =
      add_allocated b callback arg flags name (allocate_new p ObjectType.timecb (some name) s)

  unfoldable pub do_timer_add :
      Bool → Option Text → ℕ → Option Callback → ℕ → ℕ → Os K → ℤ × Option ℕ × Os K
  do_timer_add false name timebase callback arg flags s = (os_invalid_pointer, none, s)
  do_timer_add true none timebase callback arg flags s = (os_invalid_pointer, none, s)
  do_timer_add true (some name) timebase none arg flags s =
      if leb max_api_name (length name)
      then (os_err_name_too_long, none, s)
      else (os_timer_err_invalid_args, none, s)
  do_timer_add true (some name) timebase (some f) arg flags s =
      if leb max_api_name (length name)
      then (os_err_name_too_long, none, s)
      else if in_callback p
      then (os_err_incorrect_obj_state, none, s)
      else add_found (some f) arg flags name (get_by_id p refcounted ObjectType.timebase timebase s)

  unfoldable pub timer_add :
      Bool → Option Text → ℕ → Option Callback → ℕ → Os K → ℤ × Option ℕ × Os K
  timer_add out name timebase callback arg s = do_timer_add out name timebase callback arg 0 s

  -- The timer on the new time base, which goes away again on failure. The accuracy comes third.
  unfoldable pub create_on : Text → ℕ → ℤ × Option ℕ × Os K → ℤ × Option ℕ × Option ℕ × Os K
  create_on name f (code, none, s) = (code, none, none, s)
  create_on name f (code, some timebase, s) =
      let (code', out, s1) =
        do_timer_add true (some name) timebase (some no_arg_callback) f dedicated_timebase_flag s in
      if not (is_success code)
      then (code, none, none, s)
      else if not (is_success code')
      then (code', out, none, (time_base_delete p impl timebase s1).1)
      else (code', out, some s1.micro_sec_per_tick, s1)

  -- The pointers for the ID and the accuracy, NULL or not, come first.
  unfoldable pub timer_create :
      Bool → Bool → Option Text → Option ℕ → Os K → ℤ × Option ℕ × Option ℕ × Os K
  timer_create false accuracy name callback s = (os_invalid_pointer, none, none, s)
  timer_create true false name callback s = (os_invalid_pointer, none, none, s)
  timer_create true true none callback s = (os_invalid_pointer, none, none, s)
  timer_create true true (some name) none s = (os_timer_err_invalid_args, none, none, s)
  timer_create true true (some name) (some f) s =
      create_on name f (time_base_create p impl true (some name) none s)
