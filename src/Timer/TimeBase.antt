-- ===== src/Timer/TimeBase.antt =====
-- Time bases: osal/src/os/shared/src/osapi-timebase.c, but for the thread that serves the ticks.
use mathlib.Core.Option
use hello_world_osal.Base.{
  ℕ, ◌+◌, ◌-◌, ◌*◌, ◌/◌, ◌%◌, ◌^◌, ℤ, Bool, true, false, ◌||◌, Option, none, some, Text, [], ◌==◌,
  leb, if◌then◌else◌, length, take, update, is_success, os_success, os_error, os_invalid_pointer,
  os_err_name_too_long, os_err_incorrect_obj_state, os_timer_err_invalid_args,
}
use hello_world_osal.Idmap.ObjectType
use hello_world_osal.Idmap.Id.{Result, ok, fail, to_type, entry}
use hello_world_osal.Idmap.Tables.{zero_timebase}
use hello_world_osal.Idmap.State.{Os, Port, set_record}
use hello_world_osal.Idmap.Lock.{unlocked, global, unlock_global}
use hello_world_osal.Idmap.Lookup.{max_api_name, get_by_id}
use hello_world_osal.Service.{create, delete, get_id_by_name, call_found, run_locked}

-- OS_timebase_prop_t
pub record TimebaseProp : Type 0 where
  pub name : Option Text
  pub creator : ℕ
  pub nominal_interval_time : ℕ
  pub freerun_time : ℕ
  pub accuracy : ℕ

abbrev pub zero_timebase_prop : TimebaseProp
zero_timebase_prop = record {
  name = some [];
  creator = 0;
  nominal_interval_time = 0;
  freerun_time = 0;
  accuracy = 0;
}

-- The OS_TimeBase*_Impl functions, but for the time base's own lock.
pub record TimeBaseImpl (K : Type 0) : Type 0 where
  pub create_impl : ℕ → Os K → ℤ × K
  pub set_impl : ℕ → ℕ → ℕ → Os K → ℤ × K
  pub delete_impl : ℕ → Os K → ℤ × K
  pub get_info_impl : ℕ → K → TimebaseProp → ℤ × TimebaseProp

-- The limit on both times of OS_TimeBaseSet.
abbrev pub time_limit : ℕ
time_limit = 1_000_000_000

module _ {K : Type 0} where
  unfoldable pub time_base_api_init : Os K → Os K
  time_base_api_init s = record s { timebase_table = λ i. zero_timebase }

  unfoldable pub timebase_store : Option ℕ → Text → ℕ → Os K → Os K
  timebase_store sync name i s =
      let e = entry ObjectType.timebase i in
      let accuracy : ℕ = elim sync [ none ↦ s.micro_sec_per_tick | some f ↦ 0 ] in
      record (set_record s e (record (s.common_table e) { name_entry = some name })) {
        timebase_table = update s.timebase_table i (record zero_timebase {
          timebase_name = name;
          external_sync = sync;
          accuracy_usec = accuracy;
        });
      }

  -- The times are kept if the layer below took them.
  unfoldable pub keep_times : ℕ → ℕ → ℕ → ℤ → Os K → Os K
  keep_times start interval i status s =
      if is_success status
      then record s {
        timebase_table = update s.timebase_table i (record (s.timebase_table i) {
          nominal_start_time = start;
          nominal_interval_time = interval;
        });
      }
      else s

  -- The result of the conversion; no value is OS_ERROR with 0.
  unfoldable pub milli2ticks : ℕ → Os K → ℤ × ℕ
  milli2ticks milli_seconds s =
      let num_of_ticks = (milli_seconds * s.ticks_per_second + 999) % 2 ^ 64 / 1000 in
      if leb num_of_ticks 0x7FFF_FFFF then (os_success, num_of_ticks) else (os_error, 0)

module _ {K : Type 0} (p : Port K) where
  -- No call of this API may come from a timer callback.
  unfoldable pub in_callback : Bool
  in_callback = to_type p.task_id == ObjectType.timebase

module _ {K : Type 0} (p : Port K) (impl : TimeBaseImpl K) where
  unfoldable pub time_base_create : Bool → Option Text → Option ℕ → Os K → ℤ × Option ℕ × Os K
  time_base_create false name sync s = (os_invalid_pointer, none, s)
  time_base_create true none sync s = (os_invalid_pointer, none, s)
  time_base_create true (some name) sync s =
      if leb max_api_name (length name)
      then (os_err_name_too_long, none, s)
      else if in_callback p
      then (os_err_incorrect_obj_state, none, s)
      else create p ObjectType.timebase (timebase_store sync name) impl.create_impl name s

  unfoldable pub set_found : ℕ → ℕ → ℕ → Os K → ℤ × Os K
  set_found start interval i s =
      let (status, s1) = run_locked (impl.set_impl i start interval s) s in
      (status, unlock_global p ObjectType.timebase (keep_times start interval i status s1))

  unfoldable pub time_base_set : ℕ → ℕ → ℕ → Os K → ℤ × Os K
  time_base_set id start interval s =
      if leb time_limit interval || leb time_limit start
      then (os_timer_err_invalid_args, s)
      else if in_callback p
      then (os_err_incorrect_obj_state, s)
      else call_found p ObjectType.timebase (set_found start interval)
          (get_by_id p global ObjectType.timebase id s)

  unfoldable pub time_base_delete : ℕ → Os K → ℤ × Os K
  time_base_delete id s =
      if in_callback p
      then (os_err_incorrect_obj_state, s)
      else delete p ObjectType.timebase impl.delete_impl id s

  unfoldable pub time_base_get_id_by_name : Bool → Option Text → Os K → ℤ × Option ℕ × Os K
  time_base_get_id_by_name false name s = (os_invalid_pointer, none, s)
  time_base_get_id_by_name true none s = (os_invalid_pointer, none, s)
  time_base_get_id_by_name true (some name) s =
      if in_callback p
      then (os_err_incorrect_obj_state, none, s)
      else get_id_by_name p ObjectType.timebase true (some name) s

  unfoldable pub time_base_describe : Result ℕ × Os K → ℤ × TimebaseProp × Os K
  time_base_describe (fail code, s) = (code, zero_timebase_prop, s)
  time_base_describe (ok i, s) =
      let r = s.common_table (entry ObjectType.timebase i) in
      let tb = s.timebase_table i in
      let (status, prop) = impl.get_info_impl i s.kernel (record {
        name = Option.map (take (max_api_name - 1)) r.name_entry;
        creator = r.creator;
        nominal_interval_time = tb.nominal_interval_time;
        freerun_time = tb.freerun_time;
        accuracy = tb.accuracy_usec;
      }) in
      (status, prop, unlock_global p ObjectType.timebase s)

  unfoldable pub time_base_get_info : Bool → ℕ → Os K → ℤ × Option TimebaseProp × Os K
  time_base_get_info false id s = (os_invalid_pointer, none, s)
  time_base_get_info true id s =
      if in_callback p
      then (os_err_incorrect_obj_state, none, s)
      else (let (code, prop, s') =
            time_base_describe (get_by_id p global ObjectType.timebase id s) in
          (code, some prop, s'))

  unfoldable pub read_free_run : Result ℕ × Os K → ℤ × Option ℕ × Os K
  read_free_run (fail code, s) = (code, none, s)
  read_free_run (ok i, s) = (os_success, some (s.timebase_table i).freerun_time, s)

  unfoldable pub time_base_get_free_run : ℕ → Os K → ℤ × Option ℕ × Os K
  time_base_get_free_run id s = read_free_run (get_by_id p unlocked ObjectType.timebase id s)
