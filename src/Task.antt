-- ===== src/Task.antt =====
-- Tasks: osal/src/os/shared/src/osapi-task.c. OS_TaskGetId is in Idmap/Lookup.
pub mod Exit
use hello_world_osal.Base.{
  ℕ, ◌-◌, ℤ, Bool, true, false, not, ◌||◌, Option, none, some, Text, [], ◌==◌, ltb, leb,
  if◌then◌else◌, length, take, update, is_success, os_success, os_error, os_invalid_pointer,
  os_err_name_too_long, os_err_invalid_id, os_err_invalid_priority,
}
use hello_world_osal.Idmap.ObjectType
use hello_world_osal.Idmap.Id.{Result, ok, fail, entry, to_array_index}
use hello_world_osal.Idmap.Tables.{TaskRecord, zero_task}
use hello_world_osal.Idmap.State.{Event, task_startup, Os, Port, set_record}
use hello_world_osal.Idmap.Lock.{unlocked, global, exclusive, lock_global, unlock_global}
use hello_world_osal.Idmap.Lookup.{Match, max_api_name, get_by_id, get_by_search}
use hello_world_osal.Idmap.Alloc.{notify_event, finalize_delete}
use hello_world_osal.Service.{create, tear_down, get_id_by_name, run_locked}

-- OS_task_prop_t
pub record TaskProp : Type 0 where
  pub name : Text
  pub creator : ℕ
  pub stack_size : ℕ
  pub priority : ℕ

-- The OS_Task*_Impl functions. System data is a number; the match by it compares with the threads
-- below.
pub record TaskImpl (K : Type 0) : Type 0 where
  pub create_impl : ℕ → ℕ → Os K → ℤ × K
  pub delete_impl : ℕ → Os K → ℤ × K
  pub delay_status : ℕ → ℤ
  pub match_impl : ℕ → K → ℤ
  pub register_impl : ℕ → K → ℤ × K
  pub exit_impl : K → K
  pub set_priority_impl : ℕ → ℕ → Os K → ℤ × K
  pub get_info_impl : ℕ → K → TaskProp → ℤ × TaskProp
  pub validate_impl : ℕ → ℕ → ℤ
  pub id_match_impl : ℕ → K → Match

abbrev pub max_task_priority : ℕ
max_task_priority = 255

module _ {K : Type 0} where
  unfoldable pub task_api_init : Os K → Os K
  task_api_init s = record s { task_table = λ i. zero_task }

  abbrev pub set_task : Os K → ℕ → TaskRecord → Os K
  set_task s i r = record s { task_table = update s.task_table i r }

  unfoldable pub task_store : ℕ → Option ℕ → ℕ → ℕ → Text → ℕ → Os K → Os K
  task_store function stack size priority name i s =
      let e = entry ObjectType.task i in
      set_task (set_record s e (record (s.common_table e) { name_entry = some name })) i
        (record zero_task {
          task_name = name;
          stack_size = size;
          priority = priority;
          entry_function = some function;
          stack_pointer = stack;
        })

module _ {K : Type 0} (p : Port K) (impl : TaskImpl K) where
  -- The entry function comes second; it is read under the table lock.
  unfoldable pub read_entry : ℕ → Result ℕ × Os K → ℤ × Option ℕ × Os K
  read_entry id (fail code, s) = (code, none, s)
  read_entry id (ok i, s) =
      let s1 = lock_global p ObjectType.task s in
      let s2 = unlock_global p ObjectType.task s1 in
      if not ((s1.common_table (entry ObjectType.task i)).active_id == id)
      then (os_err_invalid_id, none, s2)
      else (impl.match_impl i s1.kernel, (s1.task_table i).entry_function, s2)

  unfoldable pub task_prepare : ℕ → Os K → ℤ × Option ℕ × Os K
  task_prepare id s =
      let (code, function, s1) = read_entry id (to_array_index ObjectType.task id, s) in
      let (registered, s2) = run_locked (impl.register_impl id s1.kernel) s1 in
      let (notified, s3) = notify_event task_startup id s2 in
      if not (is_success code)
      then (code, none, s1)
      else if not (is_success registered)
      then (registered, none, s2)
      else if not (is_success notified)
      then (notified, none, s3)
      else (notified, function, s3)

  unfoldable pub exit_found : Result ℕ × Os K → Os K
  exit_found (fail code, s) = s
  exit_found (ok i, s) = (finalize_delete p os_success (entry ObjectType.task i) s).1

  -- OS_TaskExit_Impl never returns: the state is what the other tasks find.
  unfoldable pub task_exit : Os K → Os K
  task_exit s =
      let s1 = exit_found (get_by_id p global ObjectType.task p.task_id s) in
      record s1 { kernel = impl.exit_impl s1.kernel }

  -- `run` is what a function of the application does to the state, if it returns.
  unfoldable pub task_entry_point : (ℕ → Os K → Os K) → ℕ → Os K → Os K
  task_entry_point run id s =
      let (code, function, s1) = task_prepare id s in
      let s2 : Os K = elim function [ none ↦ s1 | some f ↦ run f s1 ] in
      if is_success code then task_exit s2 else task_exit s1

  unfoldable pub task_create :
      Bool → Option Text → Option ℕ → Option ℕ → ℕ → ℕ → ℕ → Os K → ℤ × Option ℕ × Os K
  task_create out none function stack size priority flags s =
      if ltb max_task_priority priority
      then (os_err_invalid_priority, none, s)
      else (os_invalid_pointer, none, s)
  task_create out (some name) none stack size priority flags s =
      if ltb max_task_priority priority
      then (os_err_invalid_priority, none, s)
      else (os_invalid_pointer, none, s)
  task_create out (some name) (some function) stack size priority flags s =
      if ltb max_task_priority priority
      then (os_err_invalid_priority, none, s)
      else if not out
      then (os_invalid_pointer, none, s)
      else if size == 0
      then (os_error, none, s)
      else if leb max_api_name (length name)
      then (os_err_name_too_long, none, s)
      else create p ObjectType.task (task_store function stack size priority name)
          (λ i. impl.create_impl i flags) name s

  -- The delete hook that is called, after the unlocking, comes second.
  unfoldable pub delete_found : Result ℕ × Os K → ℤ × Option ℕ × Os K
  delete_found (fail code, s) = (code, none, s)
  delete_found (ok i, s) =
      let hook = (s.task_table i).delete_hook in
      let (code, s1) = tear_down p ObjectType.task impl.delete_impl (ok i, s) in
      (code, if is_success code then hook else none, s1)

  unfoldable pub task_delete : ℕ → Os K → ℤ × Option ℕ × Os K
  task_delete id s = delete_found (get_by_id p exclusive ObjectType.task id s)

  unfoldable pub task_delay : ℕ → Os K → ℤ × Os K
  task_delay milliseconds s = (impl.delay_status milliseconds, p.task_delay milliseconds s)

  unfoldable pub set_priority_found : ℕ → Result ℕ × Os K → ℤ × Os K
  set_priority_found priority (fail code, s) = (code, s)
  set_priority_found priority (ok i, s) =
      let (status, s1) = run_locked (impl.set_priority_impl i priority s) s in
      let kept = set_task s1 i (record (s1.task_table i) { priority = priority }) in
      (status, unlock_global p ObjectType.task (if is_success status then kept else s1))

  unfoldable pub task_set_priority : ℕ → ℕ → Os K → ℤ × Os K
  task_set_priority id priority s =
      if ltb max_task_priority priority
      then (os_err_invalid_priority, s)
      else set_priority_found priority (get_by_id p global ObjectType.task id s)

  unfoldable pub task_register : Os K → ℤ
  task_register s = elim (get_by_id p unlocked ObjectType.task p.task_id s).0 [
    | ok i ↦ os_success
    | fail code ↦ code
  ]

  unfoldable pub task_get_id_by_name : Bool → Option Text → Os K → ℤ × Option ℕ × Os K
  task_get_id_by_name out name s = get_id_by_name p ObjectType.task out name s

  unfoldable pub task_describe : Result ℕ × Os K → ℤ × TaskProp × Os K
  task_describe (fail code, s) =
      (code, record { name = []; creator = 0; stack_size = 0; priority = 0 }, s)
  task_describe (ok i, s) =
      let r = s.common_table (entry ObjectType.task i) in
      let task = s.task_table i in
      let name : Text = elim r.name_entry [ none ↦ [] | some n ↦ take (max_api_name - 1) n ] in
      let (status, prop) = impl.get_info_impl i s.kernel (record {
        name = name;
        creator = r.creator;
        stack_size = task.stack_size;
        priority = task.priority;
      }) in
      (status, prop, unlock_global p ObjectType.task s)

  unfoldable pub task_get_info : Bool → ℕ → Os K → ℤ × Option TaskProp × Os K
  task_get_info false id s = (os_invalid_pointer, none, s)
  task_get_info true id s =
      let (code, prop, s') = task_describe (get_by_id p global ObjectType.task id s) in
      (code, some prop, s')

  unfoldable pub install_found : Option ℕ → Result ℕ × Os K → ℤ × Os K
  install_found hook (fail code, s) = (code, s)
  install_found hook (ok i, s) = (
    os_success,
    unlock_global p ObjectType.task (set_task s i (record (s.task_table i) { delete_hook = hook })),
  )

  unfoldable pub task_install_delete_handler : Option ℕ → Os K → ℤ × Os K
  task_install_delete_handler hook s =
      install_found hook (get_by_id p global ObjectType.task p.task_id s)

  unfoldable pub export_task : Result ℕ × Os K → ℤ × Option ℕ × Os K
  export_task (fail code, s) = (code, none, s)
  export_task (ok i, s) = (
    os_success,
    some (s.common_table (entry ObjectType.task i)).active_id,
    unlock_global p ObjectType.task s,
  )

  unfoldable pub task_find_id_by_system_data : Bool → ℕ → ℕ → Os K → ℤ × Option ℕ × Os K
  task_find_id_by_system_data false sysdata size s = (os_invalid_pointer, none, s)
  task_find_id_by_system_data true sysdata size s =
      let status = impl.validate_impl sysdata size in
      if not (is_success status)
      then (status, none, s)
      else export_task
          (get_by_search p global ObjectType.task (impl.id_match_impl sysdata s.kernel) s)
