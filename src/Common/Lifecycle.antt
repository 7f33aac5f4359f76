-- ===== src/Common/Lifecycle.antt =====
-- The start of the API and the removal of all its objects: OS_API_Init, OS_CleanUpObject,
-- OS_DeleteAllObjects and OS_IdleLoop of osal/src/os/shared/src/osapi-common.c.
use hello_world_osal.Base.{
  ℕ, zero, suc, ◌+◌, ◌%◌, ◌^◌, ℤ, Bool, true, ◌||◌, Option, ◌==◌, ltb, if◌then◌else◌, is_success,
  os_success, os_error,
}
use hello_world_osal.Idmap.ObjectType
use hello_world_osal.Idmap.Id.{to_type}
use hello_world_osal.Idmap.State.{Os, Port, object_id_init, shutdown_magic_number}
use hello_world_osal.Idmap.Each.{creator_any, for_each_object}
use hello_world_osal.Service.CountSem.{CountSemImpl, count_sem_api_init, count_sem_delete}
use hello_world_osal.Service.BinSem.{BinSemImpl, bin_sem_api_init, bin_sem_delete}
use hello_world_osal.Service.Mutex.{MutexImpl, mutex_api_init, mut_sem_delete}
use hello_world_osal.Service.Queue.{QueueImpl, queue_api_init, queue_delete}
use hello_world_osal.Task.{TaskImpl, task_api_init, task_delete}
use hello_world_osal.Timer.TimeBase.{TimeBaseImpl, time_base_api_init, time_base_delete}
use hello_world_osal.Timer.Timers.{timer_cb_api_init}
use hello_world_osal.Timer.Timers.Calls.{timer_delete}
use hello_world_osal.FileSys.{file_sys_api_init}
use hello_world_osal.File.{FileImpl, file_api_init, close}
use hello_world_osal.Module.{ModuleImpl, module_api_init, module_unload}
use hello_world_osal.Socket.{socket_api_init}
use hello_world_osal.Platform.{network_api_init}
use hello_world_osal.Directory.{DirImpl, dir_api_init, directory_close}

-- OS_API_Impl_Init, and OS_ConsoleAPI_Init, whose state is no part of `Os`.
pub record Others (K : Type 0) : Type 0 where
  pub impl_init : ℕ → Os K → ℤ × Os K
  pub type_init : ℕ → Os K → ℤ × Os K

module _ {K : Type 0} where
  -- The rest only runs on success.
  abbrev pub on_success : (Os K → ℤ × Os K) → ℤ × Os K → ℤ × Os K
  on_success next (code, s) = if is_success code then next s else (code, s)

  -- The tick times must be set by then. The message about a rate that is odd is left out.
  unfoldable pub check_ticks : Os K → ℤ × Os K
  check_ticks s =
      if s.micro_sec_per_tick == 0 || s.ticks_per_second == 0
      then (os_error, s)
      else (os_success, s)

module _ {K : Type 0} (others : Others K) where
  -- OS_API_Init's choice of the shared layer's part, by the type.
  unfoldable pub shared_init : ℕ → Os K → ℤ × Os K
  shared_init idtype s =
      if idtype == ObjectType.task
      then (os_success, task_api_init s)
      else if idtype == ObjectType.queue
      then (os_success, queue_api_init s)
      else if idtype == ObjectType.binsem
      then (os_success, bin_sem_api_init s)
      else if idtype == ObjectType.countsem
      then (os_success, count_sem_api_init s)
      else if idtype == ObjectType.mutex
      then (os_success, mutex_api_init s)
      else if idtype == ObjectType.timebase
      then (os_success, time_base_api_init s)
      else if idtype == ObjectType.timecb
      then (os_success, timer_cb_api_init s)
      else if idtype == ObjectType.filesys
      then (os_success, file_sys_api_init s)
      else if idtype == ObjectType.dir
      then (os_success, dir_api_init s)
      else if idtype == ObjectType.modules
      then (os_success, module_api_init s)
      else if idtype == ObjectType.stream
      then (os_success, file_api_init s)
      else if idtype == ObjectType.console
      then others.type_init idtype s
      else (os_success, s)

  -- The loop over the types from `idtype` on, `count` of them.
  unfoldable pub init_types : ℕ → ℕ → ℤ × Os K → ℤ × Os K
  init_types zero idtype r = r
  init_types (suc count) idtype r =
      init_types count (idtype + 1)
        (on_success (λ s. on_success (shared_init idtype) (others.impl_init idtype s)) r)

  unfoldable pub api_init : Os K → ℤ × Os K
  api_init s =
      let s1 = object_id_init (record s { initialized = true }) in
      let typed = init_types ObjectType.user 0 (os_success, s1) in
      if s.initialized
      then (os_error, s)
      else on_success check_ticks (on_success socket_api_init (on_success network_api_init typed))

module _ {K : Type 0} (p : Port K) (others : Others K) (count_sems : CountSemImpl K)
    (bin_sems : BinSemImpl K) (mutexes : MutexImpl K) (queues : QueueImpl K) (tasks : TaskImpl K)
    (time_bases : TimeBaseImpl K) (dirs : DirImpl K) (streams : FileImpl K) (modules : ModuleImpl K)
    (garbage : ℕ) (run_hook : Option ℕ → Os K → Os K) where
  -- The deletion of an object by its type. A delete hook runs as `run_hook` says.
  unfoldable pub delete_object : ℕ → Os K → Os K
  delete_object id s =
      let idtype = to_type id in
      if idtype == ObjectType.task
      then (let (code, hook, s') = task_delete p tasks id s in run_hook hook s')
      else if idtype == ObjectType.queue
      then (queue_delete p queues id s).1
      else if idtype == ObjectType.binsem
      then (bin_sem_delete p bin_sems id s).1
      else if idtype == ObjectType.countsem
      then (count_sem_delete p count_sems id s).1
      else if idtype == ObjectType.mutex
      then (mut_sem_delete p mutexes id s).1
      else if idtype == ObjectType.modules
      then (module_unload p modules id s).1
      else if idtype == ObjectType.timebase
      then (time_base_delete p time_bases id s).1
      else if idtype == ObjectType.timecb
      then (timer_delete p time_bases garbage id s).1
      else if idtype == ObjectType.stream
      then (close p streams id s).1
      else if idtype == ObjectType.dir
      then (directory_close p dirs id s).1
      else s

  -- The callback: each object is counted, whether it can be deleted or not.
  unfoldable pub clean_up_object : ℕ → ℕ → Os K → ℕ × Os K
  clean_up_object id count s = ((count + 1) % 2 ^ 32, delete_object id s)

  -- One pass over all objects, with their number.
  unfoldable pub clean_up_all : Os K → ℕ × Os K
  clean_up_all s = for_each_object p clean_up_object creator_any (0, s)

  -- The loop of OS_DeleteAllObjects; the first number is the fuel, the second `TryCount`.
  unfoldable pub delete_tries : ℕ → ℕ → Os K → Os K
  delete_tries zero tries s = s
  delete_tries (suc fuel) tries s =
      let (count, s1) = clean_up_all s in
      let rest = delete_tries fuel (tries + 1) (p.task_delay 5 s1) in
      if count == 0 || ltb 4 (tries + 1) then s1 else rest

  unfoldable pub delete_all_objects : Os K → Os K
  delete_all_objects s = delete_tries 5 0 s

module _ {K : Type 0} (idle_impl : Os K → Os K) where
  -- OS_IdleLoop for `turns` turns at most: whether it has ended. OS_IdleLoop_Impl may come back in any
  -- state.
  unfoldable pub idle_loop : ℕ → Os K → Bool × Os K
  idle_loop zero s = (s.shutdown_flag == shutdown_magic_number, s)
  idle_loop (suc turns) s =
      let rest = idle_loop turns (idle_impl s) in
      if s.shutdown_flag == shutdown_magic_number then (true, s) else rest
