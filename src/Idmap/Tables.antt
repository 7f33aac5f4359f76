-- ===== src/Idmap/Tables.antt =====
-- The entries of the local tables: os-shared-task.h, os-shared-mutex.h, os-shared-queue.h, os-shared-timebase.h,
-- os-shared-time.h and os-shared-filesys.h of osal/src/os/shared/inc.
use hello_world_osal.Base.{ℕ, ℤ, pos, Option, none, [], Text}

pub record MutexRecord : Type 0 where
  pub obj_name : Text
  pub last_owner : ℕ

pub record QueueRecord : Type 0 where
  pub queue_name : Text
  pub max_size : ℕ
  pub max_depth : ℕ

-- Functions and the stack are numbers, NULL is `none`.
pub record TaskRecord : Type 0 where
  pub task_name : Text
  pub stack_size : ℕ
  pub priority : ℕ
  pub entry_function : Option ℕ
  pub delete_hook : Option ℕ
  pub stack_pointer : Option ℕ

-- A sync function is a number, NULL is `none`.
pub record TimebaseRecord : Type 0 where
  pub timebase_name : Text
  pub external_sync : Option ℕ
  pub accuracy_usec : ℕ
  pub first_cb : ℕ
  pub freerun_time : ℕ
  pub nominal_start_time : ℕ
  pub nominal_interval_time : ℕ

-- What a timer's callback_ptr points to: a function of the application, or OS_Timer_NoArgCallback.
pub data Callback : Type 0 where
  arg_callback : ℕ → Callback
  no_arg_callback : Callback

pub record TimecbRecord : Type 0 where
  pub timer_name : Text
  pub flags : ℕ
  pub timebase_ref : ℕ
  pub prev_ref : ℕ
  pub next_ref : ℕ
  pub backlog_resets : ℕ
  pub wait_time : ℤ
  pub interval_time : ℤ
  pub callback_ptr : Option Callback
  pub callback_arg : ℕ

-- An address is `none` if it is NULL.
pub record FilesysRecord : Type 0 where
  pub device_name : Text
  pub volume_name : Text
  pub system_mountpt : Text
  pub virtual_mountpt : Text
  pub address : Option ℕ
  pub blocksize : ℕ
  pub numblocks : ℕ
  pub flags : ℕ
  pub fstype : ℕ

-- OS_stream_internal_record_t
pub record StreamRecord : Type 0 where
  pub stream_name : Text
  pub socket_domain : ℕ
  pub socket_type : ℕ
  pub stream_state : ℕ

-- OS_module_internal_record_t
pub record ModuleRecord : Type 0 where
  pub module_name : Text
  pub file_name : Text
  pub module_type : ℕ
  pub flags : ℕ
  pub entry_point : ℕ

abbrev pub zero_task : TaskRecord
zero_task = record {
  task_name = [];
  stack_size = 0;
  priority = 0;
  entry_function = none;
  delete_hook = none;
  stack_pointer = none;
}

abbrev pub zero_timebase : TimebaseRecord
zero_timebase = record {
  timebase_name = [];
  external_sync = none;
  accuracy_usec = 0;
  first_cb = 0;
  freerun_time = 0;
  nominal_start_time = 0;
  nominal_interval_time = 0;
}

abbrev pub zero_timecb : TimecbRecord
zero_timecb = record {
  timer_name = [];
  flags = 0;
  timebase_ref = 0;
  prev_ref = 0;
  next_ref = 0;
  backlog_resets = 0;
  wait_time = pos 0;
  interval_time = pos 0;
  callback_ptr = none;
  callback_arg = 0;
}

abbrev pub zero_filesys : FilesysRecord
zero_filesys = record {
  device_name = [];
  volume_name = [];
  system_mountpt = [];
  virtual_mountpt = [];
  address = none;
  blocksize = 0;
  numblocks = 0;
  flags = 0;
  fstype = 0;
}

abbrev pub zero_stream : StreamRecord
zero_stream = record { stream_name = []; socket_domain = 0; socket_type = 0; stream_state = 0 }

abbrev pub zero_module : ModuleRecord
zero_module = record {
  module_name = [];
  file_name = [];
  module_type = 0;
  flags = 0;
  entry_point = 0;
}
