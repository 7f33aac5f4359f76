-- ===== src/Tests.antt =====
-- States and ports to run the code on: this task is the only one, and the layer below always agrees.
pub mod Table
pub mod Services
pub mod Connections
pub mod Messages
pub mod Calls
pub mod Timers
pub mod Joining
pub mod Streams
pub mod Directories
pub mod Volumes
pub mod Lifecycle
pub mod Files
pub mod Sockets
pub mod Priorities
use hello_world_osal.Base.{
  ℕ, ℤ, Bool, true, none, some, [], ◌∷◌, Text, ◌==◌, if◌then◌else◌, os_success, os_error,
}
use hello_world_osal.Idmap.Tables.{
  zero_task, zero_timebase, zero_timecb, zero_filesys, zero_stream, zero_module,
}
use hello_world_osal.Idmap.State.{CommonRecord, Event, Os, Port, zero_record, zero_objtype}

abbrev pub alone : {K : Type 0} → Port K
alone = record { task_id = 0x1_0001; lock_status = λ t. os_success; task_delay = λ n s. s }

abbrev pub idle : Port ℕ
idle = alone

abbrev pub started : {K : Type 0} → K → Os K
started k = record {
  common_table = λ e. zero_record;
  objtype_state = λ t. zero_objtype;
  initialized = true;
  shutdown_flag = 0;
  micro_sec_per_tick = 10000;
  ticks_per_second = 100;
  event_handler = none;
  notified = [];
  task_table = λ i. zero_task;
  count_sem_table = λ i. [];
  bin_sem_table = λ i. [];
  mutex_table = λ i. record { obj_name = []; last_owner = 0 };
  queue_table = λ i. record { queue_name = []; max_size = 0; max_depth = 0 };
  timebase_table = λ i. zero_timebase;
  timecb_table = λ i. zero_timecb;
  filesys_table = λ i. zero_filesys;
  dir_table = λ i. [];
  stream_table = λ i. zero_stream;
  module_table = λ i. zero_module;
  kernel = k;
}

abbrev pub blank : Os ℕ
blank = started 0

abbrev pub sem_name : Text
sem_name = 83 ∷ 49 ∷ []

-- Counting semaphore 1, with a reference to it.
abbrev pub shared_sem : CommonRecord
shared_sem = record {
  name_entry = some sem_name;
  active_id = 0x3_0001;
  creator = 0x1_0001;
  refcount = 1;
  flags = 0;
}

abbrev pub sharing : Os ℕ
sharing = record blank { common_table = λ e. if 149 == e then shared_sem else zero_record }

-- The same semaphore without a reference.
abbrev pub single : Os ℕ
single = record blank {
  common_table = λ e. if 149 == e then record shared_sem { refcount = 0 } else zero_record;
}

-- A handler that refuses every event.
abbrev pub refuse : Event → ℕ → ℤ
refuse event id = os_error

abbrev pub refusing : Os ℕ
refusing = record blank { event_handler = some refuse }

abbrev pub agree : ℕ → Os ℕ → ℤ × ℕ
agree i s = (os_success, s.kernel)
