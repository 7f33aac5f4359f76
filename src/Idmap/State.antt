-- ===== src/Idmap/State.antt =====
-- The global variables of the shared layer (osapi-idmap.c, osapi-common.c, the local tables of the
-- services), and the interface to the layer below it.
use hello_world_osal.Base.{ℕ, ℤ, Bool, Option, none, List, Text, update}
use hello_world_osal.Idmap.Id.{undefined_id}
use hello_world_osal.Idmap.Tables.{
  TaskRecord, MutexRecord, QueueRecord, TimebaseRecord, TimecbRecord, FilesysRecord, StreamRecord,
  ModuleRecord,
}

-- OS_common_record_t. A name is what `name_entry` points to: a name buffer is written only while
-- its entry is being created.
pub record CommonRecord : Type 0 where
  pub name_entry : Option Text
  pub active_id : ℕ
  pub creator : ℕ
  pub refcount : ℕ
  pub flags : ℕ

pub record ObjtypeState : Type 0 where
  pub last_id_issued : ℕ
  pub table_owner : ℕ

pub data Event : Type 0 where
  reserved resource_allocated resource_created resource_deleted task_startup : Event

-- `K` is the state of the layer below, which the shared layer never reads. `notified` lists the
-- calls of the event handler, the latest first.
pub record Os (K : Type 0) : Type 0 where
  pub common_table : ℕ → CommonRecord
  pub objtype_state : ℕ → ObjtypeState
  pub initialized : Bool
  pub shutdown_flag : ℕ
  pub micro_sec_per_tick : ℕ
  pub ticks_per_second : ℕ
  pub event_handler : Option (Event → ℕ → ℤ)
  pub notified : List (Event × ℕ)
  pub task_table : ℕ → TaskRecord
  pub count_sem_table : ℕ → Text
  pub bin_sem_table : ℕ → Text
  pub mutex_table : ℕ → MutexRecord
  pub queue_table : ℕ → QueueRecord
  pub timebase_table : ℕ → TimebaseRecord
  pub timecb_table : ℕ → TimecbRecord
  pub filesys_table : ℕ → FilesysRecord
  pub dir_table : ℕ → Text
  pub stream_table : ℕ → StreamRecord
  pub module_table : ℕ → ModuleRecord
  pub kernel : K

-- The calls into the layer below that the object table makes. `task_delay` is the state after a
-- sleep with the table unlocked: whatever the other tasks did in the meantime. The status of an unlocking
-- is left out, since the code only prints it.
pub record Port (K : Type 0) : Type 0 where
  pub task_id : ℕ
  pub lock_status : ℕ → ℤ
  pub task_delay : ℕ → Os K → Os K

abbrev pub zero_record : CommonRecord
zero_record = record {
  name_entry = none;
  active_id = undefined_id;
  creator = undefined_id;
  refcount = 0;
  flags = 0;
}

abbrev pub zero_objtype : ObjtypeState
zero_objtype = record { last_id_issued = undefined_id; table_owner = undefined_id }

abbrev pub shutdown_magic_number : ℕ
shutdown_magic_number = 0xABAD_C0DE

module _ {K : Type 0} where
  abbrev pub set_record : Os K → ℕ → CommonRecord → Os K
  set_record s e r = record s { common_table = update s.common_table e r }

  abbrev pub set_owner : Os K → ℕ → ℕ → Os K
  set_owner s idtype id = record s {
    objtype_state =
        update s.objtype_state idtype (record (s.objtype_state idtype) { table_owner = id });
  }

  abbrev pub owner : Os K → ℕ → ℕ
  owner s idtype = (s.objtype_state idtype).table_owner

  unfoldable pub object_id_init : Os K → Os K
  object_id_init s = record s { common_table = λ e. zero_record; objtype_state = λ t. zero_objtype }
