-- ===== src/Console/Printf.antt =====
-- The console of OS_printf: OS_ConsoleAPI_Init, OS_printf and its switch (osapi-printf.c).
use hello_world_osal.Base.{
  ℕ, ◌-◌, ℤ, pos, negsuc, Bool, true, false, ◌&&◌, some, Text, [], if◌then◌else◌, leb, take,
  os_success,
}
use hello_world_osal.Idmap.ObjectType
use hello_world_osal.Idmap.Id.{Result, ok, fail, entry}
use hello_world_osal.Idmap.State.{Os, Port, set_record}
use hello_world_osal.Idmap.Alloc.{allocate_new, finalize_new}
use hello_world_osal.Service.{run_locked}
use hello_world_osal.Console.{Console, console_write}

-- OS_BUFFER_SIZE
abbrev pub buffer_size : ℕ
buffer_size = 172

-- The size of OS_printf_buffer_mem: room for OS_BUFFER_MSG_DEPTH messages, the name being empty.
abbrev pub printf_buffer_size : ℕ
printf_buffer_size = 17300

-- OS_console_table, which has one record, and the fields PrintfConsoleId and PrintfEnabled of
-- OS_SharedGlobalVars.
pub record PrintfState : Type 0 where
  pub console : Console
  pub printf_console_id : ℕ
  pub printf_enabled : Bool

-- A record of zeros, over some memory.
abbrev pub zero_console : (ℕ → ℕ) → Console
zero_console memory = record {
  device_name = [];
  buf_base = memory;
  buf_size = 0;
  read_pos = 0;
  write_pos = 0;
  overflow_events = 0;
}

-- `actualsz`, the length of the message after a call of `vsnprintf` that returned this.
unfoldable pub actual_size : ℤ → ℕ
actual_size (negsuc n) = 0
actual_size (pos n) = if leb buffer_size n then buffer_size - 1 else n

unfoldable pub printf_disable : PrintfState → PrintfState
printf_disable v = record v { printf_enabled = false }

unfoldable pub printf_enable : PrintfState → PrintfState
printf_enable v = record v { printf_enabled = true }

module _ {K : Type 0} (p : Port K) (create_impl : ℕ → Os K → ℤ × K) where
  -- `name_entry` points to the name of the device, which is empty.
  unfoldable pub console_store : ℕ → Os K → Os K
  console_store i s =
      let e = entry ObjectType.console i in
      set_record s e (record (s.common_table e) { name_entry = some [] })

  -- What follows the allocation.
  unfoldable pub console_allocated : PrintfState → Result ℕ × Os K → PrintfState × Os K
  console_allocated v (fail code, s) = (v, s)
  console_allocated v (ok i, s) =
      let s1 = console_store i s in
      let (status, s2) = run_locked (create_impl i s1) s1 in
      let (code, id, s3) = finalize_new p status (entry ObjectType.console i) s2 in
      (
        record {
          console = record v.console { buf_size = printf_buffer_size };
          printf_console_id = id;
          printf_enabled = true;
        },
        s3,
      )

  -- `memory` is OS_printf_buffer_mem.
  unfoldable pub console_api_init : (ℕ → ℕ) → PrintfState → Os K → ℤ × PrintfState × Os K
  console_api_init memory v s =
      let (v', s') =
        console_allocated (record v { console = zero_console memory })
          (allocate_new p ObjectType.console (some []) s) in
      (os_success, v', s')

module _ {K : Type 0} (p : Port K) (wakeup : Console → Console) where
  -- What `vsnprintf` returns and what it has written come in. A debug message is left out.
  unfoldable pub printf : ℤ → Text → PrintfState → Os K → PrintfState × Os K
  printf size written v s =
      let message = take (actual_size size) written in
      let (code, c, s') = console_write p wakeup v.printf_console_id message v.console s in
      if s.initialized && v.printf_enabled then (record v { console = c }, s') else (v, s)
