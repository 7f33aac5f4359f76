-- ===== src/Console.antt =====
-- The ring buffer of the console: osal/src/os/shared/src/osapi-printf.c.
pub mod Ring
pub mod Write
pub mod Printf
use hello_world_osal.Base.{
  ℕ, zero, suc, ◌+◌, ◌-◌, ◌%◌, ◌^◌, ℤ, Bool, true, Option, none, some, List, [], ◌∷◌, Text, ◌==◌,
  leb, ltb, not, if◌then◌else◌, update, os_success, os_queue_full,
}
use hello_world_osal.Idmap.ObjectType
use hello_world_osal.Idmap.Id.{Result, ok, fail}
use hello_world_osal.Idmap.State.{Os, Port}
use hello_world_osal.Idmap.Lock.{global, unlock_global}
use hello_world_osal.Idmap.Lookup.{get_by_id}

-- OS_console_internal_record_t. A text holds no 0; `buf_base` is the memory from `BufBase` on.
pub record Console : Type 0 where
  pub device_name : Text
  pub buf_base : ℕ → ℕ
  pub buf_size : ℕ
  pub read_pos : ℕ
  pub write_pos : ℕ
  pub overflow_events : ℕ

-- OS_Console_CopyOut from the given offset on, for a buffer of that size that is read up to
-- `read_pos`: the next offset if the string was written in its entirety, else none, which is
-- OS_QUEUE_FULL; and the memory.
unfoldable pub copy_out : ℕ → ℕ → Text → ℕ → (ℕ → ℕ) → Option ℕ × (ℕ → ℕ)
copy_out buf_size read_pos [] write_offset buf = (some write_offset, buf)
copy_out buf_size read_pos (c ∷ str) write_offset buf =
    let buf' = update buf write_offset c in
    let next = if leb buf_size (write_offset + 1) then 0 else write_offset + 1 in
    let rest = copy_out buf_size read_pos str next buf' in
    if next == read_pos then (none, buf') else rest

-- The device's name, if it has one, and the message. To write an empty name changes nothing.
unfoldable pub copy_message : Console → Text → Option ℕ × (ℕ → ℕ)
copy_message c str =
    let (pending, buf) = copy_out c.buf_size c.read_pos c.device_name c.write_pos c.buf_base in
    elim pending [
      | some offset ↦ copy_out c.buf_size c.read_pos str offset buf
      | none ↦ (none, buf)
    ]

-- OS_ConsoleWrite under the lock, up to OS_ConsoleWakeup_Impl.
unfoldable pub put_message : Text → Console → ℤ × Console
put_message str c =
    let (pending, buf) = copy_message c str in
    elim pending [
      | some offset ↦ (os_success, record c { buf_base = buf; write_pos = offset })
      | none ↦ (
        os_queue_full,
        record c { buf_base = buf; overflow_events = (c.overflow_events + 1) % 2 ^ 32 },
      )
    ]

module _ {K : Type 0} (p : Port K) (wakeup : Console → Console) where
  unfoldable pub write_found : Text → Console → Result ℕ × Os K → ℤ × Console × Os K
  write_found str c (fail code, s) = (code, c, s)
  write_found str c (ok i, s) =
      let (code, c') = put_message str c in (code, wakeup c', unlock_global p ObjectType.console s)

  -- There is one console, whose record is `c`.
  unfoldable pub console_write : ℕ → Text → Console → Os K → ℤ × Console × Os K
  console_write console_id str c s =
      write_found str c (get_by_id p global ObjectType.console console_id s)
