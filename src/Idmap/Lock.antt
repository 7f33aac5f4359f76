-- ===== src/Idmap/Lock.antt =====
-- The lock of each type's table, and its conversion into the lock that a caller asked for
-- (osapi-idmap.c).
pub mod Discipline
pub mod Waiting
pub mod Busy
pub mod Granted
use hello_world_osal.Base.{
  ℕ, zero, suc, ◌+◌, ◌-◌, ◌%◌, ◌^◌, bit_and, bit_or, ℤ, Option, none, some, not, ◌||◌, ◌==◌, ltb,
  leb, if◌then◌else◌, is_success, os_success, os_error, os_err_invalid_id, os_err_object_in_use,
}
use hello_world_osal.Idmap.ObjectType
use hello_world_osal.Idmap.Id.{is_defined, reserved_id, undefined_id}
use hello_world_osal.Idmap.State.{Os, Port, set_record, set_owner, owner}

pub data LockMode : Type 0 where
  unlocked global exclusive refcounted : LockMode

abbrev pub object_excl_req_flag : ℕ
object_excl_req_flag = 1

module _ {K : Type 0} (p : Port K) where
  -- Debug messages are left out; no lock is an error that the callers see.
  unfoldable pub self_owner : ℕ
  self_owner = if is_defined p.task_id then p.task_id else reserved_id

  unfoldable pub lock_global : ℕ → Os K → Os K
  lock_global idtype s =
      if ltb idtype ObjectType.user
      then (if is_success (p.lock_status idtype)
          then (if is_defined (owner s idtype) then s else set_owner s idtype self_owner)
          else s)
      else s

  -- OS_Unlock_Global_Impl changes none of the variables; its status only goes into a debug message.
  unfoldable pub unlock_global : ℕ → Os K → Os K
  unlock_global idtype s =
      if ltb idtype ObjectType.user
      then (if owner s idtype == self_owner then set_owner s idtype undefined_id else s)
      else s

  unfoldable pub initiate_lock : LockMode → ℕ → Os K → Os K
  initiate_lock unlocked idtype s = s
  initiate_lock global idtype s = lock_global idtype s
  initiate_lock exclusive idtype s = lock_global idtype s
  initiate_lock refcounted idtype s = lock_global idtype s

  -- The REFCOUNT branch of a round of OS_ObjectIdConvertLock, on the entry `e`: a code ends the loop.
  unfoldable pub try_refcount : ℕ → Os K → Option ℤ × Os K
  try_refcount e s =
      let r = s.common_table e in
      if bit_and r.flags object_excl_req_flag == 0
      then (some os_success, set_record s e (record r { refcount = (r.refcount + 1) % 2 ^ 16 }))
      else (none, s)

  -- The EXCLUSIVE branch; `bits` is the local `exclusive_bits`.
  unfoldable pub try_exclusive : ℕ → ℕ → Os K → Option ℤ × ℕ × Os K
  try_exclusive e bits s =
      let r = s.common_table e in
      if not (bits == 0) || bit_and r.flags object_excl_req_flag == 0
      then (if r.refcount == 0 then (some os_success, bits, s) else (
        none,
        object_excl_req_flag,
        set_record s e (record r { flags = bit_or r.flags object_excl_req_flag }),
      ))
      else (none, bits, s)

  unfoldable pub try_mode : LockMode → ℕ → ℕ → Os K → Option ℤ × ℕ × Os K
  try_mode refcounted e bits s = let (verdict, s') = try_refcount e s in (verdict, bits, s')
  try_mode exclusive e bits s = try_exclusive e bits s
  try_mode global e bits s = (some os_success, bits, s)
  try_mode unlocked e bits s = (some os_success, bits, s)

  -- One round, up to the count of attempts.
  unfoldable pub try_lock : LockMode → ℕ → ℕ → ℕ → Os K → Option ℤ × ℕ × Os K
  try_lock mode reference_id e bits s =
      if not ((s.common_table e).active_id == reference_id)
      then (some os_err_invalid_id, bits, s)
      else try_mode mode e bits s

  -- The table is unlocked, and taken again after a sleep.
  unfoldable pub wait_turn : ℕ → ℕ → Os K → Os K
  wait_turn idtype attempts s = lock_global idtype (p.task_delay attempts (unlock_global idtype s))

  -- The loop; the first number is the fuel.
  unfoldable pub convert_loop : ℕ → LockMode → ℕ → ℕ → ℕ → ℕ → ℕ → Os K → ℤ × ℕ × Os K
  convert_loop zero mode idtype reference_id e bits attempts s = (os_error, bits, s)
  convert_loop (suc fuel) mode idtype reference_id e bits attempts s =
      let (verdict, bits', s') = try_lock mode reference_id e bits s in
      elim verdict [
        | some code ↦ (code, bits', s')
        | none ↦
            let rest =
              convert_loop fuel mode idtype reference_id e bits' (attempts + 1)
                (wait_turn idtype (attempts + 1) s') in
            if leb 5 (attempts + 1) then (os_err_object_in_use, bits', s') else rest
      ]

  -- `obj->flags &= ~exclusive_bits`
  unfoldable pub clear_bits : ℕ → ℕ → Os K → Os K
  clear_bits e bits s =
      let r = s.common_table e in
      set_record s e (record r { flags = bit_and r.flags (0xFFFF_FFFF - bits) % 2 ^ 16 })

  -- What follows the loop.
  unfoldable pub finish_convert : LockMode → ℕ → ℕ → ℤ × ℕ × Os K → ℤ × Os K
  finish_convert unlocked idtype e (code, bits, s) = (code, s)
  finish_convert refcounted idtype e (code, bits, s) =
      (code, unlock_global idtype (clear_bits e bits s))
  finish_convert exclusive idtype e (code, bits, s) =
      let s' = clear_bits e bits s in
      (code, if not (is_success code) then unlock_global idtype s' else s')
  finish_convert global idtype e (code, bits, s) =
      let s' = clear_bits e bits s in
      (code, if not (is_success code) then unlock_global idtype s' else s')

  unfoldable pub convert_lock : LockMode → ℕ → ℕ → ℕ → Os K → ℤ × Os K
  convert_lock mode idtype reference_id e s =
      finish_convert mode idtype e (convert_loop 5 mode idtype reference_id e 0 0 s)
