-- ===== src/Idmap/Alloc.antt =====
-- Issuing and taking back object IDs (osapi-idmap.c), and OS_NotifyEvent (osapi-common.c).
pub mod FreeSlot
pub mod Issue
pub mod Allocated
pub mod Settled
pub mod Codes
pub mod Locking
pub mod Leak
use hello_world_osal.Base.{
  ℕ, zero, suc, ◌+◌, ◌%◌, ◌^◌, ℤ, not, ◌||◌, Option, none, some, ◌∷◌, Text, ◌==◌, leb,
  if◌then◌else◌, is_success, update, os_success, os_error, os_err_no_free_ids, os_err_name_taken,
  os_err_invalid_id, os_err_not_implemented, os_err_incorrect_obj_type,
}
use hello_world_osal.Idmap.ObjectType
use hello_world_osal.Idmap.Id.{
  Result, ok, fail, is_defined, undefined_id, object_index_mask, to_type, to_serial_number, compose,
  entry, get_max_for_object_type,
}
use hello_world_osal.Idmap.State.{
  Event, resource_allocated, resource_created, resource_deleted, Os, Port, set_record,
  shutdown_magic_number,
}
use hello_world_osal.Idmap.Lock.{lock_global, unlock_global}
use hello_world_osal.Idmap.Lookup.{search, object_name_match, task_get_id}

module _ {K : Type 0} where
  unfoldable pub notify_event : Event → ℕ → Os K → ℤ × Os K
  notify_event event object_id s = elim s.event_handler [
    | none ↦ (os_success, s)
    | some handler ↦
        (handler event object_id, record s { notified = (event, object_id) ∷ s.notified })
  ]

  -- The loop of OS_ObjectIdFindNext with `count` places to look at, after `idvalue`: the serial
  -- number and the place of the first free one.
  unfoldable pub find_free : ℕ → ℕ → ℕ → ℕ → Os K → Option (ℕ × ℕ)
  find_free zero idtype max_id idvalue s = none
  find_free (suc count) idtype max_id idvalue s =
      let next = (idvalue + 1) % 2 ^ 32 in
      let local_id = next % max_id in
      let next' = if leb object_index_mask next then local_id else next in
      let rest = find_free count idtype max_id next' s in
      if not (is_defined (s.common_table (entry idtype local_id)).active_id)
      then some (next', local_id)
      else rest

  -- The place that an object of that name has; a NULL name is `none`.
  unfoldable pub is_taken : ℕ → Option Text → Os K → Option ℕ
  is_taken idtype none s = none
  is_taken idtype (some name) s = search idtype (object_name_match name) s

  -- The event handler may refuse a new ID.
  unfoldable pub announce : ℕ → Result ℕ × Os K → Result ℕ × Os K
  announce idtype (fail code, s) = (fail code, s)
  announce idtype (ok i, s) =
      let (code, s') =
        notify_event resource_allocated (s.common_table (entry idtype i)).active_id s in
      (if is_success code then ok i else fail code, s')

  -- The event that goes out after the unlocking; what the handler returns is not looked at.
  unfoldable pub notify_defined : Event → ℕ → Os K → Os K
  notify_defined event id s = if is_defined id then (notify_event event id s).1 else s

  -- OS_ObjectIdFinalizeNew before the unlocking.
  unfoldable pub settle_new : ℤ → ℕ → Os K → ℤ × Os K
  settle_new status e s =
      let r = s.common_table e in
      let idtype = to_type r.active_id in
      let cleared = set_record s e (record r { active_id = undefined_id }) in
      if not (is_success status)
      then (status, cleared)
      else if idtype == 0 || leb ObjectType.user idtype
      then (os_err_invalid_id, cleared)
      else (
        status,
        record s {
          objtype_state =
              update s.objtype_state idtype
                (record (s.objtype_state idtype) { last_id_issued = r.active_id });
        },
      )

module _ {K : Type 0} (p : Port K) where
  -- OS_ObjectIdFindNext once a place is found. The creator is looked up in the new state.
  unfoldable pub claim : ℕ → ℕ → ℕ → Os K → Os K
  claim idtype idvalue local_id s =
      let e = entry idtype local_id in
      let s1 = set_record s e (record (s.common_table e) { active_id = compose idtype idvalue }) in
      let s2 = set_record s1 e (record (s1.common_table e) { name_entry = none }) in
      set_record s2 e (record (s2.common_table e) { creator = task_get_id p s2; refcount = 0 })

  unfoldable pub find_next : ℕ → Os K → Result ℕ × Os K
  find_next idtype s =
      let max_id = get_max_for_object_type idtype in
      if max_id == 0
      then (fail os_err_not_implemented, s)
      else elim (find_free max_id idtype max_id
          (to_serial_number (s.objtype_state idtype).last_id_issued) s) [
            | none ↦ (fail os_err_no_free_ids, s)
            | some (idvalue, local_id) ↦ (ok local_id, claim idtype idvalue local_id s)
          ]

  -- OS_ObjectIdAllocateNew under the lock, up to the unlocking.
  unfoldable pub allocate_locked : ℕ → Option Text → Os K → Result ℕ × Os K
  allocate_locked idtype name s = elim (is_taken idtype name s) [
    | some i ↦ (fail os_err_name_taken, s)
    | none ↦ announce idtype (find_next idtype s)
  ]

  unfoldable pub unlock_failed : ℕ → Result ℕ × Os K → Result ℕ × Os K
  unlock_failed idtype (ok i, s) = (ok i, s)
  unlock_failed idtype (fail code, s) = (fail code, unlock_global p idtype s)

  unfoldable pub allocate_new : ℕ → Option Text → Os K → Result ℕ × Os K
  allocate_new idtype name s =
      if not s.initialized || s.shutdown_flag == shutdown_magic_number
      then (fail os_error, s)
      else if leb ObjectType.user idtype
      then (fail os_err_incorrect_obj_type, s)
      else unlock_failed idtype (allocate_locked idtype name (lock_global p idtype s))

  -- The code, and what goes out through `outid`.
  unfoldable pub finalize_new : ℤ → ℕ → Os K → ℤ × ℕ × Os K
  finalize_new status e s =
      let idtype = to_type (s.common_table e).active_id in
      let (code, s') = settle_new status e s in
      let id = (s'.common_table e).active_id in
      (code, id, notify_defined resource_created id (unlock_global p idtype s'))

  unfoldable pub finalize_delete : ℤ → ℕ → Os K → ℤ × Os K
  finalize_delete status e s =
      let r = s.common_table e in
      let idtype = to_type r.active_id in
      if is_success status
      then (
        status,
        notify_defined resource_deleted r.active_id
            (unlock_global p idtype (set_record s e (record r { active_id = undefined_id }))),
      )
      else (status, unlock_global p idtype s)
