-- ===== src/Idmap/Lookup.antt =====
-- Finding an object of the table by ID, by name or by a match function (osapi-idmap.c), and
-- OS_TaskGetId (osapi-task.c), which is such a search.
pub mod Discipline
pub mod Search
use hello_world_osal.Base.{
  ℕ, zero, suc, ◌+◌, ◌-◌, ℤ, Bool, true, false, not, ◌&&◌, ◌||◌, Option, none, some, Text, [], ◌==◌,
  ltb, leb, if◌then◌else◌, is_success, str_eq, length, take, os_success, os_error,
  os_invalid_pointer, os_err_name_too_long, os_err_name_not_found, os_err_invalid_id,
  os_err_incorrect_obj_state,
}
use hello_world_osal.Idmap.ObjectType
use hello_world_osal.Idmap.Id.{
  Result, ok, fail, is_defined, undefined_id, to_type, entry, get_max_for_object_type,
  to_array_index,
}
use hello_world_osal.Idmap.State.{CommonRecord, Os, Port, set_record, shutdown_magic_number}
use hello_world_osal.Idmap.Lock.{
  LockMode, unlocked, global, exclusive, refcounted, lock_global, unlock_global, initiate_lock,
  convert_lock,
}

-- OS_MAX_API_NAME
abbrev pub max_api_name : ℕ
max_api_name = 20

abbrev pub Match : Type 0
Match = ℕ → CommonRecord → Bool

-- The first argument is the name that is looked for.
unfoldable pub object_name_match : Text → Match
object_name_match ref local_id r = elim r.name_entry [ none ↦ false | some n ↦ str_eq ref n ]

-- A code beside the value that goes with success.
abbrev pub result_of {ℓ} : {A : Type ℓ} → ℤ → A → Result A
result_of code a = if is_success code then ok a else fail code

module _ {K : Type 0} where
  -- The loop of OS_ObjectIdSearch with `count` objects to go.
  unfoldable pub search_from : ℕ → ℕ → ℕ → Match → Os K → Option ℕ
  search_from zero idtype local_id match s = none
  search_from (suc count) idtype local_id match s =
      let r = s.common_table (entry idtype local_id) in
      let rest = search_from count idtype (local_id + 1) match s in
      if is_defined r.active_id && match local_id r then some local_id else rest

  -- `none` is OS_ERR_NAME_NOT_FOUND.
  unfoldable pub search : ℕ → Match → Os K → Option ℕ
  search idtype match s = search_from (get_max_for_object_type idtype) idtype 0 match s

module _ {K : Type 0} (p : Port K) where
  -- OS_Unlock_Global, but under OS_LOCK_MODE_NONE.
  unfoldable pub release_lock : LockMode → ℕ → Os K → Os K
  release_lock unlocked idtype s = s
  release_lock global idtype s = unlock_global p idtype s
  release_lock exclusive idtype s = unlock_global p idtype s
  release_lock refcounted idtype s = unlock_global p idtype s

  -- OS_ObjectIdConvertLock on the object `local_id`, which goes to the caller on success.
  unfoldable pub convert_found : LockMode → ℕ → ℕ → ℕ → Os K → Result ℕ × Os K
  convert_found mode idtype reference_id local_id s =
      let (code, s') = convert_lock p mode idtype reference_id (entry idtype local_id) s in
      (result_of code local_id, s')

  unfoldable pub get_by_search : LockMode → ℕ → Match → Os K → Result ℕ × Os K
  get_by_search mode idtype match s =
      let s' = initiate_lock p mode idtype s in
      elim (search idtype match s') [
        | some i ↦ convert_found mode idtype (s'.common_table (entry idtype i)).active_id i s'
        | none ↦ (fail os_err_name_not_found, release_lock mode idtype s')
      ]

  unfoldable pub get_by_name : LockMode → ℕ → Text → Os K → Result ℕ × Os K
  get_by_name mode idtype name s = get_by_search mode idtype (object_name_match name) s

  -- The ID goes out through `object_id` on success.
  unfoldable pub export_id : ℕ → Result ℕ × Os K → Result ℕ × Os K
  export_id idtype (ok i, s) =
      (ok (s.common_table (entry idtype i)).active_id, unlock_global p idtype s)
  export_id idtype (fail code, s) = (fail code, s)

  -- A NULL name is `none`.
  unfoldable pub find_by_name : ℕ → Option Text → Os K → Result ℕ × Os K
  find_by_name idtype none s = (fail os_err_name_not_found, s)
  find_by_name idtype (some name) s =
      if leb max_api_name (length name)
      then (fail os_err_name_too_long, s)
      else export_id idtype (get_by_name global idtype name s)

  abbrev is_exclusive : LockMode → Bool
  is_exclusive exclusive = true
  is_exclusive _ = false

  unfoldable pub get_by_id : LockMode → ℕ → ℕ → Os K → Result ℕ × Os K
  get_by_id mode idtype id s =
      if not s.initialized
      then (fail os_error, s)
      else if s.shutdown_flag == shutdown_magic_number && not (is_exclusive mode)
      then (fail os_err_incorrect_obj_state, s)
      else elim (to_array_index idtype id) [
        | fail code ↦ (fail code, s)
        | ok i ↦ convert_found mode idtype id i (initiate_lock p mode idtype s)
      ]

  -- LOCK_MODE_NONE leaves the state as it is.
  unfoldable pub task_get_id : Os K → ℕ
  task_get_id s = elim (get_by_id unlocked ObjectType.task p.task_id s).0 [
    | ok i ↦ p.task_id
    | fail code ↦ undefined_id
  ]

  -- `--record->refcount`, under the lock.
  unfoldable pub drop_reference : ℕ → Os K → ℤ × Os K
  drop_reference e s =
      let r = s.common_table e in
      if ltb 0 r.refcount
      then (os_success, set_record s e (record r { refcount = r.refcount - 1 }))
      else (os_err_incorrect_obj_state, s)

  unfoldable pub refcount_decr : ℕ → Os K → ℤ × Os K
  refcount_decr e s =
      let id = (s.common_table e).active_id in
      let idtype = to_type id in
      if idtype == 0 || not (is_defined id)
      then (os_err_invalid_id, s)
      else (let (code, s') = drop_reference e (lock_global p idtype s) in
          (code, unlock_global p idtype s'))

  -- The code, and the string in the buffer of `size` characters.
  unfoldable pub copy_name : ℕ → Option Text → ℤ × Text
  copy_name size none = (os_success, [])
  copy_name size (some name) =
      if leb size (length name)
      then (os_err_name_too_long, take (size - 1) name)
      else (os_success, take (length name) name)

  unfoldable pub fill_name : ℕ → ℕ → Result ℕ × Os K → ℤ × Text × Os K
  fill_name size idtype (fail code, s) = (code, [], s)
  fill_name size idtype (ok i, s) =
      let (code, text) = copy_name size (s.common_table (entry idtype i)).name_entry in
      (code, text, unlock_global p idtype s)

  -- A NULL buffer is `none`, else its size. A text goes out only through a buffer.
  unfoldable pub get_resource_name : ℕ → Option ℕ → Os K → ℤ × Option Text × Os K
  get_resource_name object_id none s = (os_invalid_pointer, none, s)
  get_resource_name object_id (some size) s =
      if size == 0
      then (os_invalid_pointer, none, s)
      else (let idtype = to_type object_id in
          let (code, text, s') = fill_name size idtype (get_by_id global idtype object_id s) in
          (code, some text, s'))
