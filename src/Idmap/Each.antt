-- ===== src/Idmap/Each.antt =====
-- OS_ForEachObject and OS_ForEachObjectOfType (osapi-idmap.c).
use hello_world_osal.Base.{ℕ, zero, suc, ◌+◌, not, ◌&&◌, ◌==◌, if◌then◌else◌, ltb}
use hello_world_osal.Idmap.ObjectType
use hello_world_osal.Idmap.Id.{
  is_defined, undefined_id, get_max_for_object_type, get_base_for_object_type,
}
use hello_world_osal.Idmap.State.{CommonRecord, Os, Port}
use hello_world_osal.Idmap.Lock.{lock_global, unlock_global}

-- OS_OBJECT_CREATOR_ANY
abbrev pub creator_any : ℕ
creator_any = undefined_id

-- The ID that the callback gets for a record; none if undefined.
unfoldable pub visible_id : ℕ → CommonRecord → ℕ
visible_id creator_id r =
    if is_defined r.active_id && not (creator_id == creator_any) && not (r.creator == creator_id)
    then undefined_id
    else r.active_id

-- The argument of the callback is passed on from one call to the next.
module _ {K A : Type 0} (p : Port K) (callback : ℕ → A → Os K → A × Os K) where
  -- The callback runs with the table unlocked, and may call anything.
  unfoldable pub call_back : ℕ → ℕ → A × Os K → A × Os K
  call_back idtype id (arg, s) =
      let (arg', s') = callback id arg (unlock_global p idtype s) in
      if is_defined id then (arg', lock_global p idtype s') else (arg, s)

  unfoldable pub each_from : ℕ → ℕ → ℕ → ℕ → A × Os K → A × Os K
  each_from zero idtype creator_id obj_index (arg, s) = (arg, s)
  each_from (suc count) idtype creator_id obj_index (arg, s) =
      each_from count idtype creator_id (obj_index + 1)
        (call_back idtype (visible_id creator_id (s.common_table obj_index)) (arg, s))

  unfoldable pub for_each_object_of_type : ℕ → ℕ → A × Os K → A × Os K
  for_each_object_of_type idtype creator_id (arg, s) =
      let obj_max = get_max_for_object_type idtype in
      let (arg', s') =
        each_from obj_max idtype creator_id (get_base_for_object_type idtype)
          (arg, lock_global p idtype s) in
      if ltb 0 obj_max then (arg', unlock_global p idtype s') else (arg, s)

  -- The loop over the types from `idtype` on, `count` of them.
  unfoldable pub each_type : ℕ → ℕ → ℕ → A × Os K → A × Os K
  each_type zero idtype creator_id r = r
  each_type (suc count) idtype creator_id r =
      each_type count (idtype + 1) creator_id (for_each_object_of_type idtype creator_id r)

  unfoldable pub for_each_object : ℕ → A × Os K → A × Os K
  for_each_object creator_id r = each_type ObjectType.user 0 creator_id r
