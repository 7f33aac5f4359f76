-- ===== src/Select.antt =====
-- Sets of streams and the calls that wait on them: osal/src/os/shared/src/osapi-select.c.
pub mod Bits
use hello_world_osal.Base.{
  ℕ, ◌-◌, ◌/◌, ◌%◌, ◌^◌, bit_and, bit_or, ℤ, Bool, true, false, not, ◌==◌, Option, none, some,
  update, os_success, os_invalid_pointer,
}
use hello_world_osal.Idmap.ObjectType
use hello_world_osal.Idmap.Id.{Result, ok, fail, entry, to_array_index}
use hello_world_osal.Idmap.State.{Os, Port}
use hello_world_osal.Idmap.Lock.{refcounted}
use hello_world_osal.Idmap.Lookup.{get_by_id, refcount_decr}

-- OS_FdSet: the bytes of `object_ids`.
abbrev pub FdSet : Type 0
FdSet = ℕ → ℕ

-- `1 << (local_id & 0x7)`
abbrev pub bit_of : ℕ → ℕ
bit_of local_id = 2 ^ bit_and local_id 7

unfoldable pub select_fd_zero : Option FdSet → ℤ × Option FdSet
select_fd_zero none = (os_invalid_pointer, none)
select_fd_zero (some set) = (os_success, some (λ i. 0))

unfoldable pub add_index : Result ℕ → FdSet → ℤ × Option FdSet
add_index (fail code) set = (code, some set)
add_index (ok i) set =
    (os_success, some (update set (i / 8) (bit_or (set (i / 8)) (bit_of i) % 2 ^ 8)))

unfoldable pub clear_index : Result ℕ → FdSet → ℤ × Option FdSet
clear_index (fail code) set = (code, some set)
clear_index (ok i) set =
    (os_success, some (update set (i / 8) (bit_and (set (i / 8)) (2 ^ 32 - 1 - bit_of i) % 2 ^ 8)))

unfoldable pub has_index : Result ℕ → FdSet → Bool
has_index (fail code) set = false
has_index (ok i) set = not (bit_and (set (i / 8) / bit_of i) 1 == 0)

-- A NULL pointer for the set is `none`; the set that it then points to comes second.
unfoldable pub select_fd_add : Option FdSet → ℕ → ℤ × Option FdSet
select_fd_add none id = (os_invalid_pointer, none)
select_fd_add (some set) id = add_index (to_array_index ObjectType.stream id) set

unfoldable pub select_fd_clear : Option FdSet → ℕ → ℤ × Option FdSet
select_fd_clear none id = (os_invalid_pointer, none)
select_fd_clear (some set) id = clear_index (to_array_index ObjectType.stream id) set

unfoldable pub select_fd_is_set : Option FdSet → ℕ → Bool
select_fd_is_set none id = false
select_fd_is_set (some set) id = has_index (to_array_index ObjectType.stream id) set

-- The OS_Select*_Impl functions, which block and return the state that they come back to. The flags
-- and the sets, read and written through pointers, follow the code.
pub record SelectImpl (K : Type 0) : Type 0 where
  pub single_impl : ℕ → ℕ → ℤ → Os K → ℤ × ℕ × Os K
  pub multiple_impl :
      Option FdSet → Option FdSet → ℤ → Os K → ℤ × Option FdSet × Option FdSet × Os K

module _ {K : Type 0} (p : Port K) (impl : SelectImpl K) where
  unfoldable pub wait_single : ℕ → ℤ → Result ℕ × Os K → ℤ × Option ℕ × Os K
  wait_single flags msecs (fail code, s) = (code, some flags, s)
  wait_single flags msecs (ok i, s) =
      let (code, flags', s1) = impl.single_impl i flags msecs s in
      (code, some flags', (refcount_decr p (entry ObjectType.stream i) s1).1)

  -- A NULL pointer for the flags is `none`.
  unfoldable pub select_single : ℕ → Option ℕ → ℤ → Os K → ℤ × Option ℕ × Os K
  select_single id none msecs s = (os_invalid_pointer, none, s)
  select_single id (some flags) msecs s =
      wait_single flags msecs (get_by_id p refcounted ObjectType.stream id s)

  unfoldable pub select_multiple :
      Option FdSet → Option FdSet → ℤ → Os K → ℤ × Option FdSet × Option FdSet × Os K
  select_multiple read write msecs s = impl.multiple_impl read write msecs s
