-- ===== src/Service/BinSem.antt =====
-- Binary semaphores: osal/src/os/shared/src/osapi-binsem.c.
use hello_world_osal.Base.{
  ℕ, ℤ, Bool, true, false, Option, none, some, Text, [], leb, if◌then◌else◌, length, update,
  os_invalid_pointer, os_err_name_too_long,
}
use hello_world_osal.Idmap.ObjectType
use hello_world_osal.Idmap.Id.{entry}
use hello_world_osal.Idmap.State.{Os, Port, set_record}
use hello_world_osal.Idmap.Lookup.{max_api_name}
use hello_world_osal.Service.{Prop, create, delete, operate, get_id_by_name, get_info}

-- The OS_BinSem*_Impl functions. The blocking ones return the state that they come back to.
pub record BinSemImpl (K : Type 0) : Type 0 where
  pub create_impl : ℕ → ℕ → ℕ → Os K → ℤ × K
  pub delete_impl : ℕ → Os K → ℤ × K
  pub give_impl : ℕ → Os K → ℤ × Os K
  pub flush_impl : ℕ → Os K → ℤ × Os K
  pub take_impl : ℕ → Os K → ℤ × Os K
  pub timed_wait_impl : ℕ → ℕ → Os K → ℤ × Os K
  pub get_info_impl : ℕ → K → ℤ × ℕ

module _ {K : Type 0} where
  unfoldable pub bin_sem_api_init : Os K → Os K
  bin_sem_api_init s = record s { bin_sem_table = λ i. [] }

  -- `strcpy` into the local table, and `name_entry` to that.
  unfoldable pub bin_sem_store : Text → ℕ → Os K → Os K
  bin_sem_store name i s =
      let e = entry ObjectType.binsem i in
      record (set_record s e (record (s.common_table e) { name_entry = some name })) {
        bin_sem_table = update s.bin_sem_table i name;
      }

module _ {K : Type 0} (p : Port K) (impl : BinSemImpl K) where
  -- The pointer for the ID is `false` if it is NULL, a NULL name `none`.
  unfoldable pub bin_sem_create : Bool → Option Text → ℕ → ℕ → Os K → ℤ × Option ℕ × Os K
  bin_sem_create false name value options s = (os_invalid_pointer, none, s)
  bin_sem_create true none value options s = (os_invalid_pointer, none, s)
  bin_sem_create true (some name) value options s =
      if leb max_api_name (length name)
      then (os_err_name_too_long, none, s)
      else create p ObjectType.binsem (bin_sem_store name) (λ i. impl.create_impl i value options)
          name s

  unfoldable pub bin_sem_delete : ℕ → Os K → ℤ × Os K
  bin_sem_delete id s = delete p ObjectType.binsem impl.delete_impl id s

  unfoldable pub bin_sem_give : ℕ → Os K → ℤ × Os K
  bin_sem_give id s = operate p ObjectType.binsem impl.give_impl id s

  unfoldable pub bin_sem_flush : ℕ → Os K → ℤ × Os K
  bin_sem_flush id s = operate p ObjectType.binsem impl.flush_impl id s

  unfoldable pub bin_sem_take : ℕ → Os K → ℤ × Os K
  bin_sem_take id s = operate p ObjectType.binsem impl.take_impl id s

  unfoldable pub bin_sem_timed_wait : ℕ → ℕ → Os K → ℤ × Os K
  bin_sem_timed_wait id msecs s =
      operate p ObjectType.binsem (λ i. impl.timed_wait_impl i msecs) id s

  unfoldable pub bin_sem_get_id_by_name : Bool → Option Text → Os K → ℤ × Option ℕ × Os K
  bin_sem_get_id_by_name out name s = get_id_by_name p ObjectType.binsem out name s

  unfoldable pub bin_sem_get_info : Bool → ℕ → Os K → ℤ × Option Prop × Os K
  bin_sem_get_info out id s = get_info p ObjectType.binsem impl.get_info_impl out id s
