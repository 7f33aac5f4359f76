-- ===== src/Service/Mutex.antt =====
-- Mutexes: osal/src/os/shared/src/osapi-mutex.c.
use hello_world_osal.Base.{
  ℕ, ℤ, Bool, true, false, Option, none, some, Text, [], leb, if◌then◌else◌, length, update,
  is_success, os_invalid_pointer, os_err_name_too_long,
}
use hello_world_osal.Idmap.ObjectType
use hello_world_osal.Idmap.Id.{entry, undefined_id}
use hello_world_osal.Idmap.State.{Os, Port, set_record}
use hello_world_osal.Idmap.Lookup.{max_api_name, task_get_id}
use hello_world_osal.Service.{Prop, create, delete, operate, get_id_by_name, get_info}

-- The OS_MutSem*_Impl functions.
pub record MutexImpl (K : Type 0) : Type 0 where
  pub create_impl : ℕ → ℕ → Os K → ℤ × K
  pub delete_impl : ℕ → Os K → ℤ × K
  pub give_impl : ℕ → Os K → ℤ × Os K
  pub take_impl : ℕ → Os K → ℤ × Os K
  pub get_info_impl : ℕ → K → ℤ × ℕ

module _ {K : Type 0} where
  unfoldable pub mutex_api_init : Os K → Os K
  mutex_api_init s = record s {
    mutex_table = λ i. record { obj_name = []; last_owner = undefined_id };
  }

  unfoldable pub mutex_store : Text → ℕ → Os K → Os K
  mutex_store name i s =
      let e = entry ObjectType.mutex i in
      record (set_record s e (record (s.common_table e) { name_entry = some name })) {
        mutex_table = update s.mutex_table i (record (s.mutex_table i) { obj_name = name });
      }

  unfoldable pub set_last_owner : ℕ → ℕ → Os K → Os K
  set_last_owner i id s = record s {
    mutex_table = update s.mutex_table i (record (s.mutex_table i) { last_owner = id });
  }

module _ {K : Type 0} (p : Port K) (impl : MutexImpl K) where
  -- The owner is forgotten before the mutex is given; a wrong owner only draws a debug message.
  unfoldable pub give_found : ℕ → Os K → ℤ × Os K
  give_found i s = impl.give_impl i (set_last_owner i undefined_id s)

  unfoldable pub take_found : ℕ → Os K → ℤ × Os K
  take_found i s =
      let (status, s') = impl.take_impl i s in
      if is_success status then (status, set_last_owner i (task_get_id p s') s') else (status, s')

  unfoldable pub mut_sem_create : Bool → Option Text → ℕ → Os K → ℤ × Option ℕ × Os K
  mut_sem_create false name options s = (os_invalid_pointer, none, s)
  mut_sem_create true none options s = (os_invalid_pointer, none, s)
  mut_sem_create true (some name) options s =
      if leb max_api_name (length name)
      then (os_err_name_too_long, none, s)
      else create p ObjectType.mutex (mutex_store name) (λ i. impl.create_impl i options) name s

  unfoldable pub mut_sem_delete : ℕ → Os K → ℤ × Os K
  mut_sem_delete id s = delete p ObjectType.mutex impl.delete_impl id s

  unfoldable pub mut_sem_give : ℕ → Os K → ℤ × Os K
  mut_sem_give id s = operate p ObjectType.mutex give_found id s

  unfoldable pub mut_sem_take : ℕ → Os K → ℤ × Os K
  mut_sem_take id s = operate p ObjectType.mutex take_found id s

  unfoldable pub mut_sem_get_id_by_name : Bool → Option Text → Os K → ℤ × Option ℕ × Os K
  mut_sem_get_id_by_name out name s = get_id_by_name p ObjectType.mutex out name s

  unfoldable pub mut_sem_get_info : Bool → ℕ → Os K → ℤ × Option Prop × Os K
  mut_sem_get_info out id s = get_info p ObjectType.mutex impl.get_info_impl out id s
