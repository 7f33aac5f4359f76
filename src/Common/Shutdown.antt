-- ===== src/Common/Shutdown.antt =====
-- The object table while the API shuts down.
use hello_world_osal.Base.{
  ℕ, ◌≡◌, ◌≢◌, refl, arith, ℤ, true, none, Text, os_error, os_err_incorrect_obj_state,
}
use hello_world_osal.Idmap.Id.{fail}
use hello_world_osal.Idmap.State.{Os, Port}
use hello_world_osal.Idmap.Lock.{LockMode, unlocked, global, exclusive, refcounted}
use hello_world_osal.Idmap.Lookup.{get_by_id}
use hello_world_osal.Idmap.Alloc.{allocate_new}
use hello_world_osal.Service.{build, create}
use hello_world_osal.Common.{application_shutdown}

module _ {K : Type 0} (p : Port K) (impl : K → K) (s : Os K) where
  -- A shutdown request stops an initialised API: create calls return OS_ERROR, lookups in a mode
  -- other than EXCLUSIVE return OS_ERR_INCORRECT_OBJ_STATE, and neither changes the state.
  application_shutdown_lem :
      (t id : ℕ) (mode : LockMode) (store : ℕ → Os K → Os K) (make : ℕ → Os K → ℤ × K) (name : Text)
      → s.initialized ≡ true
      → mode ≢ exclusive
      → let s' = application_shutdown impl true s in
        (create p t store make name s' ≡ (os_error, none, s'))
        × (get_by_id p mode t id s' ≡ (fail os_err_incorrect_obj_state, s'))
  unfolding create build allocate_new get_by_id application_shutdown
  application_shutdown_lem t id unlocked store make name on ne = ground arith
  application_shutdown_lem t id global store make name on ne = ground arith
  application_shutdown_lem t id refcounted store make name on ne = ground arith
  application_shutdown_lem t id exclusive store make name on ne = absurd (ne refl)
