-- ===== src/Common.antt =====
-- The event handler and the shutdown of the API: osal/src/os/shared/src/osapi-common.c.
pub mod Shutdown
pub mod Lifecycle
pub mod Objects
use hello_world_osal.Base.{
  ℕ, ℤ, Bool, Option, none, some, if◌then◌else◌, os_success, os_invalid_pointer,
}
use hello_world_osal.Idmap.State.{Event, Os, shutdown_magic_number}

module _ {K : Type 0} where
  -- A NULL handler is `none`.
  unfoldable pub register_event_handler : Option (Event → ℕ → ℤ) → Os K → ℤ × Os K
  register_event_handler none s = (os_invalid_pointer, s)
  register_event_handler (some handler) s = (os_success, record s { event_handler = some handler })

  -- The first argument is OS_ApplicationShutdown_Impl.
  unfoldable pub application_shutdown : (K → K) → Bool → Os K → Os K
  application_shutdown impl flag s =
      let s' = if flag then record s { shutdown_flag = shutdown_magic_number } else s in
      record s' { kernel = impl s'.kernel }
