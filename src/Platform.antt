-- ===== src/Platform.antt =====
-- The calls that check an argument and hand it on: osal/src/os/shared/src/osapi-clock.c, osapi-heap.c,
-- osapi-network.c and osapi-shell.c.
use hello_world_osal.Base.{
  ℕ, ℤ, negsuc, Option, none, some, Text, [], ◌==◌, if◌then◌else◌, is_success, os_success, os_error,
  os_invalid_pointer,
}
use hello_world_osal.Idmap.ObjectType
use hello_world_osal.Idmap.State.{Os, Port}
use hello_world_osal.Idmap.Lock.{refcounted}
use hello_world_osal.Idmap.Lookup.{get_by_id}
use hello_world_osal.File.{on_reference}

-- OS_time_t
pub record Time : Type 0 where
  pub seconds : ℕ
  pub microsecs : ℕ

-- OS_heap_prop_t
pub record HeapProp : Type 0 where
  pub free_bytes : ℕ
  pub free_blocks : ℕ
  pub largest_free_block : ℕ

-- The functions of the layer below; what a call writes to comes as it was before.
pub record PlatformImpl (K : Type 0) : Type 0 where
  pub get_local_time_impl : Time → K → ℤ × Time × K
  pub set_local_time_impl : Time → K → ℤ × K
  pub heap_impl : HeapProp → K → ℤ × HeapProp
  pub host_name_impl : ℕ → K → ℤ × Text
  pub network_id_impl : K → ℤ × ℤ
  pub shell_impl : ℕ → Text → Os K → ℤ × Os K

module _ {K : Type 0} where
  -- Nothing to set up.
  unfoldable pub network_api_init : Os K → ℤ × Os K
  network_api_init s = (os_success, s)

module _ {K : Type 0} (p : Port K) (impl : PlatformImpl K) where
  -- A NULL pointer is `none`.
  unfoldable pub get_local_time : Option Time → Os K → ℤ × Option Time × Os K
  get_local_time none s = (os_invalid_pointer, none, s)
  get_local_time (some time) s =
      let (code, time', k) = impl.get_local_time_impl time s.kernel in
      (code, some time', record s { kernel = k })

  unfoldable pub set_local_time : Option Time → Os K → ℤ × Os K
  set_local_time none s = (os_invalid_pointer, s)
  set_local_time (some time) s =
      let (code, k) = impl.set_local_time_impl time s.kernel in (code, record s { kernel = k })

  unfoldable pub heap_get_info : Option HeapProp → Os K → ℤ × Option HeapProp
  heap_get_info none s = (os_invalid_pointer, none)
  heap_get_info (some prop) s =
      let (code, prop') = impl.heap_impl prop s.kernel in (code, some prop')

  -- What the buffer holds comes in, none for NULL, and goes out.
  unfoldable pub network_get_host_name : Option Text → ℕ → Os K → ℤ × Option Text
  network_get_host_name none name_len s = (os_invalid_pointer, none)
  network_get_host_name (some before) name_len s =
      let (code, name) = impl.host_name_impl name_len s.kernel in
      if name_len == 0
      then (os_error, some before)
      else if is_success code
      then (code, some name)
      else (code, some [])

  unfoldable pub network_get_id : Os K → ℤ
  network_get_id s =
      let (code, id) = impl.network_id_impl s.kernel in if is_success code then id else negsuc 0

  unfoldable pub shell_output_to_file : Option Text → ℕ → Os K → ℤ × Os K
  shell_output_to_file none filedes s = (os_invalid_pointer, s)
  shell_output_to_file (some cmd) filedes s =
      let (code, _, s') =
        on_reference p tt (λ i s1. (let (code, s2) = impl.shell_impl i cmd s1 in (code, tt, s2)))
          (get_by_id p refcounted ObjectType.stream filedes s) in
      (code, s')
