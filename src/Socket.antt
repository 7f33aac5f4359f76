-- ===== src/Socket.antt =====
-- Sockets: osal/src/os/shared/src/osapi-sockets.c.
pub mod Connections
pub mod Calls
pub mod Bound
pub mod Accepting
pub mod Refused
use Prim.{Unit, tt}
use mathlib.Core.Option
use hello_world_osal.Base.{
  ℕ, ◌+◌, ◌-◌, ◌%◌, ◌^◌, bit_and, bit_or, ℤ, Bool, true, false, not, ◌||◌, ◌&&◌, ◌==◌, Option, none,
  some, Text, [], ◌∷◌, ◌++◌, if◌then◌else◌, take, update, is_success, os_success,
  os_invalid_pointer, os_err_incorrect_obj_state, os_err_incorrect_obj_type,
}
use hello_world_osal.Idmap.ObjectType
use hello_world_osal.Idmap.Id.{Result, ok, fail, entry, undefined_id}
use hello_world_osal.Idmap.Tables.{StreamRecord, zero_stream}
use hello_world_osal.Idmap.State.{Os, Port, CommonRecord, set_record}
use hello_world_osal.Idmap.Lock.{global, refcounted, lock_global, unlock_global}
use hello_world_osal.Idmap.Lookup.{max_api_name, get_by_id, refcount_decr}
use hello_world_osal.Idmap.Alloc.{allocate_new, finalize_new}
use hello_world_osal.Service.{build, get_id_by_name}
use hello_world_osal.FileSys.{max_path_len}
use hello_world_osal.File.{on_reference}

-- OS_SocketType_DATAGRAM and OS_SocketType_STREAM
abbrev pub datagram_socket : ℕ
datagram_socket = 1

abbrev pub stream_socket : ℕ
stream_socket = 2

-- OS_STREAM_STATE_BOUND, OS_STREAM_STATE_CONNECTED, and the two as a mask
abbrev pub bound : ℕ
bound = 1

abbrev pub connected : ℕ
connected = 2

abbrev pub bound_or_connected : ℕ
bound_or_connected = 3

-- OS_STREAM_STATE_CONNECTED | OS_STREAM_STATE_READABLE | OS_STREAM_STATE_WRITABLE
abbrev pub connected_both_ways : ℕ
connected_both_ways = 14

-- OS_socket_prop_t. The name is `none` if the code reads through a NULL `name_entry`.
pub record SocketProp : Type 0 where
  pub name : Option Text
  pub creator : ℕ

-- The OS_Socket*_Impl functions on addresses of the type `A`, and what `%u` prints. The functions on
-- addresses get the address or the buffer that they write to as it was before.
pub record SocketImpl (K A : Type 0) : Type 0 where
  pub open_impl : ℕ → Os K → ℤ × K
  pub bind_impl : ℕ → A → Os K → ℤ × K
  pub accept_impl : ℕ → ℕ → A → ℤ → Os K → ℤ × A × Os K
  pub connect_impl : ℕ → A → ℤ → Os K → ℤ × Os K
  pub recv_from_impl : ℕ → Text → Option A → ℤ → Os K → ℤ × (Text × Option A) × Os K
  pub send_to_impl : ℕ → Text → Option A → Os K → ℤ × Os K
  pub get_info_impl : ℕ → K → SocketProp → ℤ × SocketProp
  pub addr_init_impl : A → ℕ → ℤ × A
  pub addr_to_string_impl : ℕ → A → ℤ × Text
  pub addr_from_string_impl : A → Text → ℤ × A
  pub addr_get_port_impl : A → ℤ × ℕ
  pub addr_set_port_impl : A → ℕ → ℤ × A
  pub unsigned : ℕ → Text

module _ {K : Type 0} where
  -- Nothing to set up.
  unfoldable pub socket_api_init : Os K → ℤ × Os K
  socket_api_init s = (os_success, s)

  abbrev pub set_stream : ℕ → StreamRecord → Os K → Os K
  set_stream i r s = record s { stream_table = update s.stream_table i r }

  -- `stream_name` is written, `name_entry` points to it, and flags are set.
  unfoldable pub give_name : ℕ → Text → ℕ → Os K → Os K
  give_name i name flags s =
      let e = entry ObjectType.stream i in
      let r = s.stream_table i in
      set_stream i (record r { stream_name = name; stream_state = bit_or r.stream_state flags })
        (set_record s e (record (s.common_table e) { name_entry = some name }))

  -- `++refcount` and `--refcount` of a `uint16`
  unfoldable pub count_up : ℕ → Os K → Os K
  count_up i s =
      let e = entry ObjectType.stream i in
      let r = s.common_table e in set_record s e (record r { refcount = (r.refcount + 1) % 2 ^ 16 })

  unfoldable pub count_down : ℕ → Os K → Os K
  count_down i s =
      let e = entry ObjectType.stream i in
      let r = s.common_table e in
      set_record s e (record r { refcount = (r.refcount + (2 ^ 16 - 1)) % 2 ^ 16 })

  unfoldable pub take_back : ℕ → Os K → Os K
  take_back i s =
      let e = entry ObjectType.stream i in
      set_record s e (record (s.common_table e) { active_id = undefined_id })

  -- The record of a new socket.
  unfoldable pub socket_store : ℕ → ℕ → ℕ → Os K → Os K
  socket_store domain kind i s =
      set_stream i (record zero_stream { socket_domain = domain; socket_type = kind }) s

module _ {K A : Type 0} (impl : SocketImpl K A) where
  -- `address:port` within OS_MAX_API_NAME.
  unfoldable pub address_name : A → Text
  address_name addr =
      let (status, text) = impl.addr_to_string_impl max_api_name addr in
      let (port_status, port) = impl.addr_get_port_impl addr in
      let host : Text = if is_success status then text else [] in
      take (max_api_name - 1)
        (if is_success port_status then host ++ (58 ∷ impl.unsigned port) else host)

  -- OS_CreateSocketName. A NULL name of a parent is `none`; else it follows a '-'.
  unfoldable pub socket_name : A → Option Text → Text
  socket_name addr none = address_name addr
  socket_name addr (some parent) = take (max_path_len - 1) (address_name addr ++ (45 ∷ parent))

module _ {K A : Type 0} (p : Port K) (impl : SocketImpl K A) where
  -- A NULL pointer for the ID is `false`.
  unfoldable pub socket_open : Bool → ℕ → ℕ → Os K → ℤ × Option ℕ × Os K
  socket_open false domain kind s = (os_invalid_pointer, none, s)
  socket_open true domain kind s =
      build p ObjectType.stream (socket_store domain kind) impl.open_impl
        (allocate_new p ObjectType.stream none s)

  unfoldable pub bind_socket : ℕ → A → Os K → ℤ × Os K
  bind_socket i addr s =
      let r = s.stream_table i in
      let (code, k) = impl.bind_impl i addr s in
      let s1 = record s { kernel = k } in
      if r.socket_domain == 0
      then (os_err_incorrect_obj_type, s)
      else if not ((s.common_table (entry ObjectType.stream i)).refcount == 0)
          || not (bit_and r.stream_state bound_or_connected == 0)
      then (os_err_incorrect_obj_state, s)
      else if is_success code
      then (code, give_name i (socket_name impl addr none) bound s1)
      else (code, s1)

  unfoldable pub bind_found : A → Result ℕ × Os K → ℤ × Os K
  bind_found addr (fail code, s) = (code, s)
  bind_found addr (ok i, s) =
      let (code, s1) = bind_socket i addr s in (code, unlock_global p ObjectType.stream s1)

  -- A NULL address is `none`.
  unfoldable pub socket_bind : ℕ → Option A → Os K → ℤ × Os K
  socket_bind id none s = (os_invalid_pointer, s)
  socket_bind id (some addr) s = bind_found addr (get_by_id p global ObjectType.stream id s)
