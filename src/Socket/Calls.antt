-- ===== src/Socket/Calls.antt =====
-- Datagrams, what is known of a socket, and the calls on addresses (osapi-sockets.c).
use Prim.{Unit, tt}
use mathlib.Core.Option
use hello_world_osal.Base.{
  ℕ, ◌-◌, bit_and, ℤ, Bool, true, false, not, ◌==◌, Option, none, some, Text, [], ◌∷◌,
  if◌then◌else◌, take, os_invalid_pointer, os_err_incorrect_obj_state, os_err_incorrect_obj_type,
}
use hello_world_osal.Idmap.ObjectType
use hello_world_osal.Idmap.Id.{Result, ok, fail, entry}
use hello_world_osal.Idmap.State.{Os, Port}
use hello_world_osal.Idmap.Lock.{global, refcounted, unlock_global}
use hello_world_osal.Idmap.Lookup.{max_api_name, get_by_id}
use hello_world_osal.Service.{get_id_by_name}
use hello_world_osal.File.{on_reference}
use hello_world_osal.Socket.{datagram_socket, bound, SocketProp, SocketImpl}

module _ {K A : Type 0} (p : Port K) (impl : SocketImpl K A) where
  unfoldable pub receive : Text → Option A → ℤ → ℕ → Os K → ℤ × (Text × Option A) × Os K
  receive buffer remote timeout i s =
      let r = s.stream_table i in
      if not (r.socket_type == datagram_socket)
      then (os_err_incorrect_obj_type, (buffer, remote), s)
      else if bit_and r.stream_state bound == 0
      then (os_err_incorrect_obj_state, (buffer, remote), s)
      else impl.recv_from_impl i buffer remote timeout s

  -- The buffer and the address go out, if there are any.
  unfoldable pub socket_recv_from :
      ℕ → Option Text → Option A → ℤ → Os K → ℤ × Option Text × Option A × Os K
  socket_recv_from id none remote timeout s = (os_invalid_pointer, none, remote, s)
  socket_recv_from id (some []) remote timeout s = (os_invalid_pointer, some [], remote, s)
  socket_recv_from id (some (b ∷ buffer)) remote timeout s =
      let (code, after, s') =
        on_reference p (b ∷ buffer, remote) (receive (b ∷ buffer) remote timeout)
          (get_by_id p refcounted ObjectType.stream id s) in
      (code, some after.0, after.1, s')

  unfoldable pub send : Text → Option A → ℕ → Os K → ℤ × Unit {0} × Os K
  send buffer remote i s =
      let (code, s') = impl.send_to_impl i buffer remote s in
      if not ((s.stream_table i).socket_type == datagram_socket)
      then (os_err_incorrect_obj_type, tt, s)
      else (code, tt, s')

  unfoldable pub socket_send_to : ℕ → Option Text → Option A → Os K → ℤ × Os K
  socket_send_to id none remote s = (os_invalid_pointer, s)
  socket_send_to id (some []) remote s = (os_invalid_pointer, s)
  socket_send_to id (some (b ∷ buffer)) remote s =
      let (code, _, s') =
        on_reference p tt (send (b ∷ buffer) remote)
          (get_by_id p refcounted ObjectType.stream id s) in
      (code, s')

  unfoldable pub socket_get_id_by_name : Bool → Option Text → Os K → ℤ × Option ℕ × Os K
  socket_get_id_by_name out name s = get_id_by_name p ObjectType.stream out name s

  unfoldable pub describe_socket : Result ℕ × Os K → ℤ × SocketProp × Os K
  describe_socket (fail code, s) = (code, record { name = some []; creator = 0 }, s)
  describe_socket (ok i, s) =
      let r = s.common_table (entry ObjectType.stream i) in
      let (code, prop) = impl.get_info_impl i s.kernel (record {
        name = Option.map (take (max_api_name - 1)) r.name_entry;
        creator = r.creator;
      }) in
      (code, prop, unlock_global p ObjectType.stream s)

  unfoldable pub socket_get_info : Bool → ℕ → Os K → ℤ × Option SocketProp × Os K
  socket_get_info false id s = (os_invalid_pointer, none, s)
  socket_get_info true id s =
      let (code, prop, s') = describe_socket (get_by_id p global ObjectType.stream id s) in
      (code, some prop, s')

module _ {K A : Type 0} (impl : SocketImpl K A) where
  -- NULL pointers are `none`, or `false` for what is only written.
  unfoldable pub socket_addr_init : Option A → ℕ → ℤ × Option A
  socket_addr_init none domain = (os_invalid_pointer, none)
  socket_addr_init (some addr) domain =
      let (code, addr') = impl.addr_init_impl addr domain in (code, some addr')

  unfoldable pub socket_addr_to_string : Bool → ℕ → Option A → ℤ × Option Text
  socket_addr_to_string out buflen none = (os_invalid_pointer, none)
  socket_addr_to_string false buflen (some addr) = (os_invalid_pointer, none)
  socket_addr_to_string true buflen (some addr) =
      let (code, text) = impl.addr_to_string_impl buflen addr in
      if buflen == 0 then (os_invalid_pointer, none) else (code, some text)

  unfoldable pub socket_addr_from_string : Option A → Option Text → ℤ × Option A
  socket_addr_from_string none text = (os_invalid_pointer, none)
  socket_addr_from_string (some addr) none = (os_invalid_pointer, some addr)
  socket_addr_from_string (some addr) (some text) =
      let (code, addr') = impl.addr_from_string_impl addr text in (code, some addr')

  unfoldable pub socket_addr_get_port : Bool → Option A → ℤ × Option ℕ
  socket_addr_get_port false addr = (os_invalid_pointer, none)
  socket_addr_get_port true none = (os_invalid_pointer, none)
  socket_addr_get_port true (some addr) =
      let (code, port) = impl.addr_get_port_impl addr in (code, some port)

  unfoldable pub socket_addr_set_port : Option A → ℕ → ℤ × Option A
  socket_addr_set_port none port = (os_invalid_pointer, none)
  socket_addr_set_port (some addr) port =
      let (code, addr') = impl.addr_set_port_impl addr port in (code, some addr')
