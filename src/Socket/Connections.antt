-- ===== src/Socket/Connections.antt =====
-- OS_SocketAccept and OS_SocketConnect (osapi-sockets.c).
use hello_world_osal.Base.{
  ℕ, bit_and, bit_or, ℤ, Bool, true, false, not, ◌&&◌, ◌==◌, Option, none, some, if◌then◌else◌,
  is_success, os_success, os_invalid_pointer, os_err_incorrect_obj_state, os_err_incorrect_obj_type,
}
use hello_world_osal.Idmap.ObjectType
use hello_world_osal.Idmap.Id.{Result, ok, fail, entry}
use hello_world_osal.Idmap.State.{Os, Port}
use hello_world_osal.Idmap.Lock.{global, refcounted, lock_global, unlock_global}
use hello_world_osal.Idmap.Lookup.{get_by_id, refcount_decr}
use hello_world_osal.Idmap.Alloc.{allocate_new, finalize_new}
use hello_world_osal.Socket.{
  stream_socket, bound, connected, bound_or_connected, connected_both_ways, SocketImpl, set_stream,
  give_name, count_up, count_down, take_back, socket_store, socket_name,
}

module _ {K A : Type 0} (p : Port K) (impl : SocketImpl K A) where
  -- The connection that the socket `i` is to accept: its index, and the ID that goes out.
  unfoldable pub new_connection : ℕ → Result ℕ × Os K → ℤ × ℕ × Option ℕ × Os K
  new_connection i (fail code, s) = (code, 0, none, s)
  new_connection i (ok c, s) =
      let r = s.stream_table i in
      let s1 = count_up c (socket_store r.socket_domain r.socket_type c s) in
      let (code, id, s2) = finalize_new p os_success (entry ObjectType.stream c) s1 in
      (code, c, some id, s2)

  unfoldable pub prepare_accept : ℕ → Os K → ℤ × ℕ × Option ℕ × Os K
  prepare_accept i s =
      let r = s.stream_table i in
      if not (r.socket_type == stream_socket)
      then (os_err_incorrect_obj_type, 0, none, s)
      else if not (bit_and r.stream_state bound_or_connected == bound)
      then (os_err_incorrect_obj_state, 0, none, s)
      else new_connection i (allocate_new p ObjectType.stream none s)

  -- From the wait of OS_SocketAccept on, with the socket `i` and the connection `c`.
  unfoldable pub accept_connection : ℕ → ℕ → A → ℤ → Os K → ℤ × A × Os K
  accept_connection i c addr timeout s =
      let blank = (impl.addr_init_impl addr (s.stream_table i).socket_domain).1 in
      let (code, remote, s1) = impl.accept_impl i c blank timeout s in
      let s2 = lock_global p ObjectType.stream s1 in
      let parent = (s2.common_table (entry ObjectType.stream i)).name_entry in
      let s3 =
        if is_success code
        then give_name c (socket_name impl remote parent) connected s2
        else take_back c s2 in
      (code, remote, unlock_global p ObjectType.stream (count_down c (count_down i s3)))

  unfoldable pub accept_found : A → ℤ → Result ℕ × Os K → ℤ × Option ℕ × A × Os K
  accept_found addr timeout (fail code, s) = (code, none, addr, s)
  accept_found addr timeout (ok i, s) =
      let (code, c, out, s1) = prepare_accept i s in
      let (status, remote, s2) = accept_connection i c addr timeout s1 in
      if is_success code
      then (status, out, remote, s2)
      else (code, out, addr, (refcount_decr p (entry ObjectType.stream i) s1).1)

  -- The pointer for the connection's ID is `false` if it is NULL. The ID and the address go out.
  unfoldable pub socket_accept : ℕ → Bool → Option A → ℤ → Os K → ℤ × Option ℕ × Option A × Os K
  socket_accept id out none timeout s = (os_invalid_pointer, none, none, s)
  socket_accept id false (some addr) timeout s = (os_invalid_pointer, none, some addr, s)
  socket_accept id true (some addr) timeout s =
      let (code, out, remote, s') =
        accept_found addr timeout (get_by_id p refcounted ObjectType.stream id s) in
      (code, out, some remote, s')

  -- A socket that may connect gets one reference more.
  unfoldable pub prepare_connect : ℕ → Os K → ℤ × Os K
  prepare_connect i s =
      let r = s.stream_table i in
      if r.socket_domain == 0
      then (os_err_incorrect_obj_type, s)
      else if r.socket_type == stream_socket && not (bit_and r.stream_state connected == 0)
      then (os_err_incorrect_obj_state, s)
      else (os_success, count_up i s)

  unfoldable pub connect : ℕ → A → ℤ → Os K → ℤ × Os K
  connect i addr timeout s =
      let (code, s1) = impl.connect_impl i addr timeout s in
      let s2 = lock_global p ObjectType.stream s1 in
      let r = s2.stream_table i in
      let s3 =
        if is_success code
        then set_stream i (record r { stream_state = bit_or r.stream_state connected_both_ways }) s2
        else s2 in
      (code, unlock_global p ObjectType.stream (count_down i s3))

  unfoldable pub connect_found : A → ℤ → Result ℕ × Os K → ℤ × Os K
  connect_found addr timeout (fail code, s) = (code, s)
  connect_found addr timeout (ok i, s) =
      let (code, s1) = prepare_connect i s in
      let s2 = unlock_global p ObjectType.stream s1 in
      if is_success code then connect i addr timeout s2 else (code, s2)

  unfoldable pub socket_connect : ℕ → Option A → ℤ → Os K → ℤ × Os K
  socket_connect id none timeout s = (os_invalid_pointer, s)
  socket_connect id (some addr) timeout s =
      connect_found addr timeout (get_by_id p global ObjectType.stream id s)
