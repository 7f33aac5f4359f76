-- ===== src/Tests/Sockets.antt =====
-- A socket that is not bound, and a layer below that always agrees. Addresses are numbers.
use hello_world_osal.Base.{
  ℕ, ◌≡◌, ◌⊎◌, refl, arith, true, false, [], ◌∷◌, some, ◌==◌, if◌then◌else◌, is_success, os_success,
  os_error,
}
use hello_world_osal.Idmap.Id.{
  compose, to_array_index, to_type, to_serial_number, get_max_for_object_type,
  get_base_for_object_type,
}
use hello_world_osal.Idmap.Tables.{zero_stream}
use hello_world_osal.Idmap.State.{Os, zero_record}
use hello_world_osal.Idmap.Lock.{
  initiate_lock, convert_lock, convert_loop, try_lock, try_mode, try_refcount, finish_convert,
  clear_bits, lock_global, unlock_global, self_owner,
}
use hello_world_osal.Idmap.Lookup.{get_by_id, convert_found}
use hello_world_osal.Idmap.Alloc.{
  notify_event, notify_defined, find_free, is_taken, announce, claim, find_next, allocate_locked,
  unlock_failed, allocate_new, settle_new, finalize_new,
}
use hello_world_osal.File.{pend}
use hello_world_osal.File.Reference.{IsUsable}
use hello_world_osal.Socket.{
  SocketImpl, stream_socket, bound, socket_bind, socket_store, count_up, count_down, take_back,
}
use hello_world_osal.Socket.Bound.{IsBound, socket_bind-IsBound}
use hello_world_osal.Socket.Connections.{
  new_connection, prepare_accept, accept_connection, accept_found, socket_accept,
}
use hello_world_osal.Socket.Accepting.{Restored}
use hello_world_osal.Socket.Refused.{socket_accept-Restored}
use hello_world_osal.Tests.{idle, blank, agree}

abbrev sockets : SocketImpl ℕ ℕ
sockets = record {
  open_impl = agree;
  bind_impl = λ i addr. agree i;
  accept_impl = λ i c addr timeout s. (os_success, addr, s);
  connect_impl = λ i addr timeout s. (os_success, s);
  recv_from_impl = λ i buffer remote timeout s. (os_success, (buffer, remote), s);
  send_to_impl = λ i buffer remote s. (os_success, s);
  get_info_impl = λ i k prop. (os_success, prop);
  addr_init_impl = λ addr domain. (os_success, 0);
  addr_to_string_impl = λ size addr. (os_success, addr ∷ []);
  addr_from_string_impl = λ addr text. (os_success, addr);
  addr_get_port_impl = λ addr. (os_success, addr);
  addr_set_port_impl = λ addr port. (os_success, port);
  unsigned = λ n. 48 ∷ [];
}

-- Place 0 is a stream socket.
abbrev with_socket : Os ℕ
with_socket = record blank {
  common_table = λ e. if 188 == e then record zero_record { active_id = 0x6_0000 } else zero_record;
  stream_table = λ i. record zero_stream { socket_domain = 1; socket_type = stream_socket };
}

with_socket-IsUsable : IsUsable idle 0x6_0000 0 with_socket
unfolding to_array_index to_type to_serial_number get_max_for_object_type get_base_for_object_type
with_socket-IsUsable = record {
  on = refl;
  running = λ e. omega (arith, e);
  place = refl;
  live = refl;
  clear = refl;
  few = omega arith;
}

socket_bind-IsBound_example :
    let (code, s') = socket_bind idle sockets 0x6_0000 (some 80) with_socket in
    ((is_success code ≡ true) × IsBound idle sockets 0x6_0000 0 80 with_socket s')
    ⊎ ((is_success code ≡ false)
        × (s'.common_table ≡ with_socket.common_table)
        × (s'.stream_table ≡ with_socket.stream_table))
socket_bind-IsBound_example =
    socket_bind-IsBound idle sockets 0x6_0000 0 80 with_socket with_socket-IsUsable

-- No connection ever comes.
abbrev no_clients : SocketImpl ℕ ℕ
no_clients = record sockets { accept_impl = λ i c addr timeout s. (os_error, addr, s) }

abbrev bound_socket : Os ℕ
bound_socket = record with_socket {
  stream_table = λ i. record zero_stream {
    socket_domain = 1;
    socket_type = stream_socket;
    stream_state = bound;
  };
}

bound_socket-IsUsable : IsUsable idle 0x6_0000 0 bound_socket
bound_socket-IsUsable = record {
  on = refl;
  running = with_socket-IsUsable.running;
  place = with_socket-IsUsable.place;
  live = with_socket-IsUsable.live;
  clear = with_socket-IsUsable.clear;
  few = with_socket-IsUsable.few;
}

no_client :
    is_success (socket_accept idle no_clients 0x6_0000 true (some 80) pend bound_socket).0 ≡ false
unfolding socket_accept accept_found prepare_accept new_connection accept_connection socket_store
    count_up count_down take_back get_by_id initiate_lock convert_found convert_lock convert_loop
    try_lock try_mode try_refcount finish_convert clear_bits lock_global unlock_global
    get_max_for_object_type get_base_for_object_type to_type to_serial_number to_array_index
    self_owner allocate_new allocate_locked is_taken find_next find_free claim announce
    unlock_failed notify_event finalize_new settle_new notify_defined compose
no_client = refl

socket_accept-Restored_example :
    let (code, out, remote, s') =
      socket_accept idle no_clients 0x6_0000 true (some 80) pend bound_socket in
    Restored 0 bound_socket s'
socket_accept-Restored_example =
    socket_accept-Restored idle no_clients (λ i c addr timeout q. (q.kernel, refl)) 0x6_0000 0 80
      pend bound_socket bound_socket-IsUsable (λ handler e. absurd (ground (arith, e))) no_client
