-- ===== src/Socket/Bound.antt =====
-- OS_SocketBind (osapi-sockets.c) on a stream in use, while no other task runs.
use hello_world_osal.Base.{
  ℕ, ◌+◌, ◌*◌, ◌/◌, ◌%◌, ◌^◌, ◌≡◌, ◌≢◌, ◌⊎◌, sym, ap, subst, ◌∙◌, arith, ℤ, true, false, some, none,
  Text, bit_and, bit_or, bit_and_mask, bit_or_fields, is_success, os_err_incorrect_obj_state, inl,
  inr, Bool-cases,
}
use hello_world_osal.Idmap.ObjectType
use hello_world_osal.Idmap.Id.{entry}
use hello_world_osal.Idmap.State.{Os, Port, CommonRecord}
use hello_world_osal.Idmap.Tables.{StreamRecord}
use hello_world_osal.Idmap.Lock.{lock_global, unlock_global}
use hello_world_osal.File.Reference.{IsUsable, lock_global-only, unlock_global-only}
use hello_world_osal.File.Usable.{
  get_by_id-here, IsUsable-owners, IsUsable-lock_global, IsUsable-unlock_global,
}
use hello_world_osal.Socket.{
  SocketImpl, bound, bound_or_connected, give_name, socket_name, bind_socket, bind_found,
  socket_bind,
}

bound-mask : (x : ℕ) → bit_and x 3 ≡ 0 → bit_and (bit_or x 1) 3 ≢ 0
bound-mask x h =
    let four : x % 2 ^ 2 ≡ 0 = sym (bit_and_mask 2 x) ∙ h in
    let whole : x ≡ x / 4 * 2 ^ 2 = omega (arith, four) in
    let next : bit_or x 1 ≡ x / 4 * 2 ^ 2 + 1 =
      ap (λ y. bit_or y 1) whole ∙ bit_or_fields 2 (x / 4) 1 (omega arith) in
    λ q. omega (arith, sym (bit_and_mask 2 (bit_or x 1)) ∙ q, next)

module _ {K A : Type 0} (p : Port K) (impl : SocketImpl K A) where
  socket_bind-here :
      (id i : ℕ) (addr : A) (s : Os K)
      → IsUsable p id i s
      → let (code, s1) = bind_socket p impl i addr (lock_global p ObjectType.stream s) in
        socket_bind p impl id (some addr) s ≡ (code, unlock_global p ObjectType.stream s1)
  unfolding socket_bind bind_found
  socket_bind-here id i addr s u = ap (bind_found p impl addr) (get_by_id-here p id i s u)

  bind_socket-ok :
      (i : ℕ) (addr : A) (s : Os K)
      → is_success (bind_socket p impl i addr s).0 ≡ true
      → ((s.common_table (entry ObjectType.stream i)).refcount ≡ 0)
        × (bit_and (s.stream_table i).stream_state bound_or_connected ≡ 0)
        × ((s.stream_table i).socket_domain ≢ 0)
        × ((bind_socket p impl i addr s).1
            ≡ give_name i
                (socket_name impl addr none)
                bound
                (record s { kernel = (impl.bind_impl i addr s).1 }))
  unfolding bind_socket
  bind_socket-ok i addr s fine = ground (arith, fine)

  bind_socket-bad :
      (i : ℕ) (addr : A) (s : Os K)
      → is_success (bind_socket p impl i addr s).0 ≡ false
      → let s' = (bind_socket p impl i addr s).1 in
        (s'.common_table ≡ s.common_table) × (s'.stream_table ≡ s.stream_table)
  unfolding bind_socket
  bind_socket-bad i addr s bad = ground (arith, bad)

  bind_socket-again :
      (i : ℕ) (addr : A) (s : Os K)
      → (s.stream_table i).socket_domain ≢ 0
      → bit_and (s.stream_table i).stream_state bound_or_connected ≢ 0
      → (bind_socket p impl i addr s).0 ≡ os_err_incorrect_obj_state
  unfolding bind_socket
  bind_socket-again i addr s socket taken = ground (arith, socket, taken)

  IsUsable-give_name :
      (id i flags : ℕ) (name : Text) (s : Os K)
      → IsUsable p id i s
      → IsUsable p id i (give_name i name flags s)
  unfolding give_name
  IsUsable-give_name id i flags name s u = record {
    on = u.on;
    running = u.running;
    place = u.place;
    live = ground (arith, u.live);
    clear = ground (arith, u.clear);
    few = ground (arith, u.few);
  }

  give_name-stream :
      (i flags : ℕ) (name : Text) (s : Os K)
      → let r = (give_name i name flags s).stream_table i in
        (r.socket_domain ≡ (s.stream_table i).socket_domain)
        × (r.stream_state ≡ bit_or (s.stream_table i).stream_state flags)
        × (((give_name i name flags s).common_table (entry ObjectType.stream i)).name_entry
            ≡ some name)
  unfolding give_name
  give_name-stream i flags name s = ground arith

  -- What a successful bind leaves behind.
  pub record IsBound (id i : ℕ) (addr : A) (s s' : Os K) : Type 0 where
    pub unused : (s.common_table (entry ObjectType.stream i)).refcount ≡ 0
    pub free : bit_and (s.stream_table i).stream_state bound_or_connected ≡ 0
    pub socket : (s.stream_table i).socket_domain ≢ 0
    pub name :
        (s'.common_table (entry ObjectType.stream i)).name_entry ≡ some (socket_name impl addr none)
    pub once : (other : A) → (socket_bind p impl id (some other) s').0 ≡ os_err_incorrect_obj_state

  module _ (id i : ℕ) (addr : A) (s : Os K) (u : IsUsable p id i s) where
    abbrev begun : Os K
    begun = lock_global p ObjectType.stream s

    begun-same : (begun.common_table ≡ s.common_table) × (begun.stream_table ≡ s.stream_table)
    begun-same = (
      ap (λ (q : Os K). q.common_table) (lock_global-only p ObjectType.stream s),
      ap (λ (q : Os K). q.stream_table) (lock_global-only p ObjectType.stream s),
    )

    abbrev ended : Os K
    ended = (socket_bind p impl id (some addr) s).1

    bind-IsBound : is_success (bind_socket p impl i addr begun).0 ≡ true → IsBound id i addr s ended
    bind-IsBound fine =
        let t = ObjectType.stream in
        let (unused, free, socket, after) = bind_socket-ok i addr begun fine in
        let s1 = record begun { kernel = (impl.bind_impl i addr begun).1 } in
        let named = socket_name impl addr none in
        let s2 = give_name i named bound s1 in
        let end : ended ≡ unlock_global p t s2 =
          ap (λ (r : ℤ × Os K). r.1) (socket_bind-here id i addr s u)
          ∙ ap (unlock_global p t) after in
        let u0 = IsUsable-lock_global p id i t s u in
        let u1 = IsUsable-owners p id i begun begun.objtype_state s1.kernel u0 in
        let u2 = IsUsable-give_name id i bound named s1 u1 in
        let u3 = IsUsable-unlock_global p id i t s2 u2 in
        let (domain, state, name) = give_name-stream i bound named s1 in
        let streams3 : (lock_global p t (unlock_global p t s2)).stream_table ≡ s2.stream_table =
          ap (λ (q : Os K). q.stream_table) (lock_global-only p t (unlock_global p t s2))
          ∙ ap (λ (q : Os K). q.stream_table) (unlock_global-only p t s2) in
        record {
          unused =
              ap (λ (c : ℕ → CommonRecord). (c (entry t i)).refcount) (sym begun-same.0) ∙ unused;
          free =
              ap (λ (c : ℕ → StreamRecord). bit_and (c i).stream_state bound_or_connected)
                (sym begun-same.1)
              ∙ free;
          socket = subst (λ (c : ℕ → StreamRecord). (c i).socket_domain ≢ 0) begun-same.1 socket;
          name =
              ap (λ (q : Os K). (q.common_table (entry t i)).name_entry)
                (end ∙ unlock_global-only p t s2)
              ∙ name;
          once = λ other.
              subst
                (λ (q : Os K).
                  (socket_bind p impl id (some other) q).0 ≡ os_err_incorrect_obj_state)
                (sym end)
                (ap (λ (r : ℤ × Os K). r.0) (socket_bind-here id i other (unlock_global p t s2) u3)
                  ∙ bind_socket-again i other (lock_global p t (unlock_global p t s2))
                      (subst (λ (c : ℕ → StreamRecord). (c i).socket_domain ≢ 0) (sym streams3)
                        (subst (λ d. d ≢ 0) (sym domain) socket))
                      (subst
                        (λ (c : ℕ → StreamRecord).
                          bit_and (c i).stream_state bound_or_connected ≢ 0)
                        (sym streams3)
                        (subst (λ d. bit_and d bound_or_connected ≢ 0) (sym state)
                          (bound-mask (begun.stream_table i).stream_state free))));
        }

    -- OS_SocketBind on a stream in use: on success it was a socket without references that was
    -- neither bound nor connected, it now has the address as its name, and a second bind, to
    -- whatever address, returns OS_ERR_INCORRECT_OBJ_STATE; else no record of the common table or
    -- of the streams has changed.
    pub socket_bind-IsBound :
        let (code, s') = socket_bind p impl id (some addr) s in
        ((is_success code ≡ true) × IsBound id i addr s s')
        ⊎ ((is_success code ≡ false)
            × (s'.common_table ≡ s.common_table)
            × (s'.stream_table ≡ s.stream_table))
    socket_bind-IsBound =
        let t = ObjectType.stream in
        let here = socket_bind-here id i addr s u in
        let code = ap (λ (r : ℤ × Os K). is_success r.0) here in
        elim (Bool-cases (is_success (bind_socket p impl i addr begun).0)) [
          | inl fine ↦ inl (code ∙ fine, bind-IsBound fine)
          | inr bad ↦
              let (table, streams) = bind_socket-bad i addr begun bad in
              let end : ended ≡ unlock_global p t (bind_socket p impl i addr begun).1 =
                ap (λ (r : ℤ × Os K). r.1) here in
              let only = end ∙ unlock_global-only p t (bind_socket p impl i addr begun).1 in
              inr (
                code ∙ bad,
                ap (λ (q : Os K). q.common_table) only ∙ table ∙ begun-same.0,
                ap (λ (q : Os K). q.stream_table) only ∙ streams ∙ begun-same.1,
              )
        ]
