-- ===== src/Socket/Refused.antt =====
-- The table of objects after OS_SocketAccept has failed (osapi-sockets.c), while no other task runs.
use native.Mathlib.Decide.{ℕ_discrete}
use hello_world_osal.Base.{
  ℕ, ◌+◌, ◌%◌, ◌^◌, ◌<◌, ◌≡◌, ◌≢◌, inl, inr, refl, sym, ap, subst, ◌∙◌, arith, ℤ, true, false,
  Option, some, none, is_success, os_success,
}
use hello_world_osal.Idmap.ObjectType
use hello_world_osal.Idmap.Id.{Result, ok, fail, entry, to_type}
use hello_world_osal.Idmap.State.{Os, Port, CommonRecord, ObjtypeState}
use hello_world_osal.Idmap.Lock.{lock_global}
use hello_world_osal.Idmap.Frame.{lock_global-Same, unlock_global-Same}
use hello_world_osal.Idmap.Alloc.{allocate_new, finalize_new}
use hello_world_osal.Idmap.Alloc.Settled.{IsTyped, finalize_new-ok}
use hello_world_osal.Idmap.Alloc.Allocated.{Allocated, allocate_new-Allocated}
use hello_world_osal.Idmap.Alloc.Codes.{FailsBadly, allocate_new-FailsBadly}
use hello_world_osal.Service.Create.Failure.{Accepts, allocate_new-KeepsOnFail}
use hello_world_osal.File.Reference.{IsUsable, IsUsable-pos, get_by_id-held, held}
use hello_world_osal.Socket.{SocketImpl, count_up, count_down, take_back, socket_store}
use hello_world_osal.Socket.Connections.{
  new_connection, prepare_accept, accept_connection, socket_accept,
}
use hello_world_osal.Socket.Accepting.{
  referred-id, referred-count, Fits-typed, Restored, undone, stored, finish, prepare_accept-cases,
  socket_accept-found, finish-bad, finish-good, given_back-Restored,
}

module _ {K A : Type 0} (p : Port K) (impl : SocketImpl K A) where
  module _
      (quiet : (i c : ℕ) (addr : A) (timeout : ℤ) (q : Os K)
        → (k : K) × ((impl.accept_impl i c addr timeout q).2 ≡ record q { kernel = k })) where
    accept_connection-undone :
        (i c : ℕ) (addr : A) (timeout : ℤ) (s : Os K)
        → is_success (accept_connection p impl i c addr timeout s).0 ≡ false
        → (q : Os K) × (q.common_table ≡ s.common_table)
          × ((accept_connection p impl i c addr timeout s).2.common_table
              ≡ (count_down c (count_down i (take_back c q))).common_table)
    unfolding accept_connection
    accept_connection-undone i c addr timeout s bad =
        let t = ObjectType.stream in
        let start = (impl.addr_init_impl addr (s.stream_table i).socket_domain).1 in
        let (code, remote, s1) = impl.accept_impl i c start timeout s in
        let s2 = lock_global p t s1 in
        let (k, same) = quiet i c start timeout s in
        (
          s2,
          (lock_global-Same p t s1).table ∙ ap (λ (x : Os K). x.common_table) same,
          (unlock_global-Same p t _).table ∙ rw bad refl,
        )

    -- A failure after a connection was allocated.
    allocated-Restored :
        (id i c : ℕ) (addr : A) (timeout : ℤ) (s : Os K) (o : ℕ → ObjtypeState) (s1 q : Os K)
        → IsUsable p id i s
        → Allocated p ObjectType.stream c (held p i s o) s1
        → ((e : ℕ) → (q.common_table e).active_id ≡ (s1.common_table e).active_id)
          × ((e : ℕ) → e ≢ entry ObjectType.stream c → q.common_table e ≡ s1.common_table e)
        → is_success (accept_connection p impl i c addr timeout q).0 ≡ false
        → Restored i s (accept_connection p impl i c addr timeout q).2
    allocated-Restored id i c addr timeout s o s1 q u a (ids, records) bad =
        let ei = entry ObjectType.stream i in
        let ec = entry ObjectType.stream c in
        let (q2, same, after) = accept_connection-undone i c addr timeout q bad in
        let h = held p i s o in
        let apart : ei ≢ ec = λ z. IsUsable-pos p id i s u (
          sym u.live
          ∙ sym (referred-id ei ei s.common_table)
          ∙ ap (λ e. (h.common_table e).active_id) z
          ∙ a.was_free) in
        let (gone, others, count) = undone i c q2 apart in
        let id_at = λ (e : ℕ) (t : ℕ → CommonRecord). (t e).active_id in
        let count_at = λ (t : ℕ → CommonRecord). (t ei).refcount in
        let counted : (h.common_table ei).refcount ≡ (s.common_table ei).refcount + 1 =
          referred-count ei s.common_table u.few in
        (
          λ e. ap (id_at e) after ∙ elim (ℕ_discrete e ec) [
            | yes z ↦
                ap (λ g. id_at g (count_down c (count_down i (take_back c q2))).common_table) z
                ∙ gone
                ∙ sym a.was_free
                ∙ referred-id ei ec s.common_table
                ∙ ap (λ g. id_at g s.common_table) (sym z)
            | no ne ↦
                others e ne
                ∙ ap (id_at e) same
                ∙ ids e
                ∙ ap (λ (r : CommonRecord). r.active_id) (a.others e ne)
                ∙ referred-id ei e s.common_table
          ],
          ap count_at after
              ∙ count
              ∙ ap (λ n. (n + 65535) % 2 ^ 16)
                  (ap count_at same
                    ∙ ap (λ (r : CommonRecord). r.refcount) (records ei apart ∙ a.others ei apart)
                    ∙ counted)
              ∙ omega (arith, u.few),
        )

    -- The whole of OS_SocketAccept once a place was asked for.
    connection-Restored :
        (id i : ℕ) (addr : A) (timeout : ℤ) (s : Os K) (o : ℕ → ObjtypeState) (r : Result ℕ × Os K)
        → IsUsable p id i s
        → Accepts s
        → allocate_new p ObjectType.stream none (held p i s o) ≡ r
        → is_success (finish p impl i addr timeout (new_connection p impl i r)).0 ≡ false
        → Restored i s (finish p impl i addr timeout (new_connection p impl i r)).3
    unfolding new_connection
    connection-Restored id i addr timeout s o (fail code, s1) u accepts e bad =
        let h = held p i s o in
        let fails : is_success code ≡ false =
          subst FailsBadly e (allocate_new-FailsBadly p ObjectType.stream none h) in
        let kept =
          allocate_new-KeepsOnFail p ObjectType.stream none h accepts code
            (ap (λ (r : Result ℕ × Os K). r.0) e) in
        subst (λ (r : ℤ × Option ℕ × A × Os K). Restored i s r.3)
          (sym (finish-bad p impl i 0 addr timeout code none s1 fails))
          (given_back-Restored p impl id i s s1 u
            (sym (ap (λ (r : Result ℕ × Os K). r.1.common_table) e) ∙ kept))
    connection-Restored id i addr timeout s o (ok c, s1) u accepts e bad =
        let ec = entry ObjectType.stream c in
        let r = s1.stream_table i in
        let q = count_up c (socket_store r.socket_domain r.socket_type c s1) in
        let (a, _) = allocate_new-Allocated p ObjectType.stream none c (held p i s o) s1 e in
        let (ids, records) = stored c r.socket_domain r.socket_type s1 in
        let typed : IsTyped ec q =
          subst (λ id. (to_type id ≢ 0) × (to_type id < ObjectType.user)) (sym (ids ec))
            (Fits-typed c (s1.common_table ec).active_id a.fits) in
        let (code, out, same) = finalize_new-ok p os_success ec q refl typed in
        let (code1, out1, q1) = finalize_new p os_success ec q in
        let good = finish-good p impl i c addr timeout code1 (some out1) q1 code in
        let fails = sym (ap (λ (r : ℤ × Option ℕ × A × Os K). is_success r.0) good) ∙ bad in
        subst (λ (r : ℤ × Option ℕ × A × Os K). Restored i s r.3) (sym good)
          (allocated-Restored id i c addr timeout s o s1 q1 u a
            (
              λ g. ap (λ (t : ℕ → CommonRecord). (t g).active_id) same.table ∙ ids g,
              λ g ne. ap (λ (t : ℕ → CommonRecord). t g) same.table ∙ records g ne,
            )
            fails)

    -- If OS_SocketAccept on a stream in use fails, every place has the ID that it had and the
    -- stream as many references, if the event handler refuses no new ID and the layer below
    -- changes no state but its own.
    pub socket_accept-Restored :
        (id i : ℕ) (addr : A) (timeout : ℤ) (s : Os K)
        → IsUsable p id i s
        → Accepts s
        → let (code, out, remote, s') = socket_accept p impl id true (some addr) timeout s in
          is_success code ≡ false → Restored i s s'
    socket_accept-Restored id i addr timeout s u accepts bad =
        let (o, found) = get_by_id-held p id i s u in
        let h = held p i s o in
        let here = socket_accept-found p impl id i addr timeout s h found in
        let result = λ (r : ℤ × ℕ × Option ℕ × Os K). finish p impl i addr timeout r in
        let code = ap (λ (r : ℤ × Option ℕ × Option A × Os K). is_success r.0) here in
        subst (λ (q : Os K). Restored i s q)
          (sym (ap (λ (r : ℤ × Option ℕ × Option A × Os K). r.3) here))
          (elim (prepare_accept-cases p impl i h) [
            | inl (refused, same) ↦
                let r = prepare_accept p impl i h in
                subst (λ (x : ℤ × Option ℕ × A × Os K). Restored i s x.3)
                  (sym (finish-bad p impl i r.1 addr timeout r.0 r.2 r.3 refused))
                  (given_back-Restored p impl id i s r.3 u (ap (λ (q : Os K). q.common_table) same))
            | inr e ↦
                subst
                  (λ (r : ℤ × ℕ × Option ℕ × Os K). Restored i s (finish p impl i addr timeout r).3)
                  (sym e)
                  (connection-Restored id i addr timeout s o
                    (allocate_new p ObjectType.stream none h) u accepts refl
                    (sym (ap (λ (r : ℤ × ℕ × Option ℕ × Os K). is_success (result r).0) e)
                      ∙ sym code
                      ∙ bad))
          ])
