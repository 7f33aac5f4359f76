-- ===== src/Socket/Accepting.antt =====
-- The parts of OS_SocketAccept (osapi-sockets.c).
use hello_world_osal.Base.{
  ℕ, ◌+◌, ◌%◌, ◌^◌, ◌<◌, ◌≡◌, ◌≢◌, ◌⊎◌, refl, ap, ◌∙◌, arith, ℤ, true, false, Option, some, none,
  if◌then◌else◌, is_success, os_success,
}
use hello_world_osal.Idmap.ObjectType
use hello_world_osal.Idmap.Id.{Result, ok, entry, to_type}
use hello_world_osal.Idmap.Invariant.{Fits}
use hello_world_osal.Idmap.State.{Os, Port, CommonRecord}
use hello_world_osal.Idmap.Lock.{refcounted}
use hello_world_osal.Idmap.Lookup.{get_by_id, refcount_decr}
use hello_world_osal.Idmap.Alloc.{allocate_new}
use hello_world_osal.File.Reference.{IsUsable, refcount_decr-table, referred}
use hello_world_osal.Socket.{SocketImpl, count_up, count_down, take_back, socket_store}
use hello_world_osal.Socket.Connections.{
  new_connection, prepare_accept, accept_connection, accept_found, socket_accept,
}

pub referred-id :
    (e g : ℕ) (table : ℕ → CommonRecord) → (referred e table g).active_id ≡ (table g).active_id
referred-id e g table = ground arith

pub referred-count :
    (e : ℕ) (table : ℕ → CommonRecord)
    → (table e).refcount < 65535
    → (referred e table e).refcount ≡ (table e).refcount + 1
referred-count e table few = ground (arith, few)

pub Fits-typed :
    (c id : ℕ) → Fits ObjectType.stream c id → (to_type id ≢ 0) × (to_type id < ObjectType.user)
unfolding to_type
Fits-typed c id f = omega (arith, f.kind)

module _ {K : Type 0} where
  -- Every place has the ID that it had, and the stream `i` as many references.
  abbrev pub Restored : ℕ → Os K → Os K → Type 0
  Restored i s s' =
      ((e : ℕ) → (s'.common_table e).active_id ≡ (s.common_table e).active_id)
      × ((s'.common_table (entry ObjectType.stream i)).refcount
          ≡ (s.common_table (entry ObjectType.stream i)).refcount)

  pub undone :
      (i c : ℕ) (s : Os K)
      → entry ObjectType.stream i ≢ entry ObjectType.stream c
      → let table = (count_down c (count_down i (take_back c s))).common_table in
        ((table (entry ObjectType.stream c)).active_id ≡ 0)
        × ((e : ℕ)
            → e ≢ entry ObjectType.stream c
            → (table e).active_id ≡ (s.common_table e).active_id)
        × ((table (entry ObjectType.stream i)).refcount
            ≡ ((s.common_table (entry ObjectType.stream i)).refcount + 65535) % 2 ^ 16)
  unfolding count_down take_back
  undone i c s ne = ground arith

  pub stored :
      (c domain kind : ℕ) (s : Os K)
      → let table = (count_up c (socket_store domain kind c s)).common_table in
        ((e : ℕ) → (table e).active_id ≡ (s.common_table e).active_id)
        × ((e : ℕ) → e ≢ entry ObjectType.stream c → table e ≡ s.common_table e)
  unfolding count_up socket_store
  stored c domain kind s = ground arith

module _ {K A : Type 0} (p : Port K) (impl : SocketImpl K A) where
  -- What follows the first part of OS_SocketAccept.
  abbrev pub finish : ℕ → A → ℤ → ℤ × ℕ × Option ℕ × Os K → ℤ × Option ℕ × A × Os K
  finish i addr timeout (code, c, out, s1) =
      let (status, remote, s2) = accept_connection p impl i c addr timeout s1 in
      if is_success code
      then (status, out, remote, s2)
      else (code, out, addr, (refcount_decr p (entry ObjectType.stream i) s1).1)

  pub accept_found-finish :
      (i : ℕ) (addr : A) (timeout : ℤ) (s : Os K)
      → accept_found p impl addr timeout (ok i, s)
        ≡ finish i addr timeout (prepare_accept p impl i s)
  unfolding accept_found
  accept_found-finish i addr timeout s = refl

  pub prepare_accept-cases :
      (i : ℕ) (s : Os K)
      → ((is_success (prepare_accept p impl i s).0 ≡ false) × ((prepare_accept p impl i s).3 ≡ s))
        ⊎ (prepare_accept p impl i s
            ≡ new_connection p impl i (allocate_new p ObjectType.stream none s))
  unfolding prepare_accept
  prepare_accept-cases i s = ground arith

  pub socket_accept-found :
      (id i : ℕ) (addr : A) (timeout : ℤ) (s : Os K) (h : Os K)
      → get_by_id p refcounted ObjectType.stream id s ≡ (ok i, h)
      → let (code, out, remote, s') = finish i addr timeout (prepare_accept p impl i h) in
        socket_accept p impl id true (some addr) timeout s ≡ (code, out, some remote, s')
  unfolding socket_accept
  socket_accept-found id i addr timeout s h e =
      ap
        (λ (r : Result ℕ × Os K).
          (let (code, out, remote, s') = accept_found p impl addr timeout r in
            (code, out, some remote, s')))
        e
      ∙ ap (λ (r : ℤ × Option ℕ × A × Os K). (r.0, r.1, some r.2, r.3))
          (accept_found-finish i addr timeout h)

  pub finish-bad :
      (i c : ℕ) (addr : A) (timeout code : ℤ) (out : Option ℕ) (q : Os K)
      → is_success code ≡ false
      → finish i addr timeout (code, c, out, q)
        ≡ (code, out, addr, (refcount_decr p (entry ObjectType.stream i) q).1)
  finish-bad i c addr timeout code out q h = rw h refl

  pub finish-good :
      (i c : ℕ) (addr : A) (timeout code : ℤ) (out : Option ℕ) (q : Os K)
      → code ≡ os_success
      → let (status, remote, q') = accept_connection p impl i c addr timeout q in
        finish i addr timeout (code, c, out, q) ≡ (status, out, remote, q')
  finish-good i c addr timeout code out q h = rw h refl

  pub given_back-Restored :
      (id i : ℕ) (s q : Os K)
      → IsUsable p id i s
      → q.common_table ≡ referred (entry ObjectType.stream i) s.common_table
      → Restored i s (refcount_decr p (entry ObjectType.stream i) q).1
  given_back-Restored id i s q u same =
      let back = refcount_decr-table p id i s q u same in
      (
        λ e. ap (λ (t : ℕ → CommonRecord). (t e).active_id) back,
        ap (λ (t : ℕ → CommonRecord). (t (entry ObjectType.stream i)).refcount) back,
      )
