-- ===== src/Service/InUse.antt =====
-- Objects that somebody refers to, and their references (osapi-idmap.c).
use hello_world_osal.Base.{
  ℕ, ◌+◌, ◌%◌, ◌^◌, ◌<◌, ◌≡◌, ◌≢◌, sym, ap, ◌∙◌, arith, ℤ, true, os_success, os_err_object_in_use,
  fun_ext,
}
use hello_world_osal.Idmap.Id.{ok, entry, to_array_index, to_type}
use hello_world_osal.Idmap.State.{Os, Port, CommonRecord, owner, set_owner}
use hello_world_osal.Idmap.Lock.{
  refcounted, initiate_lock, lock_global, unlock_global, convert_lock, convert_loop, try_lock,
  try_mode, try_refcount, finish_convert, clear_bits, self_owner,
}
use hello_world_osal.Idmap.Lock.Busy.{IsAlone, lock_global-eq, unlock_global-eq, exclusive_busy}
use hello_world_osal.Idmap.Frame.{lock_global-Same, unlock_global-Same}
use hello_world_osal.Idmap.Lookup.{convert_found, get_by_id, drop_reference, refcount_decr}
use hello_world_osal.Service.{tear_down, delete}

module _ {K : Type 0} (p : Port K) (t : ℕ) (m : IsAlone p t) where
  relocked : (s : Os K) → owner s t ≡ 0 → unlock_global p t (lock_global p t s) ≡ s
  relocked s h =
      rw
        (
          lock_global-eq p t m s h,
          unlock_global-eq p t m (set_owner s t (self_owner p)) (ground arith),
        )
        (ap (λ o. record s { objtype_state = o }) (fun_ext λ j. ground arith))

  -- With no other task running, a delete call on an object that somebody refers to returns
  -- OS_ERR_OBJECT_IN_USE after its five tries, and leaves the state exactly as it was.
  pub delete-in_use :
      (impl : ℕ → Os K → ℤ × K) (id i : ℕ) (s : Os K)
      → s.initialized ≡ true
      → owner s t ≡ 0
      → to_array_index t id ≡ ok i
      → (s.common_table (entry t i)).active_id ≡ id
      → (s.common_table (entry t i)).refcount ≢ 0
      → (s.common_table (entry t i)).flags ≡ 0
      → delete p t impl id s ≡ (os_err_object_in_use, s)
  unfolding delete tear_down get_by_id convert_found initiate_lock
  delete-in_use impl id i s on free place live busy clear =
      let s0 = lock_global p t s in
      let here = ap (λ (c : ℕ → CommonRecord). c (entry t i)) (lock_global-Same p t s).table in
      let refused =
        exclusive_busy p t m id (entry t i) s0 (ap (λ (r : CommonRecord). r.active_id) here ∙ live)
          (λ q. busy (sym (ap (λ (r : CommonRecord). r.refcount) here) ∙ q))
          (ap (λ (r : CommonRecord). r.flags) here ∙ clear)
          (ground (arith, lock_global-eq p t m s free)) in
      ground (arith, place, refused, relocked s free)

module _ {K : Type 0} (p : Port K) (t id e : ℕ) (s : Os K)
    (live : (s.common_table e).active_id ≡ id) (clear : (s.common_table e).flags ≡ 0) where
  -- The state after a lookup in the mode REFCOUNT.
  abbrev pub referred : ℤ × Os K
  referred = convert_lock p refcounted t id e s

  refer :
      let (code, s') = referred in
      (code ≡ os_success)
      × (s'.common_table e
          ≡ record (s.common_table e) { refcount = ((s.common_table e).refcount + 1) % 2 ^ 16 })
  unfolding convert_lock convert_loop try_lock try_mode try_refcount finish_convert clear_bits
      unlock_global
  refer = ground arith

  drop_reference-eq :
      (s2 : Os K)
      → s2.common_table e
        ≡ record (s.common_table e) { refcount = ((s.common_table e).refcount + 1) % 2 ^ 16 }
      → (s.common_table e).refcount < 65535
      → let (code, s3) = drop_reference p e s2 in
        (code ≡ os_success) × (s3.common_table e ≡ s.common_table e)
  unfolding drop_reference
  drop_reference-eq s2 at small = ground (arith, at)

  -- OS_ObjectIdRefcountDecr gives back the reference that a granted REFCOUNT lock took: both
  -- succeed and the record is as before, if no exclusive request is pending and the count is below
  -- its 16-bit limit.
  pub refcount_decr-referred :
      to_type id ≢ 0
      → id ≢ 0
      → (s.common_table e).refcount < 65535
      → let (code, s1) = referred in
        let (code', s2) = refcount_decr p e s1 in
        (code ≡ os_success) × (code' ≡ os_success) × (s2.common_table e ≡ s.common_table e)
  unfolding refcount_decr
  refcount_decr-referred typed pos small =
      let (code, s1) = referred in
      let (done, at) = refer in
      let s2 = lock_global p (to_type (s1.common_table e).active_id) s1 in
      let locked =
        ap (λ (c : ℕ → CommonRecord). c e)
          (lock_global-Same p (to_type (s1.common_table e).active_id) s1).table in
      let (same_code, same) = drop_reference-eq s2 (locked ∙ at) small in
      let id_eq = ap (λ (r : CommonRecord). r.active_id) at ∙ live in
      let end =
        ap (λ (c : ℕ → CommonRecord). c e)
          (unlock_global-Same p (to_type (s1.common_table e).active_id)
            (drop_reference p e s2).1).table in
      ground (arith, id_eq, done, same_code, end ∙ same)

  -- At 65535 references one more REFCOUNT lock is granted and leaves a count of 0.
  refcount-overflow :
      (s.common_table e).refcount ≡ 65535
      → let (code, s1) = referred in (code ≡ os_success) × ((s1.common_table e).refcount ≡ 0)
  refcount-overflow full =
      let (done, at) = refer in
      (done, ap (λ (r : CommonRecord). r.refcount) at ∙ ground (arith, full))
