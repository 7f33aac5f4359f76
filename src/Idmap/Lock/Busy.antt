-- ===== src/Idmap/Lock/Busy.antt =====
-- Lock requests on an object that stays busy.
use hello_world_osal.Base.{
  ℕ, zero, suc, ◌+◌, ◌≤◌, ◌<◌, ◌≡◌, ◌≢◌, ap, ◌∙◌, arith, none, true, is_success,
  os_err_object_in_use, bit_or, fun_ext,
}
use hello_world_osal.Idmap.ObjectType
use hello_world_osal.Idmap.State.{Os, Port, set_record, owner, set_owner}
use hello_world_osal.Idmap.Lock.{
  exclusive, self_owner, lock_global, unlock_global, try_exclusive, try_mode, try_lock, wait_turn,
  convert_loop, clear_bits, finish_convert, convert_lock, object_excl_req_flag,
}

-- Nobody else runs, and the mutex of type `t` works.
pub record IsAlone {K : Type 0} (p : Port K) (t : ℕ) : Type 0 where
  pub in_range : t < ObjectType.user
  pub takes : is_success (p.lock_status t) ≡ true
  pub sleeps : (n : ℕ) (s : Os K) → p.task_delay n s ≡ s

module _ {K : Type 0} (p : Port K) (t : ℕ) (m : IsAlone p t) where
  pub lock_global-eq : (s : Os K) → owner s t ≡ 0 → lock_global p t s ≡ set_owner s t (self_owner p)
  unfolding lock_global
  lock_global-eq s h = ground (arith, m.in_range, m.takes)

  pub unlock_global-eq :
      (s : Os K) → owner s t ≡ self_owner p → unlock_global p t s ≡ set_owner s t 0
  unfolding unlock_global
  unlock_global-eq s h = ground (arith, m.in_range)

  set_owner-again : (s : Os K) (id : ℕ) → owner s t ≡ id → set_owner (set_owner s t 0) t id ≡ s
  set_owner-again s id h = ap (λ o. record s { objtype_state = o }) (fun_ext λ j. ground arith)

  wait_turn-same : (n : ℕ) (s : Os K) → owner s t ≡ self_owner p → wait_turn p t n s ≡ s
  unfolding wait_turn
  wait_turn-same n s h =
      rw (unlock_global-eq s h, m.sleeps n, lock_global-eq (set_owner s t 0) (ground arith))
        (set_owner-again s (self_owner p) h)

  convert_more :
      (fuel id e bits bits' attempts : ℕ) (s s' : Os K)
      → try_lock p exclusive id e bits s ≡ (none, bits', s')
      → attempts < 4
      → owner s' t ≡ self_owner p
      → convert_loop p (suc fuel) exclusive t id e bits attempts s
        ≡ convert_loop p fuel exclusive t id e bits' (attempts + 1) s'
  unfolding convert_loop
  convert_more fuel id e bits bits' attempts s s' tried few held =
      ground (arith, wait_turn-same (attempts + 1) s' held)

  convert_last :
      (fuel id e bits bits' attempts : ℕ) (s s' : Os K)
      → try_lock p exclusive id e bits s ≡ (none, bits', s')
      → 4 ≤ attempts
      → convert_loop p (suc fuel) exclusive t id e bits attempts s
        ≡ (os_err_object_in_use, bits', s')
  unfolding convert_loop
  convert_last fuel id e bits bits' attempts s s' tried last = ground arith

  -- `s` with the exclusive request of this task pending at `e`.
  abbrev pending : ℕ → Os K → Os K
  pending e s = set_record s e (record (s.common_table e) { flags = object_excl_req_flag })

  module _ (id e : ℕ) (s : Os K) (live : (s.common_table e).active_id ≡ id)
      (busy : (s.common_table e).refcount ≢ 0) where
    first_try :
        (s.common_table e).flags ≡ 0 → try_lock p exclusive id e 0 s ≡ (none, 1, pending e s)
    unfolding try_lock try_mode try_exclusive
    first_try h = ground arith

    later_try : try_lock p exclusive id e 1 (pending e s) ≡ (none, 1, pending e s)
    unfolding try_lock try_mode try_exclusive
    later_try = ground (arith, again)
      where
        again :
            set_record (pending e s) e (record ((pending e s).common_table e) {
              flags = bit_or ((pending e s).common_table e).flags object_excl_req_flag;
            })
            ≡ pending e s
        again = ap (λ o. record s { common_table = o }) (fun_ext λ j. ground arith)

    clear_bits-pending : (s.common_table e).flags ≡ 0 → clear_bits p e 1 (pending e s) ≡ s
    unfolding clear_bits
    clear_bits-pending h = ap (λ o. record s { common_table = o }) (fun_ext λ j. ground arith)

    keeps_waiting :
        (fuel attempts : ℕ)
        → suc fuel + attempts ≡ 5
        → owner s t ≡ self_owner p
        → convert_loop p (suc fuel) exclusive t id e 1 attempts (pending e s)
          ≡ (os_err_object_in_use, 1, pending e s)
    keeps_waiting zero attempts rounds held =
        convert_last 0 id e 1 1 attempts (pending e s) (pending e s) later_try (omega arith)
    keeps_waiting (suc fuel) attempts rounds held =
        convert_more (suc fuel) id e 1 1 attempts (pending e s) (pending e s) later_try
          (omega arith) held
        ∙ keeps_waiting fuel (attempts + 1) (omega arith) held

    -- With no other task running, an EXCLUSIVE request on an object that stays in use is refused
    -- after five tries with OS_ERR_OBJECT_IN_USE; the table is unlocked and all else is as it was,
    -- the request flag too.
    pub exclusive_busy :
        (s.common_table e).flags ≡ 0
        → owner s t ≡ self_owner p
        → convert_lock p exclusive t id e s ≡ (os_err_object_in_use, unlock_global p t s)
    unfolding convert_lock finish_convert
    exclusive_busy clear held =
        ap (finish_convert p exclusive t e) (
          convert_more 4 id e 0 1 0 s (pending e s) (first_try clear) (omega arith) held
          ∙ keeps_waiting 3 1 (omega arith) held)
        ∙ ap (λ o. (os_err_object_in_use, unlock_global p t o)) (clear_bits-pending clear)
