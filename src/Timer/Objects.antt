-- ===== src/Timer/Objects.antt =====
-- The timers and the time bases during the calls of the object table that delete an object, which leave
-- them alone: osal/src/os/shared/src/osapi-idmap.c.
use hello_world_osal.Base.{
  ℕ, zero, suc, ◌+◌, ◌≡◌, ◌⊎◌, inl, inr, refl, sym, ◌∙◌, subst, arith, ℤ, false, is_success,
  os_error,
}
use hello_world_osal.Idmap.Id.{Result, ok, fail, entry, to_type, to_array_index}
use hello_world_osal.Idmap.State.{Os, Port, set_record, resource_deleted}
use hello_world_osal.Idmap.Lock.{
  exclusive, lock_global, unlock_global, initiate_lock, try_exclusive, try_mode, try_lock,
  wait_turn, convert_loop, clear_bits, finish_convert, convert_lock,
}
use hello_world_osal.Idmap.Lookup.{convert_found, get_by_id, drop_reference, refcount_decr}
use hello_world_osal.Idmap.Lookup.Discipline.{Result-cases}
use hello_world_osal.Idmap.Alloc.{finalize_delete}
use hello_world_osal.Service.{tear_down, delete}
use hello_world_osal.Timer.Adding.{
  SameTimers, SameTimers-trans, lock_global-SameTimers, unlock_global-SameTimers,
  notify_defined-SameTimers,
}

-- Nothing else changes timers or time bases while this task waits for an object.
abbrev pub KeepsTimers : {K : Type 0} → Port K → Type 0
KeepsTimers {K} p = (n : ℕ) (s : Os K) → SameTimers s (p.task_delay n s)

module _ {K : Type 0} where
  pub SameTimers-refl : (s : Os K) → SameTimers s s
  SameTimers-refl s = record { timers = refl; bases = refl }

module _ {K : Type 0} (p : Port K) where
  try_lock-SameTimers :
      (id e bits : ℕ) (s : Os K) → SameTimers s (try_lock p exclusive id e bits s).2
  unfolding try_lock try_mode try_exclusive
  try_lock-SameTimers id e bits s = record { timers = ground arith; bases = ground arith }

  clear_bits-SameTimers : (e bits : ℕ) (s : Os K) → SameTimers s (clear_bits p e bits s)
  unfolding clear_bits
  clear_bits-SameTimers e bits s = record { timers = refl; bases = refl }

  pub finalize_delete-SameTimers :
      (status : ℤ) (e : ℕ) (s : Os K) → SameTimers s (finalize_delete p status e s).1
  unfolding finalize_delete
  finalize_delete-SameTimers status e s =
      let id = (s.common_table e).active_id in
      let t = to_type id in
      let s1 = set_record s e (record (s.common_table e) { active_id = 0 }) in
      let failed = unlock_global-SameTimers p t s in
      let unlocked = unlock_global-SameTimers p t s1 in
      let told = notify_defined-SameTimers resource_deleted id (unlock_global p t s1) in
      record {
        timers = ground (arith, failed.timers, unlocked.timers, told.timers);
        bases = ground (arith, failed.bases, unlocked.bases, told.bases);
      }

  pub refcount_decr-SameTimers : (e : ℕ) (s : Os K) → SameTimers s (refcount_decr p e s).1
  unfolding refcount_decr drop_reference
  refcount_decr-SameTimers e s =
      let t = to_type (s.common_table e).active_id in
      let s1 = lock_global p t s in
      let locked = lock_global-SameTimers p t s in
      let s2 = (drop_reference p e s1).1 in
      let unlocked = unlock_global-SameTimers p t s2 in
      record {
        timers = ground (arith, locked.timers, unlocked.timers);
        bases = ground (arith, locked.bases, unlocked.bases);
      }

  module _ (keeps : KeepsTimers p) (t : ℕ) where
    wait_turn-SameTimers : (n : ℕ) (s : Os K) → SameTimers s (wait_turn p t n s)
    unfolding wait_turn
    wait_turn-SameTimers n s = SameTimers-trans (unlock_global-SameTimers p t s) (
        SameTimers-trans (keeps n (unlock_global p t s))
          (lock_global-SameTimers p t (p.task_delay n (unlock_global p t s))))

    convert_loop-SameTimers :
        (fuel id e bits attempts : ℕ) (s : Os K)
        → SameTimers s (convert_loop p fuel exclusive t id e bits attempts s).2
    unfolding convert_loop
    convert_loop-SameTimers zero id e bits attempts s = SameTimers-refl s
    convert_loop-SameTimers (suc fuel) id e bits attempts s =
        let (verdict, bits', s') = try_lock p exclusive id e bits s in
        let tried = try_lock-SameTimers id e bits s in
        let waited = wait_turn-SameTimers (attempts + 1) s' in
        let rest =
          convert_loop-SameTimers fuel id e bits' (attempts + 1)
            (wait_turn p t (attempts + 1) s') in
        record {
          timers = ground (arith, tried.timers, waited.timers, rest.timers);
          bases = ground (arith, tried.bases, waited.bases, rest.bases);
        }

    convert_lock-SameTimers :
        (id e : ℕ) (s : Os K) → SameTimers s (convert_lock p exclusive t id e s).1
    unfolding convert_lock finish_convert
    convert_lock-SameTimers id e s =
        let (code, bits, s1) = convert_loop p 5 exclusive t id e 0 0 s in
        let s2 = clear_bits p e bits s1 in
        let looped = convert_loop-SameTimers 5 id e 0 0 s in
        let cleared = clear_bits-SameTimers e bits s1 in
        let unlocked = unlock_global-SameTimers p t s2 in
        record {
          timers = ground (arith, looped.timers, cleared.timers, unlocked.timers);
          bases = ground (arith, looped.bases, cleared.bases, unlocked.bases);
        }

    get_by_id-cases :
        (id i : ℕ) (s : Os K)
        → to_array_index t id ≡ ok i
        → (get_by_id p exclusive t id s ≡ (fail os_error, s))
          ⊎ (get_by_id p exclusive t id s ≡ convert_found p exclusive t id i (lock_global p t s))
    unfolding get_by_id initiate_lock
    get_by_id-cases id i s e = ground (arith, e)

    convert_found-cases :
        (id i : ℕ) (s : Os K)
        → let (code, s') = convert_lock p exclusive t id (entry t i) s in
          ((is_success code ≡ false) × (convert_found p exclusive t id i s ≡ (fail code, s')))
          ⊎ (convert_found p exclusive t id i s ≡ (ok i, s'))
    unfolding convert_found
    convert_found-cases id i s = ground arith

    -- A lookup that finds the object leaves the timers as they are.
    pub get_by_id-found :
        (id i : ℕ) (s : Os K)
        → to_array_index t id ≡ ok i
        → ((c : ℤ) × (s' : Os K) × SameTimers s s'
            × (is_success c ≡ false)
            × (get_by_id p exclusive t id s ≡ (fail c, s')))
          ⊎ ((s' : Os K) × SameTimers s s' × (get_by_id p exclusive t id s ≡ (ok i, s')))
    get_by_id-found id i s e = elim (get_by_id-cases id i s e) [
      | inl off ↦ inl (os_error, s, SameTimers-refl s, refl, off)
      | inr on ↦
          let s0 = lock_global p t s in
          let (code, s') = convert_lock p exclusive t id (entry t i) s0 in
          let same =
            SameTimers-trans (lock_global-SameTimers p t s)
              (convert_lock-SameTimers id (entry t i) s0) in
          elim (convert_found-cases id i s0) [
            | inl (bad, lost) ↦ inl (code, s', same, bad, on ∙ lost)
            | inr found ↦ inr (s', same, on ∙ found)
          ]
    ]

    tear_down-SameTimers :
        (impl : ℕ → Os K → ℤ × K) (r : Result ℕ) (s : Os K)
        → SameTimers s (tear_down p t impl (r, s)).1
    unfolding tear_down
    tear_down-SameTimers impl (fail c) s = SameTimers-refl s
    tear_down-SameTimers impl (ok i) s =
        let (status, k) = impl i s in
        let s1 = record s { kernel = k } in
        let ended = finalize_delete-SameTimers status (entry t i) s1 in
        record { timers = ended.timers; bases = ended.bases }

    get_by_id-nowhere :
        (id : ℕ) (c : ℤ) (s : Os K)
        → to_array_index t id ≡ fail c
        → (get_by_id p exclusive t id s).1 ≡ s
    unfolding get_by_id
    get_by_id-nowhere id c s e = ground (arith, e)

    get_by_id-SameTimers : (id : ℕ) (s : Os K) → SameTimers s (get_by_id p exclusive t id s).1
    get_by_id-SameTimers id s = elim (Result-cases p (to_array_index t id)) [
      | inr (c, e) ↦ subst (SameTimers s) (sym (get_by_id-nowhere id c s e)) (SameTimers-refl s)
      | inl (i, e) ↦ elim (get_by_id-found id i s e) [
        | inl (c, s', same, bad, q) ↦ subst (λ (r : Result ℕ × Os K). SameTimers s r.1) (sym q) same
        | inr (s', same, q) ↦ subst (λ (r : Result ℕ × Os K). SameTimers s r.1) (sym q) same
      ]
    ]

    pub delete-SameTimers :
        (impl : ℕ → Os K → ℤ × K) (id : ℕ) (s : Os K) → SameTimers s (delete p t impl id s).1
    unfolding delete
    delete-SameTimers impl id s =
        let (r, s1) = get_by_id p exclusive t id s in
        SameTimers-trans (get_by_id-SameTimers id s) (tear_down-SameTimers impl r s1)
