-- ===== src/Timer/Deleting.antt =====
-- The timers and the time bases during OS_TimerDelete (osapi-time.c), but for the timer's removal.
use hello_world_osal.Base.{
  ℕ, ◌≡◌, ◌≢◌, inl, inr, refl, sym, ap, ◌∙◌, subst, arith, ℤ, false, is_success, os_success,
}
use hello_world_osal.Idmap.ObjectType
use hello_world_osal.Idmap.Id.{ok, fail, entry, to_array_index}
use hello_world_osal.Idmap.State.{Os, Port}
use hello_world_osal.Idmap.Lock.{exclusive}
use hello_world_osal.Idmap.Lookup.{get_by_id, refcount_decr}
use hello_world_osal.Idmap.Alloc.{finalize_delete}
use hello_world_osal.Timer.TimeBase.{TimeBaseImpl, time_base_delete}
use hello_world_osal.Timer.Timers.{detach, dedicated_timebase}
use hello_world_osal.Timer.Timers.Calls.{delete_timer, timer_delete}
use hello_world_osal.Timer.Adding.{SameTimers, SameTimers-trans}
use hello_world_osal.Timer.Objects.{
  KeepsTimers, finalize_delete-SameTimers, refcount_decr-SameTimers, delete-SameTimers,
  get_by_id-found,
}

module _ {K : Type 0} (p : Port K) (keeps : KeepsTimers p) (impl : TimeBaseImpl K)
    (garbage : ℕ) where
  time_base_delete-SameTimers : (id : ℕ) (s : Os K) → SameTimers s (time_base_delete p impl id s).1
  unfolding time_base_delete
  time_base_delete-SameTimers id s =
      let done = delete-SameTimers p keeps ObjectType.timebase impl.delete_impl id s in
      record { timers = ground (arith, done.timers); bases = ground (arith, done.bases) }

  delete_timer-SameTimers :
      (id i : ℕ) (s : Os K)
      → SameTimers (detach id i s) (delete_timer p impl garbage id (ok i, s)).1
  unfolding delete_timer
  delete_timer-SameTimers id i s =
      let b = (s.timecb_table i).timebase_ref in
      let timebase = dedicated_timebase i s in
      let s0 = detach id i s in
      let s1 = (finalize_delete p os_success (entry ObjectType.timecb i) s0).1 in
      let s2 = (refcount_decr p (entry ObjectType.timebase b) s1).1 in
      let given_back =
        SameTimers-trans (finalize_delete-SameTimers p os_success (entry ObjectType.timecb i) s0)
          (refcount_decr-SameTimers p (entry ObjectType.timebase b) s1) in
      let base_gone = time_base_delete-SameTimers timebase s2 in
      record {
        timers = ground (arith, given_back.timers, base_gone.timers);
        bases = ground (arith, given_back.bases, base_gone.bases);
      }

  delete_timer-fails :
      (id : ℕ) (c : ℤ) (s : Os K)
      → is_success c ≡ false
      → (delete_timer p impl garbage id (fail c, s)).0 ≢ os_success
  unfolding delete_timer
  delete_timer-fails id c s bad = λ e. ground (arith, bad, e)

  timer_delete-outside :
      (id : ℕ) (s : Os K)
      → (timer_delete p impl garbage id s).0 ≡ os_success
      → timer_delete p impl garbage id s
        ≡ delete_timer p impl garbage id (get_by_id p exclusive ObjectType.timecb id s)
  unfolding timer_delete
  timer_delete-outside id s done = ground (arith, done)

  detach-SameTimers :
      (id i : ℕ) (s q : Os K) → SameTimers s q → SameTimers (detach id i s) (detach id i q)
  unfolding detach
  detach-SameTimers id i s q same = record {
    timers = rw (same.timers) refl;
    bases = rw (same.timers, same.bases) refl;
  }

  -- A deletion that succeeds leaves the timers and the time bases as the timer's removal does.
  pub timer_delete-SameTimers :
      (id i : ℕ) (s : Os K)
      → to_array_index ObjectType.timecb id ≡ ok i
      → (timer_delete p impl garbage id s).0 ≡ os_success
      → SameTimers (detach id i s) (timer_delete p impl garbage id s).1
  timer_delete-SameTimers id i s place done =
      let whole = timer_delete-outside id s done in
      elim (get_by_id-found p keeps ObjectType.timecb id i s place) [
        | inl (c, s', same, bad, q) ↦
            let failed = whole ∙ ap (delete_timer p impl garbage id) q in
            absurd (delete_timer-fails id c s' bad (sym (ap (λ (r : ℤ × Os K). r.0) failed) ∙ done))
        | inr (s', same, q) ↦
            let found = whole ∙ ap (delete_timer p impl garbage id) q in
            subst (λ (r : ℤ × Os K). SameTimers (detach id i s) r.1) (sym found)
              (SameTimers-trans (detach-SameTimers id i s s' same)
                (delete_timer-SameTimers id i s'))
      ]
