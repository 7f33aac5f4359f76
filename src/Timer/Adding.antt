-- ===== src/Timer/Adding.antt =====
-- The steps of OS_DoTimerAdd (osapi-time.c) that leave the timers and the time bases alone.
pub mod Joined
use Prim.{Unit, tt}
use hello_world_osal.Base.{
  ℕ, ◌+◌, ◌<◌, ◌≡◌, ◌≢◌, refl, sym, ap, ◌∙◌, subst, arith, ℤ, Bool, true, false, Option, none, some,
  Text, List, [], ◌∷◌, is_success, os_success, length, update_self, update_ne, if◌then◌else◌, inl,
  inr, Bool-cases,
}
use hello_world_osal.Idmap.ObjectType
use hello_world_osal.Idmap.Id.{
  Result, ok, fail, entry, is_defined, to_type, get_max_for_object_type,
}
use hello_world_osal.Idmap.Tables.{Callback, TimebaseRecord, TimecbRecord}
use hello_world_osal.Idmap.State.{
  Event, resource_allocated, resource_created, Os, Port, CommonRecord,
}
use hello_world_osal.Idmap.Invariant.{Fits}
use hello_world_osal.Idmap.Frame.{Same}
use hello_world_osal.Idmap.Lock.{refcounted, lock_global, unlock_global}
use hello_world_osal.Idmap.Lookup.{get_by_id}
use hello_world_osal.Idmap.Alloc.{
  notify_event, notify_defined, announce, claim, find_next, allocate_locked, unlock_failed,
  allocate_new, settle_new, finalize_new,
}
use hello_world_osal.Idmap.Alloc.Allocated.{Allocated, allocate_new-Allocated}
use hello_world_osal.Idmap.Alloc.Codes.{FailsBadly, allocate_new-FailsBadly}
use hello_world_osal.Idmap.Alloc.Settled.{IsTyped, finalize_new-ok}
use hello_world_osal.Service.{build}
use hello_world_osal.Timer.TimeBase.{TimeBaseImpl, in_callback}
use hello_world_osal.Timer.Timers.{attach, timecb_store, add_allocated, add_found, do_timer_add}
use hello_world_osal.Timer.Timers.Ring.{IsApart}
use hello_world_osal.Timer.Rings.{Hangs, attach-Hangs, attach-first}

-- The same timers and time bases.
pub record SameTimers {K : Type 0} (s s' : Os K) : Type 0 where
  pub timers : s'.timecb_table ≡ s.timecb_table
  pub bases : s'.timebase_table ≡ s.timebase_table

module _ {K : Type 0} where
  pub SameTimers-trans : {a b c : Os K} → SameTimers a b → SameTimers b c → SameTimers a c
  SameTimers-trans x y = record { timers = y.timers ∙ x.timers; bases = y.bases ∙ x.bases }

  pub Hangs-SameTimers :
      (s s' : Os K) (b : ℕ) (xs : List ℕ) → SameTimers s s' → Hangs s b xs → Hangs s' b xs
  Hangs-SameTimers s s' b xs same h =
      subst (λ (t : ℕ → TimebaseRecord). Hangs (record s' { timebase_table = t }) b xs)
        (sym same.bases)
        (subst
          (λ (t : ℕ → TimecbRecord).
            Hangs (record s' { timecb_table = t; timebase_table = s.timebase_table }) b xs)
          (sym same.timers) (only_tables xs h))
    where
      only_tables :
          (ys : List ℕ)
          → Hangs s b ys
          → Hangs
              (record s' { timecb_table = s.timecb_table; timebase_table = s.timebase_table })
              b
              ys
      only_tables [] k = k
      only_tables (y ∷ ys) k = k

  notify_event-SameTimers : (v : Event) (id : ℕ) (s : Os K) → SameTimers s (notify_event v id s).1
  unfolding notify_event
  notify_event-SameTimers v id s = record { timers = ground arith; bases = ground arith }

  pub notify_defined-SameTimers :
      (v : Event) (id : ℕ) (s : Os K) → SameTimers s (notify_defined v id s)
  unfolding notify_defined
  notify_defined-SameTimers v id s =
      let told = notify_event-SameTimers v id s in
      record { timers = ground (arith, told.timers); bases = ground (arith, told.bases) }

  settle_new-SameTimers : (c : ℤ) (e : ℕ) (s : Os K) → SameTimers s (settle_new c e s).1
  unfolding settle_new
  settle_new-SameTimers c e s = record { timers = ground arith; bases = ground arith }

  announce-SameTimers :
      (t : ℕ) (s0 : Os K) (r : Result ℕ × Os K) → SameTimers s0 r.1 → SameTimers s0 (announce t r).1
  unfolding announce
  announce-SameTimers t s0 (fail c, s) h = h
  announce-SameTimers t s0 (ok i, s) h =
      SameTimers-trans h
        (notify_event-SameTimers resource_allocated (s.common_table (entry t i)).active_id s)

module _ {K : Type 0} (p : Port K) (t : ℕ) where
  pub lock_global-SameTimers : (s : Os K) → SameTimers s (lock_global p t s)
  unfolding lock_global
  lock_global-SameTimers s = record { timers = ground arith; bases = ground arith }

  pub unlock_global-SameTimers : (s : Os K) → SameTimers s (unlock_global p t s)
  unfolding unlock_global
  unlock_global-SameTimers s = record { timers = ground arith; bases = ground arith }

  find_next-SameTimers : (s : Os K) → SameTimers s (find_next p t s).1
  unfolding find_next claim
  find_next-SameTimers s = record { timers = ground arith; bases = ground arith }

  allocate_locked-SameTimers :
      (name : Option Text) (s : Os K) → SameTimers s (allocate_locked p t name s).1
  unfolding allocate_locked
  allocate_locked-SameTimers name s =
      let found = announce-SameTimers t s (find_next p t s) (find_next-SameTimers s) in
      record { timers = ground (arith, found.timers); bases = ground (arith, found.bases) }

  unlock_failed-SameTimers :
      (s0 : Os K) (r : Result ℕ × Os K) → SameTimers s0 r.1 → SameTimers s0 (unlock_failed p t r).1
  unfolding unlock_failed
  unlock_failed-SameTimers s0 (ok i, s) h = h
  unlock_failed-SameTimers s0 (fail c, s) h = SameTimers-trans h (unlock_global-SameTimers s)

  pub allocate_new-SameTimers :
      (name : Option Text) (s : Os K) → SameTimers s (allocate_new p t name s).1
  unfolding allocate_new
  allocate_new-SameTimers name s =
      let s0 = lock_global p t s in
      let r = allocate_locked p t name s0 in
      let done =
        SameTimers-trans (lock_global-SameTimers s)
          (unlock_failed-SameTimers s0 r (allocate_locked-SameTimers name s0)) in
      record { timers = ground (arith, done.timers); bases = ground (arith, done.bases) }

module _ {K : Type 0} (p : Port K) where
  pub finalize_new-SameTimers : (c : ℤ) (e : ℕ) (s : Os K) → SameTimers s (finalize_new p c e s).2
  unfolding finalize_new
  finalize_new-SameTimers c e s =
      let t = to_type (s.common_table e).active_id in
      let s1 = (settle_new c e s).1 in
      let id = (s1.common_table e).active_id in
      SameTimers-trans (settle_new-SameTimers c e s) (
        SameTimers-trans (unlock_global-SameTimers p t s1)
          (notify_defined-SameTimers resource_created id (unlock_global p t s1)))
