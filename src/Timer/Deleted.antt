-- ===== src/Timer/Deleted.antt =====
-- The timers that are left after OS_TimerDelete (osapi-time.c), and the ticks after it.
use hello_world_osal.Base.{ℕ, ◌≡◌, ◌≢◌, ap, ◌∙◌, subst, sym, List, [], ◌∷◌, ◌++◌, os_success}
use hello_world_osal.Idmap.ObjectType
use hello_world_osal.Idmap.Id.{ok, to_array_index}
use hello_world_osal.Idmap.Tables.{TimebaseRecord, TimecbRecord}
use hello_world_osal.Idmap.State.{Os, Port}
use hello_world_osal.Timer.TimeBase.{TimeBaseImpl}
use hello_world_osal.Timer.Timers.{detach}
use hello_world_osal.Timer.Timers.Ring.{IsRing}
use hello_world_osal.Timer.Timers.Calls.{timer_delete}
use hello_world_osal.Timer.Tick.{process_tick}
use hello_world_osal.Timer.Rings.{Hangs, first-index, free_running}
use hello_world_osal.Timer.Rings.Detach.{base_of, detach-other, detach-lost, process_tick-fail}
use hello_world_osal.Timer.Adding.{Hangs-SameTimers}
use hello_world_osal.Timer.Objects.{KeepsTimers}
use hello_world_osal.Timer.Deleting.{timer_delete-SameTimers}

module _ {K : Type 0} (p : Port K) (keeps : KeepsTimers p) (impl : TimeBaseImpl K)
    (garbage : ℕ) where
  -- A successful OS_TimerDelete on a timer that is not the first of its time base leaves the
  -- others in one ring, in their order, if nothing else changes timers or time bases while it
  -- waits.
  pub timer_delete-other :
      (id x h : ℕ) (s : Os K) (pre post : List ℕ)
      → to_array_index ObjectType.timecb id ≡ ok x
      → Hangs s (base_of s x) (h ∷ pre ++ x ∷ post)
      → (s.timebase_table (base_of s x)).first_cb ≢ id
      → (timer_delete p impl garbage id s).0 ≡ os_success
      → Hangs (timer_delete p impl garbage id s).1 (base_of s x) (h ∷ pre ++ post)
  timer_delete-other id x h s pre post place hangs ne done =
      Hangs-SameTimers (detach id x s) (timer_delete p impl garbage id s).1 (base_of s x)
        (h ∷ pre ++ post) (timer_delete-SameTimers p keeps impl garbage id x s place done)
        (detach-other id x h s pre post hangs ne)

  -- Once a successful OS_TimerDelete has removed the first of several timers of a time base, the
  -- others still form a ring, but a tick calls none of them and changes no timer, if nothing else
  -- changes timers or time bases while the call waits.
  pub process_tick-timer_delete :
      (tick x y : ℕ) (s : Os K) (ys : List ℕ)
      → Hangs s (base_of s x) (x ∷ y ∷ ys)
      → let b = base_of s x in
        let (code, s') = timer_delete p impl garbage (s.timebase_table b).first_cb s in
        code ≡ os_success
        → IsRing s'.timecb_table y ys × (process_tick tick b s' ≡ (free_running tick b s', []))
  process_tick-timer_delete tick x y s ys hangs done =
      let b = base_of s x in
      let id = (s.timebase_table b).first_cb in
      let s' = (timer_delete p impl garbage id s).1 in
      let same =
        timer_delete-SameTimers p keeps impl garbage id x s (first-index s b x (y ∷ ys) hangs)
          done in
      let (ring, lost) = detach-lost x y s ys hangs in
      (
        subst (λ (t : ℕ → TimecbRecord). IsRing t y ys) (sym same.timers) ring,
        process_tick-fail tick b s' (
            ap (λ (t : ℕ → TimebaseRecord). to_array_index ObjectType.timecb (t b).first_cb)
              same.bases
            ∙ lost),
      )
