-- ===== src/Idmap/Frame.antt =====
-- The steps that leave the table of objects alone.
use hello_world_osal.Base.{ℕ, ◌≡◌, refl, ◌∙◌, arith}
use hello_world_osal.Idmap.State.{Os, Port, Event}
use hello_world_osal.Idmap.Lock.{lock_global, unlock_global}
use hello_world_osal.Idmap.Alloc.{notify_event, notify_defined}

-- The same objects, and the same state of the API.
pub record Same {K : Type 0} (s s' : Os K) : Type 0 where
  pub table : s'.common_table ≡ s.common_table
  pub on : s'.initialized ≡ s.initialized
  pub flag : s'.shutdown_flag ≡ s.shutdown_flag

module _ {K : Type 0} where
  pub Same-refl : (s : Os K) → Same s s
  Same-refl s = record { table = refl; on = refl; flag = refl }

  pub Same-trans : {a b c : Os K} → Same a b → Same b c → Same a c
  Same-trans x y = record { table = y.table ∙ x.table; on = y.on ∙ x.on; flag = y.flag ∙ x.flag }

  pub notify_event-Same : (v : Event) (id : ℕ) (s : Os K) → Same s (notify_event v id s).1
  unfolding notify_event
  notify_event-Same v id s = ground arith

  pub notify_defined-Same : (v : Event) (id : ℕ) (s : Os K) → Same s (notify_defined v id s)
  unfolding notify_defined
  notify_defined-Same v id s = ground (arith, notify_event-Same v id s)

module _ {K : Type 0} (p : Port K) where
  pub lock_global-Same : (t : ℕ) (s : Os K) → Same s (lock_global p t s)
  unfolding lock_global
  lock_global-Same t s = ground arith

  pub unlock_global-Same : (t : ℕ) (s : Os K) → Same s (unlock_global p t s)
  unfolding unlock_global
  unlock_global-Same t s = ground arith
