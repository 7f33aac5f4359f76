-- ===== src/Idmap/Alloc/Codes.antt =====
-- The codes with which OS_ObjectIdAllocateNew fails.
use hello_world_osal.Base.{ℕ, ◌≡◌, arith, Option, Text, false, is_success}
use hello_world_osal.Idmap.Id.{Result, ok, fail}
use hello_world_osal.Idmap.State.{Os, Port}
use hello_world_osal.Idmap.Lock.{lock_global}
use hello_world_osal.Idmap.Alloc.{announce, find_next, allocate_locked, unlock_failed, allocate_new}

module _ {K : Type 0} where
  abbrev pub FailsBadly : Result ℕ × Os K → Type 0
  FailsBadly (ok i, s) = Unit {0}
  FailsBadly (fail c, s) = is_success c ≡ false

  announce-FailsBadly : (t : ℕ) (r : Result ℕ × Os K) → FailsBadly r → FailsBadly (announce t r)
  unfolding announce
  announce-FailsBadly t (ok i, s) h = ground arith
  announce-FailsBadly t (fail c, s) h = h

module _ {K : Type 0} (p : Port K) (t : ℕ) where
  find_next-FailsBadly : (s : Os K) → FailsBadly (find_next p t s)
  unfolding find_next
  find_next-FailsBadly s = ground arith

  allocate_locked-FailsBadly :
      (name : Option Text) (s : Os K) → FailsBadly (allocate_locked p t name s)
  unfolding allocate_locked
  allocate_locked-FailsBadly name s =
      let h = announce-FailsBadly t (find_next p t s) (find_next-FailsBadly s) in ground arith

  unlock_failed-FailsBadly : (r : Result ℕ × Os K) → FailsBadly r → FailsBadly (unlock_failed p t r)
  unfolding unlock_failed
  unlock_failed-FailsBadly (ok i, s) h = h
  unlock_failed-FailsBadly (fail c, s) h = h

  pub allocate_new-FailsBadly :
      (name : Option Text) (s : Os K) → FailsBadly (allocate_new p t name s)
  unfolding allocate_new
  allocate_new-FailsBadly name s =
      let s0 = lock_global p t s in
      let h =
        unlock_failed-FailsBadly (allocate_locked p t name s0)
          (allocate_locked-FailsBadly name s0) in
      ground arith
