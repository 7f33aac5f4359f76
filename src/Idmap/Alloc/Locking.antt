-- ===== src/Idmap/Alloc/Locking.antt =====
-- Which table locks the issuing and the return of an ID leave held.
use hello_world_osal.Base.{ℕ, ◌≡◌, refl, arith, ℤ, Option, Text}
use hello_world_osal.Idmap.Id.{Result, ok, fail, to_type, entry}
use hello_world_osal.Idmap.State.{
  Event, Os, Port, owner, resource_allocated, resource_created, resource_deleted,
}
use hello_world_osal.Idmap.Lock.{self_owner, lock_global, unlock_global}
use hello_world_osal.Idmap.Lock.Discipline.{IsMutex, owner-lock_global, owner-unlock_global}
use hello_world_osal.Idmap.Alloc.Settled.{vacated}
use hello_world_osal.Idmap.Alloc.{
  notify_event, notify_defined, announce, settle_new, claim, find_next, allocate_locked,
  unlock_failed, allocate_new, finalize_new, finalize_delete,
}

module _ {K : Type 0} where
  owner-notify_event :
      (v : Event) (id t : ℕ) (s : Os K) → owner (notify_event v id s).1 t ≡ owner s t
  unfolding notify_event
  owner-notify_event v id t s = ground arith

  owner-notify_defined :
      (v : Event) (id t : ℕ) (s : Os K) → owner (notify_defined v id s) t ≡ owner s t
  unfolding notify_defined
  owner-notify_defined v id t s = ground (arith, owner-notify_event v id t s)

  owner-announce : (t : ℕ) (r : Result ℕ × Os K) → owner (announce t r).1 t ≡ owner r.1 t
  unfolding announce
  owner-announce t (ok i, s) =
      ground
        (arith, owner-notify_event resource_allocated (s.common_table (entry t i)).active_id t s)
  owner-announce t (fail c, s) = refl

  owner-settle_new :
      (status : ℤ) (e t : ℕ) (s : Os K) → owner (settle_new status e s).1 t ≡ owner s t
  unfolding settle_new
  owner-settle_new status e t s = ground arith

module _ {K : Type 0} (p : Port K) (t : ℕ) where
  owner-find_next : (s : Os K) → owner (find_next p t s).1 t ≡ owner s t
  unfolding find_next claim
  owner-find_next s = ground arith

  owner-allocate_locked :
      (name : Option Text) (s : Os K) → owner (allocate_locked p t name s).1 t ≡ owner s t
  unfolding allocate_locked
  owner-allocate_locked name s =
      ground (arith, owner-announce t (find_next p t s), owner-find_next s)

  -- Who holds the table after OS_ObjectIdAllocateNew.
  abbrev pub allocator : Result ℕ → ℕ
  allocator (ok i) = self_owner p
  allocator (fail c) = 0

  module _ (m : IsMutex p t) where
    owner-unlock_failed :
        (r : Result ℕ × Os K)
        → owner r.1 t ≡ self_owner p
        → let (r', s') = unlock_failed p t r in owner s' t ≡ allocator r'
    unfolding unlock_failed
    owner-unlock_failed (ok i, s) h = h
    owner-unlock_failed (fail c, s) h = owner-unlock_global p t m s h

    -- If the mutex of the type works, OS_ObjectIdAllocateNew begun with the table free leaves it
    -- held by this task exactly if it succeeds.
    pub owner-allocate_new :
        (name : Option Text) (s : Os K)
        → owner s t ≡ 0
        → let (r, s') = allocate_new p t name s in owner s' t ≡ allocator r
    unfolding allocate_new
    owner-allocate_new name s h =
        let s0 = lock_global p t s in
        ground (
          arith,
          owner-unlock_failed (allocate_locked p t name s0),
          owner-allocate_locked name s0,
          owner-lock_global p t m s h,
        )

    -- OS_ObjectIdFinalizeNew releases the table of the type of the ID at `e`, whatever the status.
    pub owner-finalize_new :
        (status : ℤ) (e : ℕ) (s : Os K)
        → to_type (s.common_table e).active_id ≡ t
        → owner s t ≡ self_owner p
        → owner (finalize_new p status e s).2 t ≡ 0
    unfolding finalize_new
    owner-finalize_new status e s q h =
        let s' = (settle_new status e s).1 in
        let id = (s'.common_table e).active_id in
        ground (
          arith,
          owner-notify_defined resource_created id t (unlock_global p t s'),
          owner-unlock_global p t m s',
          owner-settle_new status e t s,
        )

    -- OS_ObjectIdFinalizeDelete releases the table of the type of the ID at `e`, whatever the status.
    pub owner-finalize_delete :
        (status : ℤ) (e : ℕ) (s : Os K)
        → to_type (s.common_table e).active_id ≡ t
        → owner s t ≡ self_owner p
        → owner (finalize_delete p status e s).1 t ≡ 0
    unfolding finalize_delete
    owner-finalize_delete status e s q h =
        let gone = vacated e s in
        let id = (s.common_table e).active_id in
        ground (
          arith,
          owner-notify_defined resource_deleted id t (unlock_global p t gone),
          owner-unlock_global p t m gone,
          owner-unlock_global p t m s,
        )
