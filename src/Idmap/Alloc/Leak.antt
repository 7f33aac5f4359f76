-- ===== src/Idmap/Alloc/Leak.antt =====
-- An event handler that refuses a new ID (OS_ObjectIdAllocateNew).
use hello_world_osal.Base.{
  ℕ, ◌<◌, ◌∷◌, ap, sym, subst, ◌∙◌, ◌≡◌, ◌≢◌, arith, ℤ, none, some, true, false, is_success,
}
use hello_world_osal.Idmap.ObjectType
use hello_world_osal.Idmap.Id.{ok, fail, entry, get_max_for_object_type}
use hello_world_osal.Idmap.State.{
  CommonRecord, Os, Port, resource_allocated, Event, shutdown_magic_number,
}
use hello_world_osal.Idmap.Lock.{lock_global}
use hello_world_osal.Idmap.Frame.{lock_global-Same, unlock_global-Same}
use hello_world_osal.Idmap.Invariant.{Fits-pos}
use hello_world_osal.Idmap.Alloc.{
  notify_event, is_taken, announce, allocate_locked, unlock_failed, allocate_new,
}
use hello_world_osal.Idmap.Alloc.Issue.{find_next-Issued, find_next-free, Issued-Fits}

module _ {K : Type 0} (p : Port K) (t : ℕ) where
  pub lock_global-event_handler : (s : Os K) → (lock_global p t s).event_handler ≡ s.event_handler
  unfolding lock_global
  lock_global-event_handler s = ground arith

module _ {K : Type 0} (p : Port K) (t : ℕ) (handler : Event → ℕ → ℤ)
    (refuses : (id : ℕ) → is_success (handler resource_allocated id) ≡ false) where
  -- The refusal, and what it leaves in the table.
  refused :
      (j : ℕ) (s : Os K)
      → s.event_handler ≡ some handler
      → let (r, s') = unlock_failed p t (announce t (ok j, s)) in
        ((c : ℤ) × (r ≡ fail c)) × (s'.common_table ≡ s.common_table)
  unfolding announce unlock_failed notify_event
  refused j s set =
      let id = (s.common_table (entry t j)).active_id in
      let told = record s { notified = (resource_allocated, id) ∷ s.notified } in
      let no = refuses id in
      (
        (handler resource_allocated id, ground (arith, set, no)),
        ground (arith, set, no, (unlock_global-Same p t told).table),
      )

  -- If the event handler refuses every new ID, an allocation of a nameless object fails where a
  -- place is free, but a place that was free is in use afterwards.
  pub allocate_new-refused :
      (i : ℕ) (s : Os K)
      → s.initialized ≡ true
      → s.shutdown_flag ≢ shutdown_magic_number
      → t < ObjectType.user
      → s.event_handler ≡ some handler
      → i < get_max_for_object_type t
      → (s.common_table (entry t i)).active_id ≡ 0
      → let (r, s') = allocate_new p t none s in
        ((c : ℤ) × (r ≡ fail c))
        × ((j : ℕ) × ((s.common_table (entry t j)).active_id ≡ 0)
            × ((s'.common_table (entry t j)).active_id ≢ 0))
  unfolding allocate_new allocate_locked is_taken
  allocate_new-refused i s on running known set h free =
      let s0 = lock_global p t s in
      let locked =
        λ (e : ℕ). ap (λ (c : ℕ → CommonRecord). (c e).active_id) (lock_global-Same p t s).table in
      let (j, s1, found) = find_next-free p t s0 i h (locked (entry t i) ∙ free) in
      let d = find_next-Issued p t j s0 s1 found in
      let live = Fits-pos t j _ d.in_range (Issued-Fits p t j s0 s1 d) in
      let (failed, table) =
        refused j s1
          (ap (λ (o : Os K). o.event_handler) d.new.rest ∙ lock_global-event_handler p t s ∙ set) in
      let end : allocate_new p t none s ≡ unlock_failed p t (announce t (ok j, s1)) =
        ground (arith, found) in
      rw end (
        failed,
        (
          j,
          sym (locked (entry t j)) ∙ d.was_free,
          subst (λ (c : ℕ → CommonRecord). (c (entry t j)).active_id ≢ 0) (sym table) live,
        ),
      )
