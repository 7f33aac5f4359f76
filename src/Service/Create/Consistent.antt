-- ===== src/Service/Create/Consistent.antt =====
-- The create calls keep the table of objects consistent, whether they succeed or not.
use native.Mathlib.Decide.{ℕ_discrete}
use hello_world_osal.Base.{
  ℕ, ◌≡◌, ◌⊎◌, inl, inr, refl, sym, ap, subst, arith, ℤ, Option, some, Text, os_err_name_taken,
}
use hello_world_osal.Idmap.Id.{Result, ok, fail, entry, to_type}
use hello_world_osal.Idmap.State.{Os, Port, CommonRecord, resource_allocated, resource_created}
use hello_world_osal.Idmap.Lock.{lock_global, unlock_global}
use hello_world_osal.Idmap.Frame.{
  Same, notify_event-Same, notify_defined-Same, lock_global-Same, unlock_global-Same,
}
use hello_world_osal.Idmap.Invariant.{IsConsistent, SlotOk}
use hello_world_osal.Idmap.Alloc.{
  notify_event, notify_defined, announce, find_next, allocate_locked, unlock_failed, allocate_new,
  settle_new, finalize_new,
}
use hello_world_osal.Idmap.Alloc.Issue.{find_next-IsConsistent}
use hello_world_osal.Service.{build, create}
use hello_world_osal.Service.Create.{Names}

module _ {K : Type 0} where
  -- A table in which every ID is kept or taken back.
  kept-IsConsistent :
      (s s' : Os K)
      → ((e : ℕ)
          → ((s'.common_table e).active_id ≡ (s.common_table e).active_id)
            ⊎ ((s'.common_table e).active_id ≡ 0))
      → IsConsistent s
      → IsConsistent s'
  kept-IsConsistent s s' kept c = record {
    slots = λ t i h. elim (kept (entry t i)) [
      | inl same ↦ subst (SlotOk t i) (sym same) (c.slots t i h)
      | inr free ↦ inl free
    ];
  }

  Same-IsConsistent : (s s' : Os K) → Same s s' → IsConsistent s → IsConsistent s'
  Same-IsConsistent s s' same =
      kept-IsConsistent s s' (λ e. inl (ap (λ (c : ℕ → CommonRecord). (c e).active_id) same.table))

  announce-IsConsistent :
      (t : ℕ) (r : Result ℕ) (s : Os K) → IsConsistent s → IsConsistent (announce t (r, s)).1
  unfolding announce
  announce-IsConsistent t (fail c) s h = h
  announce-IsConsistent t (ok i) s h =
      let id = (s.common_table (entry t i)).active_id in
      Same-IsConsistent s (notify_event resource_allocated id s).1
        (notify_event-Same resource_allocated id s) h

  settle_new-kept :
      (status : ℤ) (e g : ℕ) (s : Os K)
      → let s' = (settle_new status e s).1 in
        ((s'.common_table g).active_id ≡ (s.common_table g).active_id)
        ⊎ ((s'.common_table g).active_id ≡ 0)
  unfolding settle_new
  settle_new-kept status e g s = ground arith

module _ {K : Type 0} (p : Port K) where
  find_next-fails : (t : ℕ) (code : ℤ) (s s' : Os K) → find_next p t s ≡ (fail code, s') → s ≡ s'
  unfolding find_next
  find_next-fails t code s s' e = ground (arith, e)

  find_next-keeps : (t : ℕ) (s : Os K) → IsConsistent s → IsConsistent (find_next p t s).1
  find_next-keeps t s c = outcome (find_next p t s) refl
    where
      outcome : (r : Result ℕ × Os K) → find_next p t s ≡ r → IsConsistent r.1
      outcome (ok i, s') e = find_next-IsConsistent p t i s s' c e
      outcome (fail code, s') e = subst IsConsistent (find_next-fails t code s s' e) c

  allocate_locked-cases :
      (t : ℕ) (name : Option Text) (s : Os K)
      → (allocate_locked p t name s ≡ (fail os_err_name_taken, s))
        ⊎ (allocate_locked p t name s ≡ announce t (find_next p t s))
  unfolding allocate_locked
  allocate_locked-cases t name s = ground arith

  allocate_locked-IsConsistent :
      (t : ℕ) (name : Option Text) (s : Os K)
      → IsConsistent s
      → IsConsistent (allocate_locked p t name s).1
  allocate_locked-IsConsistent t name s c = elim (allocate_locked-cases t name s) [
    | inl e ↦ subst (λ (r : Result ℕ × Os K). IsConsistent r.1) (sym e) c
    | inr e ↦
        subst (λ (r : Result ℕ × Os K). IsConsistent r.1) (sym e)
          (announce-IsConsistent t (find_next p t s).0 (find_next p t s).1 (find_next-keeps t s c))
  ]

  unlock_failed-IsConsistent :
      (t : ℕ) (r : Result ℕ) (s : Os K) → IsConsistent s → IsConsistent (unlock_failed p t (r, s)).1
  unfolding unlock_failed
  unlock_failed-IsConsistent t (ok i) s c = c
  unlock_failed-IsConsistent t (fail code) s c =
      Same-IsConsistent s (unlock_global p t s) (unlock_global-Same p t s) c

  allocate_new-cases :
      (t : ℕ) (name : Option Text) (s : Os K)
      → ((allocate_new p t name s).1 ≡ s)
        ⊎ (allocate_new p t name s
            ≡ unlock_failed p t (allocate_locked p t name (lock_global p t s)))
  unfolding allocate_new
  allocate_new-cases t name s = ground arith

  allocate_new-IsConsistent :
      (t : ℕ) (name : Option Text) (s : Os K)
      → IsConsistent s
      → IsConsistent (allocate_new p t name s).1
  allocate_new-IsConsistent t name s c =
      let s0 = lock_global p t s in
      let (r, s1) = allocate_locked p t name s0 in
      let locked = unlock_failed-IsConsistent t r s1 (
        allocate_locked-IsConsistent t name s0
          (Same-IsConsistent s s0 (lock_global-Same p t s) c)) in
      elim (allocate_new-cases t name s) [
        | inl same ↦ subst IsConsistent (sym same) c
        | inr e ↦ subst (λ (r : Result ℕ × Os K). IsConsistent r.1) (sym e) locked
      ]

  finalize_new-IsConsistent :
      (status : ℤ) (e : ℕ) (s : Os K) → IsConsistent s → IsConsistent (finalize_new p status e s).2
  unfolding finalize_new
  finalize_new-IsConsistent status e s c =
      let t = to_type (s.common_table e).active_id in
      let s1 = (settle_new status e s).1 in
      let s2 = unlock_global p t s1 in
      let id = (s1.common_table e).active_id in
      Same-IsConsistent s2 (notify_defined resource_created id s2)
        (notify_defined-Same resource_created id s2)
        (Same-IsConsistent s1 s2 (unlock_global-Same p t s1)
          (kept-IsConsistent s s1 (λ g. settle_new-kept status e g s) c))

  module _ (t : ℕ) (store : Text → ℕ → Os K → Os K) (w : Names t store)
      (impl : ℕ → Os K → ℤ × K) where
    build-IsConsistent :
        (name : Text) (r : Result ℕ) (s : Os K)
        → IsConsistent s
        → IsConsistent (build p t (store name) impl (r, s)).2
    unfolding build
    build-IsConsistent name (fail code) s c = c
    build-IsConsistent name (ok i) s c =
        let e = entry t i in
        let s1 = store name i s in
        let (status, k) = impl i s1 in
        finalize_new-IsConsistent status e (record s1 { kernel = k })
          (kept-IsConsistent s (record s1 { kernel = k })
            (λ g. inl (elim (ℕ_discrete g e) [
              | yes q ↦
                  subst (λ h. (s1.common_table h).active_id ≡ (s.common_table h).active_id) (sym q)
                    (ap (λ (x : CommonRecord). x.active_id) (w.named name i s))
              | no ne ↦ ap (λ (x : CommonRecord). x.active_id) (w.others name i s g ne)
            ]))
            c)

    -- A create call keeps the object table consistent, whether it succeeds or not, and whatever
    -- the event handler and the layer below return: every ID in use belongs in its place. Of the
    -- object table the service's own writes change only the name of the new object.
    pub create-IsConsistent :
        (name : Text) (s : Os K)
        → IsConsistent s
        → IsConsistent (create p t (store name) impl name s).2
    unfolding create
    create-IsConsistent name s c =
        build-IsConsistent name (allocate_new p t (some name) s).0
          (allocate_new p t (some name) s).1 (allocate_new-IsConsistent t (some name) s c)
