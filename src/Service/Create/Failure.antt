-- ===== src/Service/Create/Failure.antt =====
-- The table of objects after a create call that fails.
use native.Mathlib.Decide.{ℕ_discrete}
use hello_world_osal.Idmap.Invariant.{Fits}
use hello_world_osal.Idmap.Alloc.Leak.{lock_global-event_handler}
use hello_world_osal.Base.{
  ℕ, ◌≡◌, inl, inr, refl, sym, ap, ◌∙◌, subst, arith, ℤ, Option, some, Text, true, false,
  is_success, Bool-cases, Option-cases,
}
use hello_world_osal.Idmap.Id.{Result, ok, fail, entry}
use hello_world_osal.Idmap.State.{Os, Port, CommonRecord, Event, resource_allocated}
use hello_world_osal.Idmap.Lock.{lock_global}
use hello_world_osal.Idmap.Frame.{lock_global-Same, unlock_global-Same}
use hello_world_osal.Idmap.Alloc.{
  notify_event, announce, find_next, allocate_locked, unlock_failed, allocate_new, claim,
}
use hello_world_osal.Idmap.Alloc.Settled.{finalize_new-fail, finalize_new-ok}
use hello_world_osal.Idmap.Alloc.Allocated.{Allocated, allocate_new-Allocated}
use hello_world_osal.Service.{run_locked, build, create}
use hello_world_osal.Service.Create.{Names, IsTyped-named}

-- The event handler never refuses a new ID.
abbrev pub Accepts : {K : Type 0} → Os K → Type 0
Accepts s =
    (handler : Event → ℕ → ℤ)
    → s.event_handler ≡ some handler
    → (id : ℕ) → is_success (handler resource_allocated id) ≡ true

module _ {K : Type 0} (p : Port K) (t : ℕ) where
  -- The result is not a failure, or the objects are those of `s`.
  abbrev KeepsOnFail : Os K → Result ℕ × Os K → Type 0
  KeepsOnFail s r = (c : ℤ) → r.0 ≡ fail c → r.1.common_table ≡ s.common_table

  announce-KeepsOnFail :
      (r : Result ℕ) (s s1 : Os K)
      → Accepts s
      → s1.event_handler ≡ s.event_handler
      → KeepsOnFail s (r, s1)
      → KeepsOnFail s (announce t (r, s1))
  unfolding announce notify_event
  announce-KeepsOnFail (fail c) s s1 accepts same h c' q = h c' q
  announce-KeepsOnFail (ok i) s s1 accepts same h c q =
      let id = (s1.common_table (entry t i)).active_id in
      elim (Option-cases s1.event_handler) [
        | inl e ↦ absurd (ground (arith, e, q))
        | inr (handler, e) ↦
            let yes = accepts handler (sym same ∙ e) id in absurd (ground (arith, e, q, yes))
      ]

  find_next-KeepsOnFail : (s : Os K) → KeepsOnFail s (find_next p t s)
  unfolding find_next
  find_next-KeepsOnFail s c q = ground arith

  find_next-event_handler : (s : Os K) → (find_next p t s).1.event_handler ≡ s.event_handler
  unfolding find_next claim
  find_next-event_handler s = ground arith

  allocate_locked-KeepsOnFail :
      (name : Option Text) (s : Os K) → Accepts s → KeepsOnFail s (allocate_locked p t name s)
  unfolding allocate_locked
  allocate_locked-KeepsOnFail name s accepts c q =
      let (r, s1) = find_next p t s in
      let told =
        announce-KeepsOnFail r s s1 accepts (find_next-event_handler s) (find_next-KeepsOnFail s)
          c in
      ground arith

  unlock_failed-KeepsOnFail :
      (r : Result ℕ) (s s1 : Os K)
      → KeepsOnFail s (r, s1)
      → KeepsOnFail s (unlock_failed p t (r, s1))
  unfolding unlock_failed
  unlock_failed-KeepsOnFail (ok i) s s1 h d q = h d q
  unlock_failed-KeepsOnFail (fail c) s s1 h d q = (unlock_global-Same p t s1).table ∙ h c refl

  -- OS_ObjectIdAllocateNew leaves the objects as they are if it fails, with a handler that accepts.
  pub allocate_new-KeepsOnFail :
      (name : Option Text) (s : Os K) → Accepts s → KeepsOnFail s (allocate_new p t name s)
  unfolding allocate_new
  allocate_new-KeepsOnFail name s accepts c q =
      let s0 = lock_global p t s in
      let locked = lock_global-Same p t s in
      let (r, s1) = allocate_locked p t name s0 in
      let kept =
        unlock_failed-KeepsOnFail r s0 s1
          (allocate_locked-KeepsOnFail name s0
            (λ handler e. accepts handler (sym (lock_global-event_handler p t s) ∙ e)))
          c in
      ground (arith, locked.table)

module _ {K : Type 0} (p : Port K) (t : ℕ) (store : Text → ℕ → Os K → Os K) (w : Names t store)
    (impl : ℕ → Os K → ℤ × K) where
  -- The IDs at every place are the same.
  abbrev pub SameIds : Os K → Os K → Type 0
  SameIds s s' = (e : ℕ) → (s'.common_table e).active_id ≡ (s.common_table e).active_id

  build-SameIds :
      (name : Text) (i : ℕ) (s s1 : Os K)
      → Allocated p t i s s1
      → let (code, out, s') = build p t (store name) impl (ok i, s1) in
        is_success code ≡ false → SameIds s s'
  unfolding build
  build-SameIds name i s s1 a bad e =
      let s2 = store name i s1 in
      let (status, s3) = run_locked (impl i s2) s2 in
      let same_id = ap (λ (r : CommonRecord). r.active_id) (w.named name i s1) in
      elim (Bool-cases (is_success status)) [
        | inl fine ↦
            let (code, _, _) = finalize_new-ok p status (entry t i) s3 fine (
              IsTyped-named p t store w impl i s3 a.in_range
                (subst (Fits t i) (sym same_id) a.fits)) in
            absurd (ground (arith, code, fine, bad))
        | inr failed ↦
            let (code, _, same) = finalize_new-fail p status (entry t i) s3 failed in
            ap (λ (c : ℕ → CommonRecord). (c e).active_id) same.table
            ∙ elim (ℕ_discrete e (entry t i)) [
              | yes q ↦ ground (arith, q, a.was_free)
              | no ne ↦ ground (arith, ne, w.others name i s1 e ne, a.others e ne)
            ]
      ]

  -- A create call that fails leaves the ID at every place as it was, if the event handler refuses
  -- no new ID.
  pub create-SameIds :
      (name : Text) (s : Os K)
      → Accepts s
      → is_success (create p t (store name) impl name s).0 ≡ false
      → SameIds s (create p t (store name) impl name s).2
  unfolding create build
  create-SameIds name s accepts bad = outcome (allocate_new p t (some name) s) refl bad
    where
      outcome :
          (r : Result ℕ × Os K)
          → allocate_new p t (some name) s ≡ r
          → let (code, out, s') = build p t (store name) impl r in
            is_success code ≡ false → SameIds s s'
      outcome (ok i, s1) e q =
          build-SameIds name i s s1 (allocate_new-Allocated p t (some name) i s s1 e).0 q
      outcome (fail c, s1) e q =
          let kept =
            allocate_new-KeepsOnFail p t (some name) s accepts c
              (ap (λ (r : Result ℕ × Os K). r.0) e) in
          let here = sym (ap (λ (r : Result ℕ × Os K). r.1.common_table) e) in
          λ g. ap (λ (k : ℕ → CommonRecord). (k g).active_id) (here ∙ kept)
