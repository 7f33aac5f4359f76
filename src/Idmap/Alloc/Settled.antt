-- ===== src/Idmap/Alloc/Settled.antt =====
-- OS_ObjectIdFinalizeNew and OS_ObjectIdFinalizeDelete, seen from their results.
use hello_world_osal.Base.{
  sym, subst, update_self, ◌∙◌, ℕ, ◌≡◌, ◌≢◌, ◌<◌, refl, ap, arith, ℤ, true, false, is_success,
}
use hello_world_osal.Idmap.ObjectType
use hello_world_osal.Idmap.Id.{to_type, undefined_id}
use hello_world_osal.Idmap.State.{
  Os, Port, CommonRecord, set_record, resource_created, resource_deleted,
}
use hello_world_osal.Idmap.Lock.{unlock_global}
use hello_world_osal.Idmap.Frame.{Same, Same-trans, unlock_global-Same, notify_defined-Same}
use hello_world_osal.Idmap.Alloc.{notify_defined, settle_new, finalize_new, finalize_delete}

module _ {K : Type 0} where
  -- `s` with the ID at `e` taken back.
  abbrev pub vacated : ℕ → Os K → Os K
  vacated e s = set_record s e (record (s.common_table e) { active_id = undefined_id })

  -- The type of the ID at `e` is one of the types of the API.
  abbrev pub IsTyped : ℕ → Os K → Type 0
  IsTyped e s = let t = to_type (s.common_table e).active_id in (t ≢ 0) × (t < ObjectType.user)

module _ {K : Type 0} (p : Port K) (status : ℤ) (e : ℕ) (s : Os K) where
  settle_new-ok :
      is_success status ≡ true
      → IsTyped e s
      → ((settle_new status e s).0 ≡ status) × Same s (settle_new status e s).1
  unfolding settle_new
  settle_new-ok ok typed = ground arith

  settle_new-fail : is_success status ≡ false → settle_new status e s ≡ (status, (vacated e s))
  unfolding settle_new
  settle_new-fail h = ground arith

  -- With a status of success the object stays, its ID goes out, and the status is returned.
  pub finalize_new-ok :
      is_success status ≡ true
      → IsTyped e s
      → let (code, id, s') = finalize_new p status e s in
        (code ≡ status) × (id ≡ (s.common_table e).active_id) × Same s s'
  unfolding finalize_new
  finalize_new-ok ok typed =
      let t = to_type (s.common_table e).active_id in
      let s1 = (settle_new status e s).1 in
      let id = (s1.common_table e).active_id in
      let (code, same) = settle_new-ok ok typed in
      (
        code,
        ap (λ (c : ℕ → CommonRecord). (c e).active_id) same.table,
        Same-trans same (
            Same-trans (unlock_global-Same p t s1)
              (notify_defined-Same resource_created id (unlock_global p t s1))),
      )

  -- With any other status the object's ID is taken back, 0 goes out, and the status is returned.
  pub finalize_new-fail :
      is_success status ≡ false
      → let (code, id, s') = finalize_new p status e s in
        (code ≡ status) × (id ≡ 0) × Same (vacated e s) s'
  unfolding finalize_new
  finalize_new-fail h =
      let t = to_type (s.common_table e).active_id in
      let r = settle_new-fail h in
      (
        ap (λ (r : ℤ × Os K). r.0) r,
        ap (λ (r : ℤ × Os K). (r.1.common_table e).active_id) r
            ∙ ap (λ (r : CommonRecord). r.active_id) (update_self s.common_table e _),
        subst
            (λ (r : ℤ × Os K). Same (vacated e s) (
              notify_defined resource_created (r.1.common_table e).active_id
                (unlock_global p t r.1)))
            (sym r)
            (Same-trans (unlock_global-Same p t (vacated e s)) (
              notify_defined-Same resource_created ((vacated e s).common_table e).active_id
                (unlock_global p t (vacated e s)))),
      )

  pub finalize_delete-ok :
      is_success status ≡ true
      → let (code, s') = finalize_delete p status e s in (code ≡ status) × Same (vacated e s) s'
  unfolding finalize_delete
  finalize_delete-ok h =
      let id = (s.common_table e).active_id in
      rw h (
        refl,
        Same-trans (unlock_global-Same p (to_type id) (vacated e s))
            (notify_defined-Same resource_deleted id (unlock_global p (to_type id) (vacated e s))),
      )

  pub finalize_delete-fail :
      is_success status ≡ false
      → let (code, s') = finalize_delete p status e s in (code ≡ status) × Same s s'
  unfolding finalize_delete
  finalize_delete-fail h =
      ground (arith, unlock_global-Same p (to_type (s.common_table e).active_id) s)
