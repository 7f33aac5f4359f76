-- ===== src/Timer/Adding/Joined.antt =====
-- A new timer joins the timers of its time base: the whole of OS_DoTimerAdd (osapi-time.c).
use Prim.{Unit, tt}
use hello_world_osal.Base.{
  ℕ, ◌<◌, ◌≡◌, ◌≢◌, refl, sym, ap, ◌∙◌, subst, arith, ℤ, true, false, Option, some, Text, List, [],
  ◌∷◌, os_success, length, update_self,
}
use hello_world_osal.Idmap.ObjectType
use hello_world_osal.Idmap.Id.{get_max_for_object_type, to_type, Result, ok, fail, entry}
use hello_world_osal.Idmap.Tables.{TimebaseRecord, Callback}
use hello_world_osal.Idmap.State.{Os, Port, CommonRecord}
use hello_world_osal.Idmap.Lock.{refcounted}
use hello_world_osal.Idmap.Lookup.{get_by_id, max_api_name}
use hello_world_osal.Idmap.Alloc.{finalize_new, allocate_new}
use hello_world_osal.Idmap.Alloc.Allocated.{Allocated, allocate_new-Allocated}
use hello_world_osal.Idmap.Alloc.Codes.{FailsBadly, allocate_new-FailsBadly}
use hello_world_osal.Idmap.Alloc.Settled.{IsTyped, finalize_new-ok}
use hello_world_osal.Service.{build}
use hello_world_osal.Timer.TimeBase.{TimeBaseImpl, in_callback}
use hello_world_osal.Timer.Timers.{attach, timecb_store, add_allocated, add_found, do_timer_add}
use hello_world_osal.Timer.Timers.Ring.{IsApart}
use hello_world_osal.Timer.Rings.{Hangs, attach-Hangs, attach-first}
use hello_world_osal.Timer.Adding.{
  Fits, SameTimers, Hangs-SameTimers, allocate_new-SameTimers, finalize_new-SameTimers,
}

in_range : (i : ℕ) → i < get_max_for_object_type ObjectType.timecb → i < 10
unfolding get_max_for_object_type
in_range i h = h

module _ {K : Type 0} where
  -- The places of these timers are taken.
  abbrev pub AreInUse : Os K → List ℕ → Type 0
  AreInUse s [] = Unit {0}
  AreInUse s (x ∷ xs) = ((s.common_table (entry ObjectType.timecb x)).active_id ≢ 0) × AreInUse s xs

  free-IsApart :
      (i : ℕ) (s : Os K) (xs : List ℕ)
      → (s.common_table (entry ObjectType.timecb i)).active_id ≡ 0
      → AreInUse s xs
      → IsApart i xs
  free-IsApart i s [] free used = tt
  free-IsApart i s (x ∷ xs) free (taken, used) = (
    λ same.
        taken (subst (λ j. (s.common_table (entry ObjectType.timecb j)).active_id ≡ 0) same free),
    free-IsApart i s xs free used,
  )

  attach-common :
      (garbage b i : ℕ) (s : Os K) → (attach garbage b i s).common_table ≡ s.common_table
  unfolding attach
  attach-common garbage b i s = ground arith

  IsTyped-timecb :
      (i : ℕ) (s : Os K)
      → Fits ObjectType.timecb i (s.common_table (entry ObjectType.timecb i)).active_id
      → IsTyped (entry ObjectType.timecb i) s
  unfolding to_type
  IsTyped-timecb i s f = omega (arith, f.kind)

  timecb_store-id :
      (b : ℕ) (callback : Option Callback) (arg flags : ℕ) (name : Text) (i : ℕ) (s : Os K)
      → ((timecb_store b callback arg flags name i s).common_table
          (entry ObjectType.timecb i)).active_id
        ≡ (s.common_table (entry ObjectType.timecb i)).active_id
  unfolding timecb_store
  timecb_store-id b callback arg flags name i s =
      let e = entry ObjectType.timecb i in
      ap (λ (r : CommonRecord). r.active_id)
        (update_self s.common_table e (record (s.common_table e) { name_entry = some name }))

  -- The outcome of OS_DoTimerAdd: a timer `i` is now before the others, and its ID goes out.
  abbrev pub Joined : ℕ → List ℕ → ℤ × Option ℕ × Os K → Type 0
  Joined b xs (code, out, s) =
      (i : ℕ) × Hangs s b (i ∷ xs) × (out ≡ some (s.timebase_table b).first_cb)

module _ {K : Type 0} (p : Port K) (impl : TimeBaseImpl K) (garbage : ℕ) where
  build-Joined :
      (b : ℕ) (callback : Option Callback) (arg flags : ℕ) (name : Text) (i : ℕ) (s s1 : Os K)
      (xs : List ℕ)
      → Allocated p ObjectType.timecb i s s1
      → SameTimers s s1
      → Hangs s b xs
      → AreInUse s xs
      → Joined b xs (add_allocated p impl garbage b callback arg flags name (ok i, s1))
  unfolding add_allocated build
  build-Joined b callback arg flags name i s s1 xs a same hangs used =
      let e = entry ObjectType.timecb i in
      let s2 = timecb_store b callback arg flags name i s1 in
      let s3 = attach garbage b i s2 in
      let s4 = (finalize_new p os_success e s3).2 in
      let joined =
        attach-Hangs garbage b callback arg flags name i s1 xs
          (Hangs-SameTimers s s1 b xs same hangs) (free-IsApart i s xs a.was_free used)
          (in_range i a.in_range) a.fits in
      let kept = finalize_new-SameTimers p os_success e s3 in
      let same_id =
        ap (λ (c : ℕ → CommonRecord). (c e).active_id) (attach-common garbage b i s2)
        ∙ timecb_store-id b callback arg flags name i s1 in
      let (_, id, _) =
        finalize_new-ok p os_success e s3 refl
          (IsTyped-timecb i s3 (subst (Fits ObjectType.timecb i) (sym same_id) a.fits)) in
      let first : (s4.timebase_table b).first_cb ≡ (s3.common_table e).active_id =
        ap (λ (c : ℕ → TimebaseRecord). (c b).first_cb) kept.bases
        ∙ attach-first garbage b i s2
        ∙ sym (ap (λ (c : ℕ → CommonRecord). (c e).active_id) (attach-common garbage b i s2)) in
      (i, Hangs-SameTimers s3 s4 b (i ∷ xs) kept joined, ap some (id ∙ sym first))

  add_allocated-fail :
      (b : ℕ) (callback : Option Callback) (arg flags : ℕ) (name : Text) (c : ℤ) (s : Os K)
      → (add_allocated p impl garbage b callback arg flags name (fail c, s)).0 ≡ c
  unfolding add_allocated
  add_allocated-fail b callback arg flags name c s = refl

  add_allocated-Joined :
      (b : ℕ) (callback : Option Callback) (arg flags : ℕ) (name : Text) (s : Os K) (xs : List ℕ)
      → Hangs s b xs
      → AreInUse s xs
      → let r =
          add_allocated p impl garbage b callback arg flags name
            (allocate_new p ObjectType.timecb (some name) s) in
        r.0 ≡ os_success → Joined b xs r
  add_allocated-Joined b callback arg flags name s xs hangs used done =
      outcome (allocate_new p ObjectType.timecb (some name) s) refl
        (allocate_new-FailsBadly p ObjectType.timecb (some name) s) done
    where
      outcome :
          (r : Result ℕ × Os K)
          → allocate_new p ObjectType.timecb (some name) s ≡ r
          → FailsBadly r
          → (add_allocated p impl garbage b callback arg flags name r).0 ≡ os_success
          → Joined b xs (add_allocated p impl garbage b callback arg flags name r)
      outcome (ok i, s1) e bad q =
          let (a, _) = allocate_new-Allocated p ObjectType.timecb (some name) i s s1 e in
          let same =
            subst (λ (r : Result ℕ × Os K). SameTimers s r.1) e
              (allocate_new-SameTimers p ObjectType.timecb (some name) s) in
          build-Joined b callback arg flags name i s s1 xs a same hangs used
      outcome (fail c, s1) e bad q =
          absurd (ground (arith, bad, q, add_allocated-fail b callback arg flags name c s1))

  do_timer_add-eq :
      (timebase : ℕ) (f : Callback) (arg flags : ℕ) (name : Text) (s s1 : Os K) (b : ℕ)
      → get_by_id p refcounted ObjectType.timebase timebase s ≡ (ok b, s1)
      → let r = do_timer_add p impl garbage true (some name) timebase (some f) arg flags s in
        r.0 ≡ os_success
        → (length name < max_api_name)
          × (in_callback p ≡ false)
          × (r
              ≡ add_allocated p impl garbage b
                  (some f)
                  arg
                  flags
                  name
                  (allocate_new p ObjectType.timecb (some name) s1))
  unfolding do_timer_add add_found
  do_timer_add-eq timebase f arg flags name s s1 b found done = ground (arith, found, done)

  -- OS_DoTimerAdd succeeds only outside of a timer callback and with a name within the limit.
  -- Then, whatever timers in use hung on the time base that the lookup found, the new timer is
  -- before them, in one ring, and its ID goes out.
  pub do_timer_add-Joined :
      (timebase : ℕ) (f : Callback) (arg flags : ℕ) (name : Text) (s s1 : Os K) (b : ℕ)
      (xs : List ℕ)
      → get_by_id p refcounted ObjectType.timebase timebase s ≡ (ok b, s1)
      → Hangs s1 b xs
      → AreInUse s1 xs
      → let r = do_timer_add p impl garbage true (some name) timebase (some f) arg flags s in
        r.0 ≡ os_success → (length name < max_api_name) × (in_callback p ≡ false) × Joined b xs r
  do_timer_add-Joined timebase f arg flags name s s1 b xs found hangs used done =
      let (short, outside, same) = do_timer_add-eq timebase f arg flags name s s1 b found done in
      (
        short,
        outside,
        subst (Joined b xs) (sym same) (
            add_allocated-Joined b (some f) arg flags name s1 xs hangs used
              (sym (ap (λ (r : ℤ × Option ℕ × Os K). r.0) same) ∙ done)),
      )
