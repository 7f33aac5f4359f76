-- ===== src/Timer/Rings.antt =====
-- The timers that hang on a time base, from `first_cb` on: OS_DoTimerAdd and OS_TimerDelete
-- (osapi-time.c), and the tick (osapi-timebase.c).
pub mod Detach
use Prim.{tt}
use hello_world_osal.Base.{
  ℕ, ◌+◌, ◌<◌, ◌%◌, ◌^◌, ◌≡◌, ◌≢◌, refl, sym, ap, ◌∙◌, subst, arith, true, false, Option, some,
  List, [], ◌∷◌, ◌++◌, Text, ◌==◌, not, if◌then◌else◌, update, update_self, os_err_invalid_id,
  Bool-cases, inl, inr,
}
use hello_world_osal.Idmap.ObjectType
use hello_world_osal.Idmap.Id.{
  ok, fail, entry, to_type, is_defined, compose, to_array_index, get_max_for_object_type,
}
use hello_world_osal.Idmap.Id.Codec.{to_type-compose}
use hello_world_osal.Idmap.Tables.{Callback, TimebaseRecord, TimecbRecord, zero_timecb}
use hello_world_osal.Idmap.State.{Os, CommonRecord}
use hello_world_osal.Idmap.Invariant.{Fits, to_array_index-Fits, Fits-pos}
use hello_world_osal.Timer.Timers.{attach, detach, timecb_store, link}
use hello_world_osal.Timer.Timers.Ring.{
  IsApart, Leads, IsRing, Leads-kept, link-IsRing, unlink-first, unlink-other,
}
use hello_world_osal.Timer.Timers.Count.{AreBelow, length-AreBelow}
use hello_world_osal.Timer.Tick.{process_tick}
use hello_world_osal.Timer.Tick.Walk.{ticked, calls_of, ids_of, tick_ring-ticked}

empty-index : to_array_index ObjectType.timecb 0 ≡ fail os_err_invalid_id
unfolding to_array_index to_type
empty-index = refl

-- A record that is not in a list has no part in its links.
Leads-update :
    (table : ℕ → TimecbRecord) (i : ℕ) (r : TimecbRecord) (a b : ℕ) (xs : List ℕ)
    → Leads table a xs b
    → IsApart i (a ∷ xs)
    → i ≢ b
    → Leads (update table i r) a xs b
Leads-update table i r a b xs leads (ia, apart) ne =
    Leads-kept table (update table i r) i i i i (λ j k l. ground arith) (λ j k l. ground arith) a b
      xs leads (ia, apart) (ia, apart) apart apart ne ne

abbrev new_timer : ℕ → Option Callback → ℕ → ℕ → Text → ℕ → TimecbRecord
new_timer b callback arg flags name i = record zero_timecb {
  timer_name = name;
  callback_ptr = callback;
  callback_arg = arg;
  timebase_ref = b;
  flags = flags;
  prev_ref = i;
  next_ref = i;
}

module _ {K : Type 0} where
  -- Time base `b` has the timers of the list, in this order.
  abbrev pub Hangs : Os K → ℕ → List ℕ → Type 0
  Hangs s b [] = (s.timebase_table b).first_cb ≡ 0
  Hangs s b (h ∷ xs) =
      AreBelow 10 (h ∷ xs)
      × Fits ObjectType.timecb h (s.timebase_table b).first_cb
      × IsRing s.timecb_table h xs

  pub first-index :
      (s : Os K) (b h : ℕ) (xs : List ℕ)
      → Hangs s b (h ∷ xs)
      → to_array_index ObjectType.timecb (s.timebase_table b).first_cb ≡ ok h
  unfolding get_max_for_object_type
  first-index s b h xs ((lt, below), fits, ring) =
      (to_array_index-Fits ObjectType.timecb h (s.timebase_table b).first_cb lt fits).0

  abbrev pub free_running : ℕ → ℕ → Os K → Os K
  free_running tick b s = record s {
    timebase_table = update s.timebase_table b (record (s.timebase_table b) {
      freerun_time = ((s.timebase_table b).freerun_time + tick) % 2 ^ 32;
    });
  }

  -- A tick of a time base gives each timer that hangs on it the tick exactly once, in the order of
  -- the ring from the first on, makes their calls in that order, and then stops: no other record
  -- is changed but the count of the elapsed time.
  pub process_tick-Hangs :
      (tick b : ℕ) (s : Os K) (xs : List ℕ)
      → Hangs s b xs
      → let table = ticked tick (ids_of s) s.timecb_table xs in
        process_tick tick b s ≡ (
          record (free_running tick b s) { timecb_table = table },
          calls_of tick (ids_of s) s.timecb_table xs,
        )
  unfolding process_tick
  process_tick-Hangs tick b s [] none_left =
      let none_found = ap (to_array_index ObjectType.timecb) none_left ∙ empty-index in
      rw (process_tick, none_found) refl
  process_tick-Hangs tick b s (h ∷ xs) (below, fits, ((dh, dx), ring)) =
      rw (process_tick, first-index s b h xs (below, fits, ((dh, dx), ring)))
        (tick_ring-ticked tick h 10 h xs (free_running tick b s) ring dh (dh, dx)
          (omega (arith, length-AreBelow 10 (h ∷ xs) (dh, dx) below)))

  pub attach-first :
      (garbage b i : ℕ) (s : Os K)
      → ((attach garbage b i s).timebase_table b).first_cb
        ≡ (s.common_table (entry ObjectType.timecb i)).active_id
  unfolding attach
  attach-first garbage b i s =
      let id = (s.common_table (entry ObjectType.timecb i)).active_id in
      let own : (update s.timebase_table b (record (s.timebase_table b) { first_cb = id })
            b).first_cb
          ≡ id =
        ap (λ (r : TimebaseRecord). r.first_cb)
          (update_self s.timebase_table b (record (s.timebase_table b) { first_cb = id })) in
      elim (Bool-cases (is_defined (s.timebase_table b).first_cb)) [
        | inl some_left ↦ rw some_left own
        | inr none_left ↦ rw none_left own
      ]

  attach-none :
      (garbage b i : ℕ) (s : Os K)
      → (s.timebase_table b).first_cb ≡ 0
      → (attach garbage b i s).timecb_table ≡ s.timecb_table
  unfolding attach
  attach-none garbage b i s e = rw e refl

  attach-some :
      (garbage b i h : ℕ) (s : Os K)
      → to_array_index ObjectType.timecb (s.timebase_table b).first_cb ≡ ok h
      → (s.timebase_table b).first_cb ≢ 0
      → (attach garbage b i s).timecb_table ≡ link i h s.timecb_table
  unfolding attach
  attach-some garbage b i h s e ne =
      let defined : is_defined (s.timebase_table b).first_cb ≡ true = ground arith in
      rw (e, defined) refl

  -- Whatever timers hang on a time base, a new timer that OS_DoTimerAdd attaches, whose ID belongs
  -- in its place, comes first and the others follow in their order, in one ring.
  pub attach-Hangs :
      (garbage b : ℕ) (callback : Option Callback) (arg flags : ℕ) (name : Text) (i : ℕ) (s : Os K)
      (xs : List ℕ)
      → Hangs s b xs
      → IsApart i xs
      → i < 10
      → Fits ObjectType.timecb i (s.common_table (entry ObjectType.timecb i)).active_id
      → Hangs (attach garbage b i (timecb_store b callback arg flags name i s)) b (i ∷ xs)
  unfolding timecb_store get_max_for_object_type
  attach-Hangs garbage b callback arg flags name i s xs hangs apart lt fits =
      let s1 = timecb_store b callback arg flags name i s in
      let e = entry ObjectType.timecb i in
      let first =
        attach-first garbage b i s1
        ∙ ap (λ (r : CommonRecord). r.active_id)
            (update_self s.common_table e (record (s.common_table e) { name_entry = some name })) in
      let fits' = subst (Fits ObjectType.timecb i) (sym first) fits in chain xs hangs apart fits'
    where
      chain :
          (ys : List ℕ)
          → Hangs s b ys
          → IsApart i ys
          → Fits ObjectType.timecb i
              ((attach garbage b i (timecb_store b callback arg flags name i s)).timebase_table
                b).first_cb
          → Hangs (attach garbage b i (timecb_store b callback arg flags name i s)) b (i ∷ ys)
      chain [] none_left apart' fits' =
          let r = new_timer b callback arg flags name i in
          let table =
            attach-none garbage b i (timecb_store b callback arg flags name i s) none_left in
          (
            (lt, tt),
            fits',
            (
              (tt, tt),
              (
                rw table (ap (λ (q : TimecbRecord). q.next_ref) (update_self s.timecb_table i r)),
                rw table (ap (λ (q : TimecbRecord). q.prev_ref) (update_self s.timecb_table i r)),
              ),
            ),
          )
      chain (h ∷ hs) (below, fits0, (distinct, ring)) (ih, apart') fits' =
          let r = new_timer b callback arg flags name i in
          let s1 = timecb_store b callback arg flags name i s in
          let index = first-index s b h hs (below, fits0, (distinct, ring)) in
          let defined = Fits-pos ObjectType.timecb h (s.timebase_table b).first_cb below.0 fits0 in
          let table = attach-some garbage b i h s1 index defined in
          (
            (lt, below),
            fits',
            subst (λ t. IsRing t i (h ∷ hs)) (sym table)
                (link-IsRing s1.timecb_table i h hs
                  (distinct, Leads-update s.timecb_table i r h h hs ring (ih, apart') ih)
                  (ih, apart')),
          )
