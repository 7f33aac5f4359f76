-- ===== src/Timer/Tick/Walk.antt =====
-- The outer loop of OS_TimeBase_CallbackThread: each timer of the ring has its tick once, in the order
-- of the ring.
use mathlib.Core.Path.{ap₂}
use mathlib.Core.List.{append-nil}
use hello_world_osal.Base.{
  ℕ, zero, suc, ◌<◌, ◌≡◌, refl, sym, ap, ◌∙◌, arith, pos, Bool, true, false, List, [], ◌∷◌, ◌++◌,
  ◌==◌, is_positive, int32, ◌-ℤ◌, update, update_ne, update_self, update_comm, length,
}
use hello_world_osal.Idmap.ObjectType
use hello_world_osal.Idmap.Id.{entry}
use hello_world_osal.Idmap.State.{Os}
use hello_world_osal.Idmap.Tables.{TimecbRecord}
use hello_world_osal.Timer.Tick.{Call, advance, expire, tick_timer, tick_at, tick_ring}
use hello_world_osal.Timer.Timers.Ring.{IsApart, IsDistinct, Leads}

-- The links of a timer are not the tick's.
advance-links :
    (r : TimecbRecord) → ((advance r).next_ref ≡ r.next_ref) × ((advance r).prev_ref ≡ r.prev_ref)
unfolding advance
advance-links r = ground arith

expire-links :
    (fuel : ℕ) (due : Bool) (id : ℕ) (r : TimecbRecord)
    → ((expire fuel due id r).0.next_ref ≡ r.next_ref)
      × ((expire fuel due id r).0.prev_ref ≡ r.prev_ref)
unfolding expire
expire-links zero due id r = (refl, refl)
expire-links (suc fuel) due id r =
    ground (arith, advance-links r, expire-links fuel due id (advance r))

tick_timer-links :
    (tick id : ℕ) (r : TimecbRecord)
    → ((tick_timer tick id r).0.next_ref ≡ r.next_ref)
      × ((tick_timer tick id r).0.prev_ref ≡ r.prev_ref)
unfolding tick_timer
tick_timer-links tick id r =
    expire-links 3 (is_positive r.wait_time) id
      (record r { wait_time = int32 (r.wait_time -ℤ pos tick) })

-- Leads only reads the links.
pub Leads-same :
    (table table' : ℕ → TimecbRecord)
    → ((i : ℕ)
        → ((table' i).next_ref ≡ (table i).next_ref) × ((table' i).prev_ref ≡ (table i).prev_ref))
    → (a b : ℕ) (xs : List ℕ) → Leads table a xs b
    → Leads table' a xs b
Leads-same table table' same a b [] (go, back) = ((same a).0 ∙ go, (same b).1 ∙ back)
Leads-same table table' same a b (x ∷ xs) (go, back, rest) =
    ((same a).0 ∙ go, (same x).1 ∙ back, Leads-same table table' same x b xs rest)

module _ (tick : ℕ) (ids : ℕ → ℕ) where
  -- Each timer of the list has the tick, from its own record in `table`.
  abbrev pub ticked : (ℕ → TimecbRecord) → List ℕ → ℕ → TimecbRecord
  ticked table [] = table
  ticked table (x ∷ xs) = update (ticked table xs) x (tick_timer tick (ids x) (table x)).0

  -- The calls, timer for timer.
  abbrev pub calls_of : (ℕ → TimecbRecord) → List ℕ → List Call
  calls_of table [] = []
  calls_of table (x ∷ xs) = (tick_timer tick (ids x) (table x)).1 ++ calls_of table xs

  ticked-update :
      (table : ℕ → TimecbRecord) (a : ℕ) (r : TimecbRecord) (xs : List ℕ)
      → IsApart a xs
      → (ticked (update table a r) xs ≡ update (ticked table xs) a r)
        × (calls_of (update table a r) xs ≡ calls_of table xs)
  ticked-update table a r [] apart = (refl, refl)
  ticked-update table a r (x ∷ xs) (ne, apart) =
      let (ih, ihc) = ticked-update table a r xs apart in
      let own = update_ne table a x r ne in
      let record_of : TimecbRecord → TimecbRecord = λ q. (tick_timer tick (ids x) q).0 in
      let calls : TimecbRecord → List Call = λ q. (tick_timer tick (ids x) q).1 in
      (
        ap₂ (λ (t : ℕ → TimecbRecord) (q : TimecbRecord). update t x (record_of q)) ih own
            ∙ update_comm (ticked table xs) a x r (record_of (table x)) ne,
        ap₂ (λ (c : List Call) (q : TimecbRecord). calls q ++ c) ihc own,
      )

module _ {K : Type 0} where
  abbrev pub ids_of : Os K → ℕ → ℕ
  ids_of s i = (s.common_table (entry ObjectType.timecb i)).active_id

module _ {K : Type 0} (tick head : ℕ) where
  -- The loop goes once round the ring and stops.
  pub tick_ring-ticked :
      (fuel a : ℕ) (xs : List ℕ) (s : Os K)
      → Leads s.timecb_table a xs head
      → IsApart head xs
      → IsDistinct (a ∷ xs)
      → length xs < fuel
      → tick_ring fuel tick head a s ≡ (
        record s { timecb_table = ticked tick (ids_of s) s.timecb_table (a ∷ xs) },
        calls_of tick (ids_of s) s.timecb_table (a ∷ xs),
      )
  unfolding tick_ring tick_at
  tick_ring-ticked zero a xs s leads apart distinct enough = absurd (omega (arith, enough))
  tick_ring-ticked (suc fuel) a [] s (go, back) apart distinct enough =
      let table = s.timecb_table in
      let (r, calls) = tick_timer tick (ids_of s a) (table a) in
      let next : (update table a r a).next_ref ≡ head =
        ap (λ (q : TimecbRecord). q.next_ref) (update_self table a r)
        ∙ (tick_timer-links tick (ids_of s a) (table a)).0
        ∙ go in
      let at_end : (head == head) ≡ true = ground arith in
      rw (next, at_end)
        (ap (λ (c : List Call). (record s { timecb_table = update table a r }, c))
          (sym (append-nil calls)))
  tick_ring-ticked (suc fuel) a (x ∷ xs) s (go, back, rest) (hx, apart) ((ax, da), distinct)
        enough =
      let table = s.timecb_table in
      let ids = ids_of s in
      let (r, calls) = tick_timer tick (ids a) (table a) in
      let (next_same, prev_same) = tick_timer-links tick (ids a) (table a) in
      let s1 = record s { timecb_table = update table a r } in
      let next : (update table a r a).next_ref ≡ x =
        ap (λ (q : TimecbRecord). q.next_ref) (update_self table a r) ∙ next_same ∙ go in
      let goes_on : (x == head) ≡ false = ground arith in
      let kept = Leads-same table (update table a r) (λ i. ground arith) x head xs rest in
      let ih = tick_ring-ticked fuel x xs s1 kept apart distinct (omega arith) in
      let (same, same_calls) = ticked-update tick ids table a r (x ∷ xs) (ax, da) in
      rw (next, goes_on, ih)
        (ap₂ (λ (t : ℕ → TimecbRecord) (c : List Call). (record s { timecb_table = t }, calls ++ c))
          same same_calls)
