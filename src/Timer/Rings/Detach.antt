-- ===== src/Timer/Rings/Detach.antt =====
-- A timer leaves the ring of its time base, and the ticks after it (osapi-time.c).
use hello_world_osal.Base.{
  ℕ, ◌<◌, ◌≡◌, ◌≢◌, refl, sym, ap, ◌∙◌, subst, arith, true, false, List, [], ◌∷◌, ◌++◌, ◌==◌, not,
  if◌then◌else◌, update_self, os_err_invalid_id,
}
use hello_world_osal.Idmap.ObjectType
use hello_world_osal.Idmap.Id.{fail, compose, to_array_index}
use hello_world_osal.Idmap.Id.Codec.{to_type-compose}
use hello_world_osal.Idmap.Tables.{TimebaseRecord}
use hello_world_osal.Idmap.State.{Os}
use hello_world_osal.Idmap.Invariant.{Fits}
use hello_world_osal.Timer.Timers.{detach}
use hello_world_osal.Timer.Timers.Ring.{IsRing, unlink-first, unlink-other}
use hello_world_osal.Timer.Timers.Count.{AreBelow}
use hello_world_osal.Timer.Tick.{process_tick}
use hello_world_osal.Timer.Rings.{Hangs, free_running}

drop-AreBelow :
    (n x : ℕ) (pre post : List ℕ) → AreBelow n (pre ++ x ∷ post) → AreBelow n (pre ++ post)
drop-AreBelow n x [] post (lt, below) = below
drop-AreBelow n x (y ∷ pre) post (lt, below) = (lt, drop-AreBelow n x pre post below)

-- An ID of a time base is none of a timer.
wrong-index :
    (y : ℕ)
    → y < 10
    → to_array_index ObjectType.timecb (compose ObjectType.timebase y) ≡ fail os_err_invalid_id
unfolding to_array_index
wrong-index y h = ground (arith, to_type-compose ObjectType.timebase y)

module _ {K : Type 0} where
  -- The time base of timer `x`, and its first timer once `x` is deleted under the ID `id`.
  abbrev pub base_of : Os K → ℕ → ℕ
  base_of s x = (s.timecb_table x).timebase_ref

  abbrev new_first : ℕ → ℕ → Os K → ℕ
  new_first id x s =
      if (s.timebase_table (base_of s x)).first_cb == id
      then (if not ((s.timecb_table x).next_ref == x)
          then compose ObjectType.timebase (s.timecb_table x).next_ref
          else 0)
      else (s.timebase_table (base_of s x)).first_cb

  detach-first :
      (id x : ℕ) (s : Os K)
      → ((detach id x s).timebase_table (base_of s x)).first_cb ≡ new_first id x s
  unfolding detach
  detach-first id x s =
      ap (λ (r : TimebaseRecord). r.first_cb)
        (update_self s.timebase_table (base_of s x)
          (record (s.timebase_table (base_of s x)) { first_cb = new_first id x s }))

  -- The removal of a timer that is not the first of its time base leaves the others in one ring, in
  -- their order.
  pub detach-other :
      (id x h : ℕ) (s : Os K) (pre post : List ℕ)
      → Hangs s (base_of s x) (h ∷ pre ++ x ∷ post)
      → (s.timebase_table (base_of s x)).first_cb ≢ id
      → Hangs (detach id x s) (base_of s x) (h ∷ pre ++ post)
  unfolding detach
  detach-other id x h s pre post ((lt, below), fits, ring) ne =
      let other : ((s.timebase_table (base_of s x)).first_cb == id) ≡ false = ground arith in
      let first : new_first id x s ≡ (s.timebase_table (base_of s x)).first_cb = rw other refl in
      (
        (lt, drop-AreBelow 10 x pre post below),
        subst (Fits ObjectType.timecb h) (sym (detach-first id x s ∙ first)) fits,
        unlink-other x post s.timecb_table h pre ring,
      )

  -- The last timer leaves the time base without any.
  pub detach-last :
      (x : ℕ) (s : Os K)
      → Hangs s (base_of s x) (x ∷ [])
      → Hangs (detach (s.timebase_table (base_of s x)).first_cb x s) (base_of s x) []
  detach-last x s (below, fits, (distinct, (go, back))) =
      detach-first (s.timebase_table (base_of s x)).first_cb x s ∙ ground arith

  pub process_tick-fail :
      (tick b : ℕ) (s : Os K)
      → to_array_index ObjectType.timecb (s.timebase_table b).first_cb ≡ fail os_err_invalid_id
      → process_tick tick b s ≡ (free_running tick b s, [])
  unfolding process_tick
  process_tick-fail tick b s e = rw (process_tick, e) refl

  -- Once the first of several timers of a time base is removed, the others still form a ring, but
  -- the ID that the time base has for its first timer leads to none.
  pub detach-lost :
      (x y : ℕ) (s : Os K) (ys : List ℕ)
      → Hangs s (base_of s x) (x ∷ y ∷ ys)
      → let s' = detach (s.timebase_table (base_of s x)).first_cb x s in
        IsRing s'.timecb_table y ys
        × (to_array_index ObjectType.timecb (s'.timebase_table (base_of s x)).first_cb
            ≡ fail os_err_invalid_id)
  unfolding detach
  detach-lost x y s ys ((lx, (ly, below)), fits, ring) =
      let (((xy, dx), distinct), (go, back, rest)) = ring in
      let first_id = (s.timebase_table (base_of s x)).first_cb in
      let own : (first_id == first_id) ≡ true = ground arith in
      let more : (y == x) ≡ false = ground arith in
      let lost : new_first first_id x s ≡ compose ObjectType.timebase y = rw (own, go, more) refl in
      (
        unlink-first s.timecb_table x y ys ring,
        ap (to_array_index ObjectType.timecb) (detach-first first_id x s ∙ lost) ∙ wrong-index y ly,
      )
