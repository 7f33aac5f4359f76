-- ===== src/Timer/Tick/OneShot.antt =====
-- Timers without an interval under OS_TimeBase_CallbackThread.
use Prim.{Unit}
use native.Mathlib.Decide.{dec_lt}
use hello_world_osal.Base.{
  ℕ, suc, ◌+◌, ◌-◌, ◌^◌, ◌≤◌, ◌<◌, ◌≡◌, refl, ap, ◌∙◌, arith, pos, Bool, true, false, List, [], ◌∷◌,
  ◌++◌, leb, ltb, if◌then◌else◌, sub_ℕ, is_positive-sub_ℕ, is_positive-pos, -ℤ-pos, int32-sub_ℕ,
  sub_ℕ-eq, sub_ℕ-zero,
}
use hello_world_osal.Idmap.Tables.{Callback, TimecbRecord}
use hello_world_osal.Timer.Tick.{Call, advance, call_due, expire, tick_timer}
use hello_world_osal.Timer.Tick.Expire.{
  armed, with, missed, advance-near, advance-far, expire-done, tick_timer-start,
}

-- The record of a timer that is late, and waits no longer.
abbrev spent : TimecbRecord → ℕ → TimecbRecord
spent r late = if ltb 0 late then missed r else r

spent-arg : (r : TimecbRecord) (late : ℕ) → (spent r late).callback_arg ≡ r.callback_arg
spent-arg r late = ground arith

advance-single :
    (f : Callback) (r : TimecbRecord) (late : ℕ)
    → advance (armed r f (sub_ℕ 0 late) 0) ≡ armed (spent r late) f (pos 0) 0
advance-single f r late = elim (dec_lt 0 late) [
  | yes h ↦
      let test : ltb 0 late ≡ true = ground arith in
      rw test (
        advance-far (with f r) late 0 (omega arith)
        ∙ ap (λ z. armed (missed r) f z 0) (sub_ℕ-zero 0))
  | no h ↦
      let test : ltb 0 late ≡ false = ground arith in
      rw test (
        advance-near (with f r) late 0 (omega arith)
        ∙ ap (λ z. armed r f z 0) (sub_ℕ-eq 0 late 0 0 (omega arith) ∙ sub_ℕ-zero 0))
]

expire-single :
    (fuel : ℕ) (due : Bool) (id : ℕ) (f : Callback) (r : TimecbRecord) (late : ℕ)
    → expire (suc fuel) due id (armed r f (sub_ℕ 0 late) 0)
      ≡ (armed (spent r late) f (pos 0) 0, call_due due id (armed (spent r late) f (pos 0) 0))
unfolding expire
expire-single fuel due id f r late =
    let waits : ltb late 0 ≡ false = ground arith in
    rw (is_positive-sub_ℕ 0 late, waits, is_positive-pos 0, advance-single f r late) refl

-- Ticks one after the other.
unfoldable pub tick_times : List ℕ → ℕ → TimecbRecord → TimecbRecord × List Call
tick_times [] id r = (r, [])
tick_times (tick ∷ ticks) id r =
    let (r1, calls) = tick_timer tick id r in
    let (r2, rest) = tick_times ticks id r1 in (r2, calls ++ rest)

abbrev pub total : List ℕ → ℕ
total [] = 0
total (tick ∷ ticks) = tick + total ticks

abbrev pub AreShort : List ℕ → Type 0
AreShort [] = Unit {0}
AreShort (tick ∷ ticks) = (tick ≤ 2 ^ 31) × AreShort ticks

module _ (id : ℕ) (f : Callback) where
  spent-tick :
      (tick : ℕ) (r : TimecbRecord)
      → tick ≤ 2 ^ 31
      → tick_timer tick id (armed r f (pos 0) 0) ≡ (armed (spent r tick) f (pos 0) 0, [])
  unfolding tick_timer call_due
  spent-tick tick r short =
      rw (is_positive-pos 0, -ℤ-pos 0 tick, int32-sub_ℕ 0 tick (omega arith) short)
        (expire-single 2 false id f r tick)

  last-tick :
      (tick w : ℕ) (r : TimecbRecord)
      → 0 < w
      → w < 2 ^ 31
      → w ≤ tick
      → tick ≤ 2 ^ 31
      → tick_timer tick id (armed r f (pos w) 0)
        ≡ (armed (spent r (tick - w)) f (pos 0) 0, (f, id, r.callback_arg) ∷ [])
  unfolding call_due
  last-tick tick w r h high late short =
      tick_timer-start id f tick w 0 r h high short
      ∙ ap (λ z. expire 3 true id (armed r f z 0)) (sub_ℕ-eq w tick 0 (tick - w) (omega arith))
      ∙ expire-single 2 true id f r (tick - w)
      ∙ ap (λ a. (armed (spent r (tick - w)) f (pos 0) 0, (f, id, a) ∷ [])) (spent-arg r (tick - w))

  -- Once it has called, a timer without an interval never calls again.
  tick_times-spent :
      (ticks : List ℕ) (r : TimecbRecord)
      → AreShort ticks
      → (tick_times ticks id (armed r f (pos 0) 0)).1 ≡ []
  unfolding tick_times
  tick_times-spent [] r short = refl
  tick_times-spent (tick ∷ ticks) r (short, rest) =
      rw (spent-tick tick r short) (tick_times-spent ticks (spent r tick) rest)

  -- A timer with a positive wait and no interval calls its callback exactly once through any ticks
  -- of at most 2^31, if they add up to the wait, and never if they do not.
  pub tick_times-single :
      (ticks : List ℕ) (w : ℕ) (r : TimecbRecord)
      → 0 < w
      → w < 2 ^ 31
      → AreShort ticks
      → (tick_times ticks id (armed r f (pos w) 0)).1
        ≡ (if leb w (total ticks) then (f, id, r.callback_arg) ∷ [] else [])
  unfolding tick_times
  tick_times-single [] w r h high short = ground arith
  tick_times-single (tick ∷ ticks) w r h high (short, rest) = elim (dec_lt tick w) [
    | yes early ↦
        let same : leb w (tick + total ticks) ≡ leb (w - tick) (total ticks) = ground arith in
        rw
          (
            tick_timer-start id f tick w 0 r h high short,
            expire-done id f 3 r w tick 0 early,
            sub_ℕ-eq w tick (w - tick) 0 (omega arith),
            sub_ℕ-zero (w - tick),
            same,
          )
          (tick_times-single ticks (w - tick) r (omega arith) (omega arith) rest)
    | no late ↦
        let over : leb w (tick + total ticks) ≡ true = ground arith in
        rw (last-tick tick w r h high (omega arith) short, over)
          (ap (λ calls. (f, id, r.callback_arg) ∷ calls)
            (tick_times-spent ticks (spent r (tick - w)) rest))
  ]
