-- ===== src/Timer/Tick/Expire.antt =====
-- The inner loop of OS_TimeBase_CallbackThread on one timer.
use native.Mathlib.Decide.{dec_lt, dec_le}
use native.Mathlib.Nat.{div-eq_of_lt, div-eq_of_lt-le}
use hello_world_osal.Base.{
  int32-sub_ℕ, sub_ℕ-zero, sub_ℕ-eq, ltb_ℤ-sub_ℕ, is_positive-pos, -ℤ-pos, +ℤ-sub_ℕ,
  is_positive-sub_ℕ, ℕ, zero, suc, ◌+◌, ◌-◌, ◌*◌, ◌/◌, ◌%◌, ◌^◌, ◌≤◌, ◌<◌, ◌≡◌, refl, sym, ap, ◌∙◌,
  subst, arith, ℤ, pos, true, false, some, List, [], ◌∷◌, leb, ltb, if◌then◌else◌, sub_ℕ, ◌+ℤ◌,
  ◌-ℤ◌,
}
use hello_world_osal.Idmap.Tables.{Callback, TimecbRecord}
use hello_world_osal.Timer.Tick.{Call, advance, call_due, expire, tick_timer}

abbrev pub times {ℓ} : {A : Type ℓ} → ℕ → A → List A
times zero a = []
times (suc n) a = a ∷ times n a

abbrev pub timed : TimecbRecord → ℤ → ℕ → TimecbRecord
timed r z interval = record r { wait_time = z; interval_time = pos interval }

-- A timer with the callback `f`, the wait `z` and the interval `interval`.
abbrev pub armed : TimecbRecord → Callback → ℤ → ℕ → TimecbRecord
armed r f z interval = timed (record r { callback_ptr = some f }) z interval

abbrev pub with : Callback → TimecbRecord → TimecbRecord
with f r = record r { callback_ptr = some f }

abbrev pub missed : TimecbRecord → TimecbRecord
missed r = record r { backlog_resets = (r.backlog_resets + 1) % 2 ^ 32 }

sum : (late interval : ℕ) → sub_ℕ 0 late +ℤ pos interval ≡ sub_ℕ interval late
sum late interval =
    +ℤ-sub_ℕ 0 late interval ∙ sub_ℕ-eq (0 + interval) late interval late (omega arith)

pub advance-near :
    (r : TimecbRecord) (late interval : ℕ)
    → late ≤ 2 * interval
    → advance (timed r (sub_ℕ 0 late) interval) ≡ timed r (sub_ℕ interval late) interval
unfolding advance
advance-near r late interval h =
    let near : ltb (interval + interval) (0 + late) ≡ false = ground arith in
    rw (sum late interval, -ℤ-pos 0 interval, ltb_ℤ-sub_ℕ interval late 0 interval, near) refl

pub advance-far :
    (r : TimecbRecord) (late interval : ℕ)
    → 2 * interval < late
    → advance (timed r (sub_ℕ 0 late) interval) ≡ missed (timed r (sub_ℕ 0 interval) interval)
unfolding advance
advance-far r late interval h =
    let far : ltb (interval + interval) (0 + late) ≡ true = ground arith in
    rw (sum late interval, -ℤ-pos 0 interval, ltb_ℤ-sub_ℕ interval late 0 interval, far) refl

module _ (id : ℕ) (f : Callback) where
  -- A timer with time left is done.
  pub expire-done :
      (fuel : ℕ) (r : TimecbRecord) (a b interval : ℕ)
      → b < a
      → expire fuel true id (armed r f (sub_ℕ a b) interval) ≡ (armed r f (sub_ℕ a b) interval, [])
  unfolding expire
  expire-done zero r a b interval h = refl
  expire-done (suc fuel) r a b interval h =
      let left : ltb b a ≡ true = ground arith in rw (is_positive-sub_ℕ a b, left) refl

  abbrev join : Call → TimecbRecord × List Call → TimecbRecord × List Call
  join c (r, calls) = (r, c ∷ calls)

  -- A round for a timer that is late, and comes to be `r1`.
  expire-late :
      (fuel : ℕ) (r r0 : TimecbRecord) (z : ℤ) (late interval : ℕ)
      → 0 < interval
      → advance (armed r f (sub_ℕ 0 late) interval) ≡ armed r0 f z interval
      → expire (suc fuel) true id (armed r f (sub_ℕ 0 late) interval)
        ≡ join (f, id, r0.callback_arg) (expire fuel true id (armed r0 f z interval))
  unfolding expire call_due
  expire-late fuel r r0 z late interval h step =
      let none_left : ltb late 0 ≡ false = ground arith in
      let periodic : ltb 0 interval ≡ true = ground arith in
      rw (is_positive-sub_ℕ 0 late, none_left, is_positive-pos interval, periodic, step) refl

  -- Late by less than one interval, by less than two, by two.
  expire-once :
      (fuel : ℕ) (r : TimecbRecord) (late interval : ℕ)
      → late < interval
      → expire (suc fuel) true id (armed r f (sub_ℕ 0 late) interval)
        ≡ (armed r f (sub_ℕ interval late) interval, times 1 (f, id, r.callback_arg))
  expire-once fuel r late interval h =
      expire-late fuel r r (sub_ℕ interval late) late interval (omega arith)
        (advance-near (with f r) late interval (omega arith))
      ∙ ap (join (f, id, r.callback_arg)) (expire-done fuel r interval late interval h)

  expire-twice :
      (fuel : ℕ) (r : TimecbRecord) (late interval : ℕ)
      → interval ≤ late
      → late < 2 * interval
      → expire (suc (suc fuel)) true id (armed r f (sub_ℕ 0 late) interval)
        ≡ (armed r f (sub_ℕ (2 * interval) late) interval, times 2 (f, id, r.callback_arg))
  expire-twice fuel r late interval low high =
      let rest = late - interval in
      expire-late (suc fuel) r r (sub_ℕ 0 rest) late interval (omega arith) (
        advance-near (with f r) late interval (omega arith)
        ∙ ap (λ z. armed r f z interval) (sub_ℕ-eq interval late 0 rest (omega arith)))
      ∙ ap (join (f, id, r.callback_arg)) (
          expire-once fuel r rest interval (omega arith)
          ∙ ap (λ z. (armed r f z interval, times 1 (f, id, r.callback_arg)))
              (sub_ℕ-eq interval rest (2 * interval) late (omega arith)))

  expire-thrice :
      (r : TimecbRecord) (late interval : ℕ)
      → 0 < interval
      → late ≡ 2 * interval
      → expire 3 true id (armed r f (sub_ℕ 0 late) interval)
        ≡ (armed r f (sub_ℕ (3 * interval) late) interval, times 3 (f, id, r.callback_arg))
  expire-thrice r late interval h e =
      expire-late 2 r r (sub_ℕ 0 interval) late interval h (
        advance-near (with f r) late interval (omega arith)
        ∙ ap (λ z. armed r f z interval) (sub_ℕ-eq interval late 0 interval (omega arith)))
      ∙ ap (join (f, id, r.callback_arg)) (
          expire-twice 0 r interval interval (omega arith) (omega arith)
          ∙ ap (λ z. (armed r f z interval, times 2 (f, id, r.callback_arg)))
              (sub_ℕ-eq (2 * interval) interval (3 * interval) late (omega arith)))

  -- Late by more: the wait starts anew, and the lost intervals are noted.
  expire-far :
      (r : TimecbRecord) (late interval : ℕ)
      → 0 < interval
      → 2 * interval < late
      → expire 3 true id (armed r f (sub_ℕ 0 late) interval)
        ≡ (missed (armed r f (pos interval) interval), times 3 (f, id, r.callback_arg))
  expire-far r late interval h far =
      expire-late 2 r (missed r) (sub_ℕ 0 interval) late interval h
        (advance-far (with f r) late interval far)
      ∙ ap (join (f, id, r.callback_arg)) (
          expire-twice 0 (missed r) interval interval (omega arith) (omega arith)
          ∙ ap (λ z. (armed (missed r) f z interval, times 2 (f, id, r.callback_arg)))
              (sub_ℕ-eq (2 * interval) interval interval 0 (omega arith) ∙ sub_ℕ-zero interval))

  -- What a late timer does, from the number of intervals that are over.
  abbrev Punctual : TimecbRecord → ℕ → ℕ → ℕ → Type 0
  Punctual r late interval k =
      expire 3 true id (armed r f (sub_ℕ 0 late) interval)
      ≡ (armed r f (sub_ℕ (suc k * interval) late) interval, times (suc k) (f, id, r.callback_arg))

  expire-Punctual :
      (r : TimecbRecord) (late interval : ℕ)
      → 0 < interval
      → late ≤ 2 * interval
      → Punctual r late interval (late / interval)
  expire-Punctual r late interval h near =
      let outcome : ℤ → TimecbRecord × List Call =
        λ z. (armed r f z interval, times 1 (f, id, r.callback_arg)) in
      elim (dec_lt late interval) [
        | yes once ↦ subst (Punctual r late interval) (sym (div-eq_of_lt once)) (
            expire-once 2 r late interval once
            ∙ ap outcome (sub_ℕ-eq interval late (1 * interval) late (omega arith)))
        | no late' ↦ elim (dec_lt late (2 * interval)) [
          | yes twice ↦
              subst (Punctual r late interval)
                (sym (div-eq_of_lt-le interval (omega arith) (omega arith)))
                (expire-twice 1 r late interval (omega arith) twice)
          | no thrice ↦
              subst (Punctual r late interval)
                (sym (div-eq_of_lt-le interval (omega arith) (omega arith)))
                (expire-thrice r late interval h (omega arith))
        ]
      ]

  -- A tick that is no more than `w` leaves the difference to wait.
  pub tick_timer-start :
      (tick w interval : ℕ) (r : TimecbRecord)
      → 0 < w
      → w < 2 ^ 31
      → tick ≤ 2 ^ 31
      → tick_timer tick id (armed r f (pos w) interval)
        ≡ expire 3 true id (armed r f (sub_ℕ w tick) interval)
  unfolding tick_timer
  tick_timer-start tick w interval r h high short =
      let waits : ltb 0 w ≡ true = ground arith in
      rw (is_positive-pos w, waits, -ℤ-pos w tick, int32-sub_ℕ w tick high short) refl

  -- What a tick means for a timer with the interval `interval` that waits for `w` yet: up to two
  -- intervals are made up for, and no more.
  abbrev pub on_tick : ℕ → ℕ → ℕ → TimecbRecord → TimecbRecord × List Call
  on_tick tick w interval r =
      let late = tick - w in
      let count = suc (late / interval) in
      if ltb tick w
      then (armed r f (pos w -ℤ pos tick) interval, [])
      else if leb late (2 * interval)
      then (
        armed r f (pos (count * interval) -ℤ pos late) interval,
        times count (f, id, r.callback_arg),
      )
      else (missed (armed r f (pos interval) interval), times 3 (f, id, r.callback_arg))

  -- For a timer with a callback, a positive interval and a positive wait, the loop of a tick does
  -- what arithmetic says: before its time it only shortens the wait; up to two intervals late it
  -- calls once for each time that is over and waits for the next multiple of the interval; later
  -- it calls three times, counts a reset and waits one interval. The wait is below 2^31 and the
  -- tick at most 2^31.
  pub tick_timer-on_tick :
      (tick w interval : ℕ) (r : TimecbRecord)
      → 0 < w
      → w < 2 ^ 31
      → tick ≤ 2 ^ 31
      → 0 < interval
      → tick_timer tick id (armed r f (pos w) interval) ≡ on_tick tick w interval r
  tick_timer-on_tick tick w interval r h high short periodic =
      tick_timer-start tick w interval r h high short ∙ elim (dec_lt tick w) [
        | yes early ↦
            let test : ltb tick w ≡ true = ground arith in
            rw (test, -ℤ-pos w tick) (expire-done 3 r w tick interval early)
        | no late ↦
            let test : ltb tick w ≡ false = ground arith in
            let over = tick - w in
            let count = suc (over / interval) in
            ap (λ z. expire 3 true id (armed r f z interval)) (sub_ℕ-eq w tick 0 over (omega arith))
            ∙ elim (dec_le over (2 * interval)) [
              | yes near ↦
                  let few : leb (tick - w) (2 * interval) ≡ true = ground arith in
                  rw (test, few, -ℤ-pos (count * interval) (tick - w))
                    (expire-Punctual r over interval periodic near)
              | no far ↦
                  let many : leb (tick - w) (2 * interval) ≡ false = ground arith in
                  rw (test, many) (expire-far r over interval periodic (omega arith))
            ]
      ]
