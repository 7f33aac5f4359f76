-- ===== src/Timer/Tick/Fuel.antt =====
-- The inner loop of OS_TimeBase_CallbackThread ends within three rounds.
use native.Mathlib.Decide.{dec_lt, dec_le}
use hello_world_osal.Base.{
  ℕ, zero, suc, ◌-◌, ◌*◌, ◌≤◌, ◌<◌, ◌≡◌, refl, sym, ap, ◌∙◌, subst, arith, ℤ, pos, negsuc, Bool,
  true, false, [], ltb, sub_ℕ, is_positive, is_positive-sub_ℕ, is_positive-pos, is_positive-negsuc,
  sub_ℕ-eq, sub_ℕ-zero, sub_ℕ-negsuc,
}
use hello_world_osal.Idmap.Tables.{TimecbRecord}
use hello_world_osal.Timer.Tick.{advance, expire}
use hello_world_osal.Timer.Tick.Expire.{timed, missed, advance-near, advance-far}

module _ (due : Bool) (id : ℕ) where
  -- It makes no difference which of two fuels is given.
  abbrev Same : ℕ → ℕ → TimecbRecord → Type 0
  Same m n r = expire m due id r ≡ expire n due id r

  stop : (k : ℕ) (r : TimecbRecord) → is_positive r.wait_time ≡ true → expire k due id r ≡ (r, [])
  unfolding expire
  stop zero r left = refl
  stop (suc k) r left = rw left refl

  done-Same : (m n : ℕ) (r : TimecbRecord) → is_positive r.wait_time ≡ true → Same m n r
  done-Same m n r left = stop m r left ∙ sym (stop n r left)

  step-Same : (m n : ℕ) (r : TimecbRecord) → Same m n (advance r) → Same (suc m) (suc n) r
  unfolding expire
  step-Same m n r same = rw same refl

  -- Without an interval there is one round.
  single-Same :
      (m n : ℕ) (r : TimecbRecord) → is_positive r.interval_time ≡ false → Same (suc m) (suc n) r
  unfolding expire
  single-Same m n r none_set = rw none_set refl

  once-Same :
      (m n : ℕ) (r : TimecbRecord) (late interval : ℕ)
      → late < interval
      → Same (suc m) (suc n) (timed r (sub_ℕ 0 late) interval)
  once-Same m n r late interval h =
      let left : ltb late interval ≡ true = ground arith in
      step-Same m n (timed r (sub_ℕ 0 late) interval) (
        subst (Same m n) (sym (advance-near r late interval (omega arith))) (
          done-Same m n (timed r (sub_ℕ interval late) interval)
            (is_positive-sub_ℕ interval late ∙ left)))

  near-Same :
      (m n : ℕ) (r : TimecbRecord) (late interval : ℕ)
      → late ≤ 2 * interval
      → interval ≤ late
      → Same m n (timed r (sub_ℕ 0 (late - interval)) interval)
      → Same (suc m) (suc n) (timed r (sub_ℕ 0 late) interval)
  near-Same m n r late interval h low same = step-Same m n (timed r (sub_ℕ 0 late) interval) (
      subst (Same m n)
        (sym (
          advance-near r late interval h
          ∙ ap (λ z. timed r z interval)
              (sub_ℕ-eq interval late 0 (late - interval) (omega arith))))
        same)

  twice-Same :
      (m n : ℕ) (r : TimecbRecord) (late interval : ℕ)
      → late < 2 * interval
      → Same (suc (suc m)) (suc (suc n)) (timed r (sub_ℕ 0 late) interval)
  twice-Same m n r late interval h = elim (dec_lt late interval) [
    | yes early ↦ once-Same (suc m) (suc n) r late interval early
    | no enough ↦
        near-Same (suc m) (suc n) r late interval (omega arith) (omega arith)
          (once-Same m n r (late - interval) interval (omega arith))
  ]

  thrice-Same :
      (m n : ℕ) (r : TimecbRecord) (late interval : ℕ)
      → 0 < interval
      → Same (suc (suc (suc m))) (suc (suc (suc n))) (timed r (sub_ℕ 0 late) interval)
  thrice-Same m n r late interval h = elim (dec_lt late (2 * interval)) [
    | yes early ↦ twice-Same (suc m) (suc n) r late interval early
    | no enough ↦ elim (dec_le late (2 * interval)) [
      | yes exact ↦
          near-Same (suc (suc m)) (suc (suc n)) r late interval exact (omega arith)
            (twice-Same m n r (late - interval) interval (omega arith))
      | no far ↦ step-Same (suc (suc m)) (suc (suc n)) (timed r (sub_ℕ 0 late) interval) (
          subst (Same (suc (suc m)) (suc (suc n))) (sym (advance-far r late interval (omega arith)))
            (twice-Same m n (missed r) interval interval (omega arith)))
    ]
  ]

  periodic-Same :
      (n : ℕ) (r : TimecbRecord) (z : ℤ) (interval : ℕ)
      → 0 < interval
      → Same (suc (suc (suc n))) 3 (timed r z interval)
  periodic-Same n r (pos zero) interval h =
      subst (λ z. Same (suc (suc (suc n))) 3 (timed r z interval)) (sub_ℕ-zero 0)
        (thrice-Same n 0 r 0 interval h)
  periodic-Same n r (pos (suc w)) interval h =
      let left : ltb 0 (suc w) ≡ true = ground arith in
      done-Same (suc (suc (suc n))) 3 (timed r (pos (suc w)) interval)
        (is_positive-pos (suc w) ∙ left)
  periodic-Same n r (negsuc w) interval h =
      subst (λ z. Same (suc (suc (suc n))) 3 (timed r z interval)) (sub_ℕ-negsuc w)
        (thrice-Same n 0 r (suc w) interval h)

  -- The loop of a tick on one timer makes three rounds at most, whatever the timer's record holds:
  -- with more fuel it does the same.
  pub expire_fuel :
      (n : ℕ) (r : TimecbRecord) → expire (suc (suc (suc n))) due id r ≡ expire 3 due id r
  expire_fuel n r = by_interval r.interval_time refl
    where
      by_interval : (z : ℤ) → r.interval_time ≡ z → Same (suc (suc (suc n))) 3 r
      by_interval (pos zero) e =
          single-Same (suc (suc n)) 2 r (ap is_positive e ∙ is_positive-pos 0)
      by_interval (pos (suc interval)) e =
          subst (λ z. Same (suc (suc (suc n))) 3 (record r { interval_time = z })) (sym e)
            (periodic-Same n r r.wait_time (suc interval) (omega arith))
      by_interval (negsuc interval) e =
          single-Same (suc (suc n)) 2 r (ap is_positive e ∙ is_positive-negsuc interval)
