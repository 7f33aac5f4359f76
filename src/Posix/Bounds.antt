-- ===== src/Posix/Bounds.antt =====
-- The priorities and deadlines of the layer for POSIX keep their order and their limits
-- (osal/src/os/posix/src/os-impl-tasks.c, osal/src/os/posix/src/os-impl-common.c).
use hello_world_osal.Base.{
  ℕ, ◌+◌, ◌-◌, ◌*◌, ◌<◌, ◌≤◌, ◌≡◌, refl, arith, ℤ, pos, negsuc, true, false, Bool, some,
}
use hello_world_osal.Posix.{
  PriorityLimits, Policy, get_scheduler_params, choose_policy, reserve_root, priority_remap,
  TimeSpec, comp_abs_delay_time,
}

times_le : (a b k : ℕ) → a ≤ b → a * k ≤ b * k
times_le a b k h = grind (arith, h)

-- The limits that OS_Posix_GetSchedulerParams accepts.
abbrev IsWide : Bool × PriorityLimits → Type 0
IsWide (ok, lim) = ok ≡ true → lim.priority_min + 4 ≤ lim.priority_max

accepted : (high low : ℤ) (before : PriorityLimits) → IsWide (get_scheduler_params high low before)
unfolding get_scheduler_params
accepted (negsuc e) low before h = ground (arith, h)
accepted (pos n) (negsuc e) before h = ground (arith, h)
accepted (pos n) (pos m) before h = ground (arith, h)

chosen :
    (a b : Bool × PriorityLimits) (policy : Policy) (lim : PriorityLimits)
    → IsWide a
    → IsWide b
    → choose_policy a b ≡ some (policy, lim)
    → lim.priority_min + 4 ≤ lim.priority_max
unfolding choose_policy
chosen (true, x) (true, y) policy lim h k e = ground (arith, h refl, k refl, e)
chosen (true, x) (false, y) policy lim h k e = ground (arith, h refl, e)
chosen (false, x) (true, y) policy lim h k e = ground (arith, k refl, e)
chosen (false, x) (false, y) policy lim h k e = ground (arith, e)

reserved :
    (lim : PriorityLimits)
    → lim.priority_min + 4 ≤ lim.priority_max
    → let left = reserve_root lim in
      (left.priority_min + 3 ≤ left.priority_max)
      × (left.priority_max < lim.priority_max)
      × (left.priority_max ≤ left.priority_min + 255)
      × (lim.priority_min + 255 < lim.priority_max → left.priority_max ≡ left.priority_min + 255)
unfolding reserve_root
reserved lim h = ground (arith, h)

-- Priorities between the highest and the lowest.
within :
    (lim : PriorityLimits) (p : ℕ)
    → lim.priority_min + 3 ≤ lim.priority_max
    → 0 < p
    → p < 255
    → (lim.priority_min < priority_remap lim p) × (priority_remap lim p < lim.priority_max)
unfolding priority_remap
within lim p spread low high =
    let k = lim.priority_max - lim.priority_min - 2 in
    let most = times_le (254 - p) 253 k (omega (arith, low)) in ground (arith, most)

descends :
    (lim : PriorityLimits) (p q : ℕ)
    → lim.priority_min + 3 ≤ lim.priority_max
    → p ≤ q
    → priority_remap lim q ≤ priority_remap lim p
unfolding priority_remap
descends lim p q spread h =
    let k = lim.priority_max - lim.priority_min - 2 in
    let fewer = times_le (254 - q) (254 - p) k (omega (arith, h)) in
    let most = times_le (254 - q) 253 k in ground (arith, fewer, most)

ends :
    (lim : PriorityLimits)
    → (priority_remap lim 0 ≡ lim.priority_max)
      × ((p : ℕ) → 255 ≤ p → priority_remap lim p ≡ lim.priority_min)
unfolding priority_remap
ends lim = ground arith

one_to_one :
    (lim : PriorityLimits) (p : ℕ)
    → lim.priority_max ≡ lim.priority_min + 255
    → p ≤ 255
    → priority_remap lim p + p ≡ lim.priority_max
unfolding priority_remap
one_to_one lim p wide h =
    let k : lim.priority_max - lim.priority_min - 2 ≡ 253 = omega (arith, wide) in
    rw k (ground (arith, wide, h))

-- With the limits that the POSIX initialisation leaves, whatever the system says of its two
-- policies: a task of a higher priority (a smaller number) never gets a lower one of the system; 0
-- alone gets the highest, 255 and above the lowest, all between get one between; none is that of
-- the root thread; and if the chosen policy has more than 255 levels above its lowest, the 256
-- priorities get levels of their own, in order.
pub priority_remap_lem :
    (fifo_high fifo_low rr_high rr_low : ℤ) (fifo_lim rr_lim lim : PriorityLimits) (policy : Policy)
    → choose_policy
        (get_scheduler_params fifo_high fifo_low fifo_lim)
        (get_scheduler_params rr_high rr_low rr_lim)
      ≡ some (policy, lim)
    → let left = reserve_root lim in
      ((p q : ℕ) → p ≤ q → priority_remap left q ≤ priority_remap left p)
      × (priority_remap left 0 ≡ left.priority_max)
      × ((p : ℕ)
          → 0 < p
          → p < 255
          → (left.priority_min < priority_remap left p)
            × (priority_remap left p < left.priority_max))
      × ((p : ℕ) → 255 ≤ p → priority_remap left p ≡ left.priority_min)
      × (left.priority_max < lim.priority_max)
      × (lim.priority_min + 255 < lim.priority_max
          → (p : ℕ) → p ≤ 255
          → priority_remap left p + p ≡ left.priority_max)
priority_remap_lem fifo_high fifo_low rr_high rr_low fifo_lim rr_lim lim policy e =
    let wide =
      chosen (get_scheduler_params fifo_high fifo_low fifo_lim)
        (get_scheduler_params rr_high rr_low rr_lim) policy lim
        (accepted fifo_high fifo_low fifo_lim) (accepted rr_high rr_low rr_lim) e in
    let left = reserve_root lim in
    let (spread, below, most, full) = reserved lim wide in
    let (top, bottom) = ends left in
    (
      λ p q h. descends left p q spread h,
      top,
      λ p low high. within left p spread low high,
      bottom,
      below,
      λ more p h. one_to_one left p (full more) h,
    )

-- The deadline is exactly so many milliseconds after the time now, its nanoseconds below a second,
-- if those of the time now are.
pub comp_abs_delay_time_lem :
    (msecs : ℕ) (now : TimeSpec)
    → now.tv_nsec < 1000000000
    → let deadline = comp_abs_delay_time msecs now in
      (deadline.tv_nsec < 1000000000)
      × (deadline.tv_sec * 1000000000 + deadline.tv_nsec
          ≡ now.tv_sec * 1000000000 + now.tv_nsec + msecs * 1000000)
unfolding comp_abs_delay_time
comp_abs_delay_time_lem msecs now h = ground (arith, h)
