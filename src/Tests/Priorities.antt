-- ===== src/Tests/Priorities.antt =====
-- The limits 1 and 99 for both policies, and a delay past the end of a second.
use hello_world_osal.Base.{ℕ, ◌+◌, ◌*◌, ◌<◌, ◌≤◌, ◌≡◌, refl, arith, pos, some}
use hello_world_osal.Posix.{
  PriorityLimits, round_robin, get_scheduler_params, choose_policy, reserve_root, priority_remap,
  TimeSpec, comp_abs_delay_time,
}
use hello_world_osal.Posix.Bounds.{priority_remap_lem, comp_abs_delay_time_lem}

abbrev unset : PriorityLimits
unset = record { priority_max = 0; priority_min = 0 }

abbrev limits : PriorityLimits
limits = record { priority_max = 99; priority_min = 1 }

choice :
    choose_policy
      (get_scheduler_params (pos 99) (pos 1) unset)
      (get_scheduler_params (pos 99) (pos 1) unset)
    ≡ some (round_robin, limits)
unfolding get_scheduler_params choose_policy
choice = refl

priority_remap_lem_example :
    let left = reserve_root limits in
    ((p q : ℕ) → p ≤ q → priority_remap left q ≤ priority_remap left p)
    × (priority_remap left 0 ≡ left.priority_max)
    × ((p : ℕ)
        → 0 < p
        → p < 255
        → (left.priority_min < priority_remap left p) × (priority_remap left p < left.priority_max))
    × ((p : ℕ) → 255 ≤ p → priority_remap left p ≡ left.priority_min)
    × (left.priority_max < 99)
    × (1 + 255 < 99 → (p : ℕ) → p ≤ 255 → priority_remap left p + p ≡ left.priority_max)
priority_remap_lem_example =
    priority_remap_lem (pos 99) (pos 1) (pos 99) (pos 1) unset unset limits round_robin choice

abbrev now : TimeSpec
now = record { tv_sec = 5; tv_nsec = 700000000 }

comp_abs_delay_time_lem_example :
    let deadline = comp_abs_delay_time 1500 now in
    (deadline.tv_nsec < 1000000000)
    × (deadline.tv_sec * 1000000000 + deadline.tv_nsec
        ≡ 5 * 1000000000 + 700000000 + 1500 * 1000000)
comp_abs_delay_time_lem_example = comp_abs_delay_time_lem 1500 now (omega arith)
