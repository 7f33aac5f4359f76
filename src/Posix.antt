-- ===== src/Posix.antt =====
-- Arithmetic of the layer for POSIX: priorities (osal/src/os/posix/src/os-impl-tasks.c) and deadlines
-- (osal/src/os/posix/src/os-impl-common.c).
pub mod Bounds
use hello_world_osal.Base.{
  ℕ, ◌+◌, ◌-◌, ◌*◌, ◌/◌, ◌%◌, ℤ, pos, negsuc, Bool, true, false, not, Option, none, some, ◌==◌, ltb,
  leb, if◌then◌else◌,
}
use hello_world_osal.Task.{max_task_priority}

-- POSIX_PriorityLimits_t. Only numbers that are not negative get there.
pub record PriorityLimits : Type 0 where
  pub priority_max : ℕ
  pub priority_min : ℕ

-- OS_Posix_GetSchedulerParams, from what `sched_get_priority_max` and `sched_get_priority_min`
-- return and what the limits were before. Debug messages are left out.
unfoldable pub get_scheduler_params : ℤ → ℤ → PriorityLimits → Bool × PriorityLimits
get_scheduler_params (negsuc e) low lim = (false, lim)
get_scheduler_params (pos high) (negsuc e) lim = (false, record lim { priority_max = high })
get_scheduler_params (pos high) (pos low) lim =
    (not (ltb high (low + 4)), record { priority_max = high; priority_min = low })

pub data Policy : Type 0 where
  fifo round_robin : Policy

-- The policy and the limits that OS_Posix_TaskAPI_Impl_Init chooses, from what
-- OS_Posix_GetSchedulerParams says of the two policies; none if it leaves the default.
unfoldable pub choose_policy :
    Bool × PriorityLimits → Bool × PriorityLimits → Option (Policy × PriorityLimits)
choose_policy (true, fifo_lim) (true, rr_lim) =
    if ltb max_task_priority (fifo_lim.priority_max - fifo_lim.priority_min)
    then some (fifo, fifo_lim)
    else some (round_robin, rr_lim)
choose_policy (true, fifo_lim) (false, rr_lim) = some (fifo, fifo_lim)
choose_policy (false, fifo_lim) (true, rr_lim) = some (round_robin, rr_lim)
choose_policy (false, fifo_lim) (false, rr_lim) = none

-- What is left of the limits when the root thread has the highest priority.
unfoldable pub reserve_root : PriorityLimits → PriorityLimits
reserve_root lim =
    let high = lim.priority_max - 1 in
    if ltb max_task_priority (high - lim.priority_min)
    then record lim { priority_max = lim.priority_min + max_task_priority }
    else record lim { priority_max = high }

-- OS_PriorityRemap, with the limits that are left so: the highest is at least 3 above the lowest,
-- so that no difference is negative.
unfoldable pub priority_remap : PriorityLimits → ℕ → ℕ
priority_remap lim input_pri =
    let spread = lim.priority_max - lim.priority_min - 2 in
    let scaled =
      ((max_task_priority - 1 - input_pri) * spread + max_task_priority / 2)
      / (max_task_priority - 2) in
    if input_pri == 0
    then lim.priority_max
    else if leb max_task_priority input_pri
    then lim.priority_min
    else scaled + (lim.priority_min + 1)

-- struct timespec
pub record TimeSpec : Type 0 where
  pub tv_sec : ℕ
  pub tv_nsec : ℕ

-- OS_Posix_CompAbsDelayTime, from the time that `clock_gettime` gives.
unfoldable pub comp_abs_delay_time : ℕ → TimeSpec → TimeSpec
comp_abs_delay_time msecs now =
    let sec = now.tv_sec + msecs / 1000 in
    let nsec = now.tv_nsec + msecs % 1000 * 1000000 in
    if leb 1000000000 nsec
    then record { tv_sec = sec + 1; tv_nsec = nsec - 1000000000 }
    else record { tv_sec = sec; tv_nsec = nsec }
