-- ===== src/Timer/Tick.antt =====
-- What a tick does to the timers of a time base: OS_TimeBase_CallbackThread of
-- osal/src/os/shared/src/osapi-timebase.c. A callback is noted with its arguments; what it does by
-- itself is not modelled, and it may not call the timer API.
pub mod Expire
pub mod OneShot
pub mod Fuel
pub mod Walk
use hello_world_osal.Base.{
  ℕ, zero, suc, ◌+◌, ◌%◌, ◌^◌, ℤ, pos, Bool, true, false, not, ◌&&◌, Option, none, some, List, [],
  ◌∷◌, ◌++◌, ◌==◌, ltb, if◌then◌else◌, update, ◌+ℤ◌, ◌-ℤ◌, ltb_ℤ, is_positive, int32,
}
use hello_world_osal.Idmap.ObjectType
use hello_world_osal.Idmap.Id.{Result, ok, fail, entry, to_array_index}
use hello_world_osal.Idmap.Tables.{Callback, TimebaseRecord, TimecbRecord}
use hello_world_osal.Idmap.State.{Os, Port}
use hello_world_osal.Idmap.Lock.{global, unlock_global}
use hello_world_osal.Idmap.Lookup.{get_by_id}

-- A call of a callback: the function, the ID of its timer and the argument.
abbrev pub Call : Type 0
Call = Callback × ℕ × ℕ

-- OS_TIMEBASE_SPIN_LIMIT
abbrev pub spin_limit : ℕ
spin_limit = 4

-- The wait for the next interval, which goes no further below 0 than one interval.
unfoldable pub advance : TimecbRecord → TimecbRecord
advance r =
    let wait = r.wait_time +ℤ r.interval_time in
    if ltb_ℤ wait (pos 0 -ℤ r.interval_time)
    then record r {
      backlog_resets = (r.backlog_resets + 1) % 2 ^ 32;
      wait_time = pos 0 -ℤ r.interval_time;
    }
    else record r { wait_time = wait }

-- The callback of one round, if it is due and there is one.
unfoldable pub call_due : Bool → ℕ → TimecbRecord → List Call
call_due due id r = elim r.callback_ptr [
  | none ↦ []
  | some f ↦ if due then (f, id, r.callback_arg) ∷ [] else []
]

-- The inner loop, with the calls in their order; `due` is `saved_wait_time > 0`.
unfoldable pub expire : ℕ → Bool → ℕ → TimecbRecord → TimecbRecord × List Call
expire zero due id r = (r, [])
expire (suc fuel) due id r =
    let r1 = advance r in
    let calls = call_due due id r1 in
    let (r2, rest) = expire fuel due id r1 in
    if is_positive r.wait_time
    then (r, [])
    else if is_positive r.interval_time
    then (r2, calls ++ rest)
    else (r1, calls)

-- A tick for one timer; the loop takes three rounds at most.
unfoldable pub tick_timer : ℕ → ℕ → TimecbRecord → TimecbRecord × List Call
tick_timer tick id r =
    expire 3 (is_positive r.wait_time) id (record r { wait_time = int32 (r.wait_time -ℤ pos tick) })

module _ {K : Type 0} where
  unfoldable pub tick_at : ℕ → ℕ → Os K → Os K × List Call
  tick_at tick i s =
      let id = (s.common_table (entry ObjectType.timecb i)).active_id in
      let (r, calls) = tick_timer tick id (s.timecb_table i) in
      (record s { timecb_table = update s.timecb_table i r }, calls)

  -- The outer loop from the timer `i` on, until it is at `head` again.
  unfoldable pub tick_ring : ℕ → ℕ → ℕ → ℕ → Os K → Os K × List Call
  tick_ring zero tick head i s = (s, [])
  tick_ring (suc fuel) tick head i s =
      let (s1, calls) = tick_at tick i s in
      let next = (s1.timecb_table i).next_ref in
      let (s2, rest) = tick_ring fuel tick head next s1 in
      if next == head then (s1, calls) else (s2, calls ++ rest)

  -- A tick of time base `b`. A ring has no more timers than the table, which is 10.
  unfoldable pub process_tick : ℕ → ℕ → Os K → Os K × List Call
  process_tick tick b s =
      let r = s.timebase_table b in
      let s1 = record s {
        timebase_table =
            update s.timebase_table b
              (record r { freerun_time = (r.freerun_time + tick) % 2 ^ 32 });
      } in
      elim (to_array_index ObjectType.timecb r.first_cb) [
        | fail code ↦ (s1, [])
        | ok head ↦ tick_ring 10 tick head head s1
      ]

-- `spin_cycles` after a tick.
unfoldable pub count_spin : ℕ → ℕ → ℕ
count_spin tick spin_cycles =
    if not (tick == 0)
    then 0
    else if ltb spin_cycles spin_limit
    then spin_cycles + 1
    else if spin_cycles == spin_limit
    then spin_cycles + 1
    else spin_cycles

-- The thread yields when its sync function returned nothing too often.
unfoldable pub is_spinning : ℕ → ℕ → Bool
is_spinning tick spin_cycles = (tick == 0) && not (ltb spin_cycles spin_limit)

module _ {K : Type 0} (p : Port K) (sync : ℕ → Os K → ℕ × Os K) where
  -- A turn of the loop of the thread of time base `b`: it ends if the ID is not the one it began
  -- with. `sync` may come back in any state, since the other tasks run in the meantime.
  unfoldable pub thread_turn : ℕ → ℕ → ℕ → Os K → Option (ℕ × List Call) × Os K
  thread_turn id b spin_cycles s =
      let (tick, s1) = sync b s in
      let s2 = if is_spinning tick spin_cycles then p.task_delay 10 s1 else s1 in
      let (s3, calls) = process_tick tick b s2 in
      if (s2.common_table (entry ObjectType.timebase b)).active_id == id
      then (some (count_spin tick spin_cycles, calls), s3)
      else (none, s2)

  -- `turns` turns at most, with all their calls.
  unfoldable pub thread_loop : ℕ → ℕ → ℕ → ℕ → Os K → Os K × List Call
  thread_loop zero id b spin_cycles s = (s, [])
  thread_loop (suc turns) id b spin_cycles s =
      let (outcome, s1) = thread_turn id b spin_cycles s in
      elim outcome [
        | none ↦ (s1, [])
        | some (spin, calls) ↦
            let (s2, rest) = thread_loop turns id b spin s1 in (s2, calls ++ rest)
      ]

  -- OS_TimeBase_CallbackThread, for `turns` turns.
  unfoldable pub callback_thread : ℕ → ℕ → Os K → Os K × List Call
  callback_thread turns id s =
      let (r, s1) = get_by_id p global ObjectType.timebase id s in
      elim r [
        | fail code ↦ (s1, [])
        | ok b ↦ thread_loop turns id b 0 (unlock_global p ObjectType.timebase s1)
      ]
