-- ===== src/Task/Exit.antt =====
-- A task that ends gives its ID back: OS_TaskExit (osapi-task.c).
use hello_world_osal.Base.{
  ℕ, ◌≡◌, ◌≢◌, refl, sym, ap, ◌∙◌, arith, true, os_success, update_self, update_ne,
}
use hello_world_osal.Idmap.ObjectType
use hello_world_osal.Idmap.Id.{ok, entry, to_array_index, undefined_id}
use hello_world_osal.Idmap.State.{Os, Port, CommonRecord, shutdown_magic_number}
use hello_world_osal.Idmap.Frame.{lock_global-Same}
use hello_world_osal.Idmap.Lock.{
  global, lock_global, initiate_lock, try_lock, try_mode, convert_loop, clear_bits, finish_convert,
  convert_lock,
}
use hello_world_osal.Idmap.Lookup.{get_by_id, convert_found, task_get_id}
use hello_world_osal.Idmap.Alloc.Settled.{vacated, finalize_delete-ok}
use hello_world_osal.Service.Create.RoundTrip.{convert_found-global, active-clear_bits}
use hello_world_osal.Task.{TaskImpl, exit_found, task_exit}

-- This task runs under its ID, in place `index`, while the API runs.
record Runs {K : Type 0} (p : Port K) (s : Os K) : Type 0 where
  index : ℕ
  place : to_array_index ObjectType.task p.task_id ≡ ok index
  own : (s.common_table (entry ObjectType.task index)).active_id ≡ p.task_id
  defined : p.task_id ≢ 0
  on : s.initialized ≡ true
  running : s.shutdown_flag ≢ shutdown_magic_number

module _ {K : Type 0} (p : Port K) where
  task_get_id-own : (s : Os K) → Runs p s → task_get_id p s ≡ p.task_id
  unfolding task_get_id get_by_id convert_found convert_lock convert_loop try_lock try_mode
      finish_convert initiate_lock
  task_get_id-own s r = ground (arith, r.place, r.own, r.on, r.running)

  -- Without its ID in the table, the task counts as none.
  task_get_id-gone :
      (i : ℕ) (s : Os K)
      → to_array_index ObjectType.task p.task_id ≡ ok i
      → (s.common_table (entry ObjectType.task i)).active_id ≡ 0
      → p.task_id ≢ 0
      → task_get_id p s ≡ undefined_id
  unfolding task_get_id get_by_id convert_found convert_lock convert_loop try_lock try_mode
      finish_convert initiate_lock
  task_get_id-gone i s place free defined = ground (arith, place, free)

module _ {K : Type 0} (p : Port K) (impl : TaskImpl K) where
  found-Runs :
      (s : Os K) (r : Runs p s)
      → get_by_id p global ObjectType.task p.task_id s ≡ (
        ok r.index,
        clear_bits p (entry ObjectType.task r.index) 0 (lock_global p ObjectType.task s),
      )
  unfolding get_by_id initiate_lock
  found-Runs s r =
      let same = (lock_global-Same p ObjectType.task s).table in
      let held =
        ap (λ (c : ℕ → CommonRecord). (c (entry ObjectType.task r.index)).active_id) same ∙ r.own in
      ground (
        arith,
        r.on,
        r.running,
        r.place,
        convert_found-global p ObjectType.task r.index (lock_global p ObjectType.task s) p.task_id
            held,
      )

  -- A task that runs under its ID is known to OS_TaskGetId before OS_TaskExit and not after it,
  -- and every other object keeps its ID.
  task_exit-unknown :
      (s : Os K) (r : Runs p s) (e : ℕ)
      → e ≢ entry ObjectType.task r.index
      → (task_get_id p s ≡ p.task_id)
        × (task_get_id p (task_exit p impl s) ≡ undefined_id)
        × (((task_exit p impl s).common_table e).active_id ≡ (s.common_table e).active_id)
  unfolding task_exit exit_found
  task_exit-unknown s r e ne =
      let own = entry ObjectType.task r.index in
      let held = clear_bits p own 0 (lock_global p ObjectType.task s) in
      let gone : CommonRecord = record (held.common_table own) { active_id = undefined_id } in
      let (code, same) = finalize_delete-ok p os_success own held refl in
      let found = found-Runs s r in
      let table : (task_exit p impl s).common_table ≡ (vacated own held).common_table =
        rw found same.table in
      let active = λ (e : ℕ). ap (λ (c : ℕ → CommonRecord). (c e).active_id) table in
      (
        task_get_id-own p s r,
        task_get_id-gone p r.index (task_exit p impl s) r.place
            (active own
              ∙ ap (λ (q : CommonRecord). q.active_id) (update_self held.common_table own gone))
            r.defined,
        active e
            ∙ ap (λ (q : CommonRecord). q.active_id)
                (update_ne held.common_table own e gone (λ q. ne (sym q)))
            ∙ active-clear_bits p ObjectType.task own e 0 (lock_global p ObjectType.task s)
            ∙ ap (λ (c : ℕ → CommonRecord). (c e).active_id)
                (lock_global-Same p ObjectType.task s).table,
      )
