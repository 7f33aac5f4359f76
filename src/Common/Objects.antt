-- ===== src/Common/Objects.antt =====
-- What OS_API_Init and OS_DeleteAllObjects (osapi-common.c) come to.
use hello_world_osal.Base.{
  ℕ, zero, suc, ◌+◌, ◌≡◌, ◌≢◌, refl, sym, ap, ◌∙◌, arith, inl, inr, ℤ, true, false, Option, ltb,
  os_success, Bool-cases,
}
use hello_world_osal.Idmap.Id.{get_max_for_object_type, get_base_for_object_type}
use hello_world_osal.Idmap.ObjectType
use hello_world_osal.Idmap.State.{Os, Port, CommonRecord, object_id_init}
use hello_world_osal.Idmap.Frame.{lock_global-Same, unlock_global-Same}
use hello_world_osal.Idmap.Lock.{lock_global}
use hello_world_osal.Idmap.Each.{
  visible_id, creator_any, call_back, each_from, for_each_object_of_type, each_type,
  for_each_object,
}
use hello_world_osal.Common.Lifecycle.{
  Others, on_success, check_ticks, init_types, api_init, clean_up_object, clean_up_all,
  delete_tries, delete_all_objects,
}
use hello_world_osal.Service.CountSem.{CountSemImpl}
use hello_world_osal.Service.BinSem.{BinSemImpl}
use hello_world_osal.Service.Mutex.{MutexImpl}
use hello_world_osal.Service.Queue.{QueueImpl}
use hello_world_osal.Task.{TaskImpl}
use hello_world_osal.Timer.TimeBase.{TimeBaseImpl}
use hello_world_osal.File.{FileImpl}
use hello_world_osal.Module.{ModuleImpl}
use hello_world_osal.Platform.{network_api_init}
use hello_world_osal.Socket.{socket_api_init}
use hello_world_osal.Directory.{DirImpl}

module _ {K : Type 0} where
  check_ticks-some :
      (r : ℤ × Os K)
      → (on_success check_ticks r).0 ≡ os_success
      → let s' = (on_success check_ticks r).1 in
        (s'.micro_sec_per_tick ≢ 0) × (s'.ticks_per_second ≢ 0)
  unfolding check_ticks
  check_ticks-some (code, s) h = ground (arith, h)

module _ {K : Type 0} (others : Others K) where
  -- If OS_API_Init succeeds, the API was not initialised before, and the tick times are set
  -- afterwards.
  pub api_init_lem :
      (s : Os K)
      → (api_init others s).0 ≡ os_success
      → let (code, s') = api_init others s in
        (s.initialized ≡ false) × (s'.micro_sec_per_tick ≢ 0) × (s'.ticks_per_second ≢ 0)
  unfolding api_init
  api_init_lem s done =
      let typed =
        init_types others ObjectType.user 0
          (os_success, object_id_init (record s { initialized = true })) in
      let started = on_success socket_api_init (on_success network_api_init typed) in
      elim (Bool-cases s.initialized) [
        | inl on ↦ absurd (ground (arith, on, done))
        | inr off ↦
            let same : api_init others s ≡ on_success check_ticks started =
              rw (api_init, off) refl in
            let (micro, ticks) =
              check_ticks-some started (sym (ap (λ (r : ℤ × Os K). r.0) same) ∙ done) in
            (
              off,
              λ e. micro (sym (ap (λ (r : ℤ × Os K). r.1.micro_sec_per_tick) same) ∙ e),
              λ e. ticks (sym (ap (λ (r : ℤ × Os K). r.1.ticks_per_second) same) ∙ e),
            )
      ]

-- No object is in use.
abbrev pub IsVacant : {K : Type 0} → Os K → Type 0
IsVacant {K} s = (e : ℕ) → (s.common_table e).active_id ≡ 0

module _ {K A : Type 0} (p : Port K) (callback : ℕ → A → Os K → A × Os K) (creator : ℕ) where
  call_back-vacant :
      (t e : ℕ) (arg : A) (s : Os K)
      → IsVacant s
      → call_back p callback t (visible_id creator (s.common_table e)) (arg, s) ≡ (arg, s)
  unfolding call_back visible_id
  call_back-vacant t e arg s v = ground (arith, v e)

  each_from-vacant :
      (count t e : ℕ) (arg : A) (s : Os K)
      → IsVacant s
      → each_from p callback count t creator e (arg, s) ≡ (arg, s)
  unfolding each_from
  each_from-vacant zero t e arg s v = refl
  each_from-vacant (suc count) t e arg s v =
      rw (call_back-vacant t e arg s v) (each_from-vacant count t (e + 1) arg s v)

  abbrev Untouched : A → Os K → A × Os K → Type 0
  Untouched arg s r = (r.0 ≡ arg) × (r.1.common_table ≡ s.common_table)

  of_type-vacant :
      (t : ℕ) (arg : A) (s : Os K)
      → IsVacant s
      → Untouched arg s (for_each_object_of_type p callback t creator (arg, s))
  unfolding for_each_object_of_type
  of_type-vacant t arg s v =
      let locked = (lock_global-Same p t s).table in
      let still : IsVacant (lock_global p t s) =
        λ e. ap (λ (c : ℕ → CommonRecord). (c e).active_id) locked ∙ v e in
      let pass =
        each_from-vacant (get_max_for_object_type t) t (get_base_for_object_type t) arg
          (lock_global p t s) still in
      let freed = (unlock_global-Same p t (lock_global p t s)).table ∙ locked in
      elim (Bool-cases (ltb 0 (get_max_for_object_type t))) [
        | inl some_left ↦ rw (some_left, pass) (refl, freed)
        | inr none_left ↦ rw none_left (refl, refl)
      ]

  each_type-vacant :
      (count t : ℕ) (arg : A) (s : Os K)
      → IsVacant s
      → Untouched arg s (each_type p callback count t creator (arg, s))
  unfolding each_type
  each_type-vacant zero t arg s v = (refl, refl)
  each_type-vacant (suc count) t arg s v =
      let (arg1, s1) = for_each_object_of_type p callback t creator (arg, s) in
      let (same_arg, same) = of_type-vacant t arg s v in
      let still : IsVacant s1 = λ e. ap (λ (c : ℕ → CommonRecord). (c e).active_id) same ∙ v e in
      let (rest_arg, rest) = each_type-vacant count (t + 1) arg1 s1 still in
      (rest_arg ∙ same_arg, rest ∙ same)

module _ {K : Type 0} (p : Port K) (others : Others K) (count_sems : CountSemImpl K)
    (bin_sems : BinSemImpl K) (mutexes : MutexImpl K) (queues : QueueImpl K) (tasks : TaskImpl K)
    (time_bases : TimeBaseImpl K) (dirs : DirImpl K) (streams : FileImpl K) (modules : ModuleImpl K)
    (garbage : ℕ) (run_hook : Option ℕ → Os K → Os K) where
  abbrev tries : ℕ → ℕ → Os K → Os K
  tries fuel =
      delete_tries p others count_sems bin_sems mutexes queues tasks time_bases dirs streams modules
        garbage run_hook fuel

  tries-last : (m n t : ℕ) (s : Os K) → ltb 4 (t + 1) ≡ true → tries (suc m) t s ≡ tries (suc n) t s
  unfolding delete_tries
  tries-last m n t s late = ground (arith, late)

  tries-more :
      (m n t : ℕ) (s : Os K)
      → ((s' : Os K) → tries m (t + 1) s' ≡ tries n (t + 1) s')
      → tries (suc m) t s ≡ tries (suc n) t s
  unfolding delete_tries
  tries-more m n t s same =
      let (count, s1) =
        clean_up_all p others count_sems bin_sems mutexes queues tasks time_bases dirs streams
          modules garbage run_hook s in
      rw (same (p.task_delay 5 s1)) refl

  -- The fifth pass is the last.
  pub delete_tries_fuel :
      (n : ℕ) (s : Os K) → tries (suc (suc (suc (suc (suc n))))) 0 s ≡ tries 5 0 s
  delete_tries_fuel n s = tries-more (suc (suc (suc (suc n)))) 4 0 s λ s1.
      tries-more (suc (suc (suc n))) 3 1 s1 λ s2.
        tries-more (suc (suc n)) 2 2 s2
          λ s3. tries-more (suc n) 1 3 s3 λ s4. tries-last n 0 4 s4 refl

  -- If no object is in use, OS_DeleteAllObjects makes one pass over the table, counts none, sleeps
  -- not, and changes no entry of the common table.
  delete_all_objects-vacant :
      (s : Os K)
      → IsVacant s
      → let pass =
          clean_up_all p others count_sems bin_sems mutexes queues tasks time_bases dirs streams
            modules garbage run_hook s in
        (delete_all_objects p others count_sems bin_sems mutexes queues tasks time_bases dirs
            streams modules garbage run_hook s
          ≡ pass.1)
        × (pass.0 ≡ 0)
        × (pass.1.common_table ≡ s.common_table)
  unfolding delete_all_objects delete_tries clean_up_all for_each_object
  delete_all_objects-vacant s v =
      let (none_counted, same) =
        each_type-vacant p
          (clean_up_object p others count_sems bin_sems mutexes queues tasks time_bases dirs streams
            modules garbage run_hook)
          creator_any ObjectType.user 0 0 s v in
      (ground (arith, none_counted), none_counted, same)
