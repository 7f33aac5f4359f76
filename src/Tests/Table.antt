-- ===== src/Tests/Table.antt =====
-- The object table on concrete states.
use hello_world_osal.Base.{ℕ, ◌<◌, ◌≡◌, ◌≢◌, refl, arith, ℤ, none, os_success}
use hello_world_osal.Idmap.ObjectType
use hello_world_osal.Idmap.Id.{
  ok, fail, entry, to_type, to_serial_number, to_array_index, get_max_for_object_type,
  get_base_for_object_type,
}
use hello_world_osal.Idmap.State.{Os, set_owner, zero_record, object_id_init}
use hello_world_osal.Idmap.Invariant.{object_id_init-IsConsistent}
use hello_world_osal.Idmap.Lock.{
  exclusive, self_owner, try_exclusive, try_mode, try_lock, convert_loop, clear_bits,
  finish_convert, convert_lock,
}
use hello_world_osal.Idmap.Lock.Discipline.{IsMutex}
use hello_world_osal.Idmap.Lock.Waiting.{exclusive-Alone}
use hello_world_osal.Idmap.Lock.Busy.{IsAlone}
use hello_world_osal.Idmap.Alloc.{find_free, claim, find_next, allocate_new}
use hello_world_osal.Idmap.Alloc.Issue.{find_next-fresh, find_next-free}
use hello_world_osal.Idmap.Alloc.Leak.{allocate_new-refused}
use hello_world_osal.Tests.{idle, blank, sharing, single, refuse, refusing}

abbrev started : Os ℕ
started = object_id_init blank

sem_is_countsem : ObjectType.countsem < 16
sem_is_countsem = omega arith

idle-IsMutex : IsMutex idle ObjectType.countsem
idle-IsMutex = record { in_range = omega arith; takes = refl; returns_free = λ n s h. h }

idle-IsAlone : IsAlone idle ObjectType.countsem
idle-IsAlone = record { in_range = omega arith; takes = refl; sleeps = λ n s. refl }

-- The first counting semaphore gets place 1.
first_place : find_next idle 3 started ≡ (ok 1, claim idle 3 1 1 started)
unfolding find_next find_free get_max_for_object_type get_base_for_object_type to_serial_number
    object_id_init
first_place = refl

mutex_place : 0 < get_max_for_object_type 5
unfolding get_max_for_object_type
mutex_place = omega arith

console_place : 0 < get_max_for_object_type 12
unfolding get_max_for_object_type
console_place = omega arith

sem_place : 1 < get_max_for_object_type 3
unfolding get_max_for_object_type
sem_place = omega arith

find_next-fresh_example :
    let s' = claim idle 3 1 1 started in
    let id = (s'.common_table (entry 3 1)).active_id in
    (to_type id ≡ 3)
    × (to_array_index 3 id ≡ ok 1)
    × (to_array_index 0 id ≡ ok 1)
    × (id ≢ 0)
    × ((started.common_table (entry 5 0)).active_id ≢ id)
find_next-fresh_example =
    find_next-fresh idle 3 1 5 0 started (claim idle 3 1 1 started)
      (object_id_init-IsConsistent blank) first_place mutex_place

find_next-free_example : (j : ℕ) × (s' : Os ℕ) × (find_next idle 3 sharing ≡ (ok j, s'))
unfolding get_base_for_object_type
find_next-free_example = find_next-free idle 3 sharing 0 (omega (arith, sem_place)) refl

-- The only console is in use.
abbrev console_taken : Os ℕ
console_taken = record blank { common_table = λ e. record zero_record { active_id = 0xC_0000 } }

granted : (convert_lock idle exclusive 3 0x3_0001 149 single).0 ≡ os_success
unfolding convert_lock convert_loop try_lock try_mode try_exclusive finish_convert clear_bits
granted = refl

exclusive-Alone_example :
    let s' = (convert_lock idle exclusive 3 0x3_0001 149 single).1 in
    ((s'.common_table 149).active_id ≡ 0x3_0001) × ((s'.common_table 149).refcount ≡ 0)
exclusive-Alone_example = exclusive-Alone idle 3 0x3_0001 149 single granted

abbrev held : Os ℕ
held = set_owner sharing 3 (self_owner idle)

allocate_new-refused_example :
    let (r, s') = allocate_new idle 3 none refusing in
    ((c : ℤ) × (r ≡ fail c))
    × ((j : ℕ) × ((refusing.common_table (entry 3 j)).active_id ≡ 0)
        × ((s'.common_table (entry 3 j)).active_id ≢ 0))
allocate_new-refused_example =
    allocate_new-refused idle 3 refuse (λ id. refl) 1 refusing refl (omega arith) sem_is_countsem
      refl sem_place refl
