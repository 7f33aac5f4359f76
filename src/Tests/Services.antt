-- ===== src/Tests/Services.antt =====
-- The services on concrete states.
use hello_world_osal.Base.{
  ℕ, ◌≡◌, inl, refl, arith, ℤ, true, false, some, Option, is_success, os_success, os_error,
  os_err_object_in_use,
}
use hello_world_osal.Idmap.ObjectType
use hello_world_osal.Idmap.Id.{
  ok, to_type, to_serial_number, compose, to_array_index, get_max_for_object_type,
  get_base_for_object_type,
}
use hello_world_osal.Idmap.State.{Os, owner}
use hello_world_osal.Idmap.Invariant.{IsConsistent}
use hello_world_osal.Idmap.Lock.{
  refcounted, self_owner, lock_global, unlock_global, initiate_lock, try_exclusive, try_mode,
  try_lock, convert_loop, clear_bits, finish_convert, convert_lock,
}
use hello_world_osal.Idmap.Lock.Discipline.{IsMutex}
use hello_world_osal.Idmap.Lock.Busy.{IsAlone}
use hello_world_osal.Idmap.Lookup.{search_from, search, get_by_id, convert_found, refcount_decr}
use hello_world_osal.Idmap.Alloc.{
  notify_event, notify_defined, find_free, is_taken, announce, claim, find_next, allocate_locked,
  unlock_failed, allocate_new, settle_new, finalize_new, finalize_delete,
}
use hello_world_osal.Service.{build, create, tear_down, delete, get_id_by_name}
use hello_world_osal.Service.CountSem.{count_sem_store}
use hello_world_osal.Service.Names.{count_sem_store-Names}
use hello_world_osal.Service.Create.Consistent.{create-IsConsistent}
use hello_world_osal.Service.Create.RoundTrip.{create-get_id_by_name}
use hello_world_osal.Service.Create.Failure.{create-SameIds}
use hello_world_osal.Service.Delete.{Deleted, delete-Deleted}
use hello_world_osal.Service.InUse.{delete-in_use, refcount_decr-referred}
use hello_world_osal.Service.Locks.{owner-create, owner-delete}
use hello_world_osal.Tests.{idle, blank, sem_name, sharing, single, agree}

sem-IsMutex : IsMutex idle ObjectType.countsem
sem-IsMutex = record { in_range = omega arith; takes = refl; returns_free = λ n s h. h }

sem-IsAlone : IsAlone idle ObjectType.countsem
sem-IsAlone = record { in_range = omega arith; takes = refl; sleeps = λ n s. refl }

abbrev new_sem : ℤ × Option ℕ × Os ℕ
new_sem = create idle ObjectType.countsem (count_sem_store sem_name) agree sem_name blank

new_sem-ok : (new_sem.0 ≡ os_success) × (new_sem.1 ≡ some 0x3_0001)
unfolding create build allocate_new allocate_locked is_taken search search_from find_next find_free
    claim announce unlock_failed notify_event finalize_new settle_new notify_defined lock_global
    unlock_global count_sem_store get_max_for_object_type get_base_for_object_type to_type
    to_serial_number compose
new_sem-ok = (refl, refl)

create-get_id_by_name_example :
    ((id : ℕ) × (new_sem.1 ≡ some id))
    × (let (code, out, _) =
          get_id_by_name idle ObjectType.countsem true (some sem_name) new_sem.2 in
        (code ≡ os_success) × (out ≡ new_sem.1))
create-get_id_by_name_example =
    create-get_id_by_name idle ObjectType.countsem count_sem_store count_sem_store-Names agree
      sem_name blank (omega arith) new_sem-ok.0

create-IsConsistent_example : IsConsistent new_sem.2
create-IsConsistent_example =
    create-IsConsistent idle ObjectType.countsem count_sem_store count_sem_store-Names agree
      sem_name blank (record { slots = λ t i h. inl refl })

abbrev broken : ℕ → Os ℕ → ℤ × ℕ
broken i s = (os_error, s.kernel)

broken-fails :
    is_success (create idle ObjectType.countsem (count_sem_store sem_name) broken sem_name blank).0
    ≡ false
unfolding create build allocate_new allocate_locked is_taken search search_from find_next find_free
    claim announce unlock_failed notify_event finalize_new settle_new notify_defined lock_global
    unlock_global count_sem_store get_max_for_object_type get_base_for_object_type to_type
    to_serial_number compose
broken-fails = refl

create-SameIds_example :
    ((create idle ObjectType.countsem
        (count_sem_store sem_name)
        broken
        sem_name
        blank).2.common_table
      149).active_id
    ≡ 0
create-SameIds_example =
    create-SameIds idle ObjectType.countsem count_sem_store count_sem_store-Names broken sem_name
      blank (λ handler e id. absurd (ground arith)) broken-fails 149

abbrev removal : ℤ × Os ℕ
removal = delete idle ObjectType.countsem agree 0x3_0001 single

removal-ok :
    (is_success removal.0 ≡ true) × (removal.1.initialized ≡ true) × (removal.1.shutdown_flag ≡ 0)
unfolding delete tear_down get_by_id convert_found convert_lock convert_loop try_lock try_mode
    try_exclusive finish_convert clear_bits initiate_lock lock_global unlock_global finalize_delete
    notify_defined notify_event to_array_index get_max_for_object_type get_base_for_object_type
    to_type to_serial_number self_owner
removal-ok = (refl, refl, refl)

delete-Deleted_example : Deleted idle ObjectType.countsem agree 0x3_0001 removal.1
delete-Deleted_example = delete-Deleted idle ObjectType.countsem agree 0x3_0001 single removal-ok.0

shared_place : to_array_index ObjectType.countsem 0x3_0001 ≡ ok 1
unfolding to_array_index get_max_for_object_type to_type to_serial_number
shared_place = refl

delete-in_use_example :
    delete idle ObjectType.countsem agree 0x3_0001 sharing ≡ (os_err_object_in_use, sharing)
unfolding get_base_for_object_type
delete-in_use_example =
    delete-in_use idle ObjectType.countsem sem-IsAlone agree 0x3_0001 1 sharing refl refl
      shared_place refl (omega arith) refl

refcount_decr-referred_example :
    let (code, s1) = convert_lock idle refcounted ObjectType.countsem 0x3_0001 149 sharing in
    let (code', s2) = refcount_decr idle 149 s1 in
    (code ≡ os_success) × (code' ≡ os_success) × (s2.common_table 149 ≡ sharing.common_table 149)
unfolding to_type
refcount_decr-referred_example =
    refcount_decr-referred idle ObjectType.countsem 0x3_0001 149 sharing refl refl (omega arith)
      (omega arith) (omega arith)

owner-create_example :
    owner
      (create idle ObjectType.countsem (count_sem_store sem_name) broken sem_name blank).2
      ObjectType.countsem
    ≡ 0
owner-create_example =
    owner-create idle ObjectType.countsem sem-IsMutex (omega arith) count_sem_store
      count_sem_store-Names broken sem_name blank refl

owner-delete_example :
    owner (delete idle ObjectType.countsem agree 0x3_0001 sharing).1 ObjectType.countsem ≡ 0
owner-delete_example =
    owner-delete idle ObjectType.countsem sem-IsMutex (omega arith) agree 0x3_0001 sharing refl
