-- ===== src/Service/Calls.antt =====
-- Whole calls of the services, with the checks of their arguments.
use hello_world_osal.Base.{
  ℕ, ◌<◌, ◌≤◌, ◌≡◌, ap, sym, ◌∙◌, subst, arith, ℤ, Bool, true, false, Option, some, Text, length,
  os_success,
}
use hello_world_osal.Idmap.Id.{Result, ok, fail}
use hello_world_osal.Idmap.ObjectType
use hello_world_osal.Idmap.State.{Os, Port}
use hello_world_osal.Idmap.Lock.{unlocked}
use hello_world_osal.Idmap.Lookup.{max_api_name, get_by_id}
use hello_world_osal.Service.{create, get_id_by_name}
use hello_world_osal.Service.Create.RoundTrip.{create-get_id_by_name}
use hello_world_osal.Service.Names.{
  count_sem_store-Names, bin_sem_store-Names, mutex_store-Names, queue_store-Names,
}
use hello_world_osal.Service.CountSem.{
  CountSemImpl, count_sem_store, count_sem_create, count_sem_get_id_by_name,
}
use hello_world_osal.Service.BinSem.{
  BinSemImpl, bin_sem_store, bin_sem_create, bin_sem_get_id_by_name,
}
use hello_world_osal.Service.Mutex.{MutexImpl, mutex_store, mut_sem_create, mut_sem_get_id_by_name}
use hello_world_osal.Service.Queue.{
  QueueImpl, queue_max_depth, queue_store, queue_create, queue_get_id_by_name, get_found, queue_get,
}

-- The layer below writes at most a message, which is never longer than the size that the queue was
-- created for.
abbrev pub WritesMessages : {K : Type 0} → QueueImpl K → Type 0
WritesMessages {K} impl =
    (i size : ℕ) (timeout : ℤ) (s : Os K)
    → let (code, bytes, copied, s') = impl.get_impl i size timeout s in
      length bytes ≤ (s.queue_table i).max_size

-- The end of a create call with the name found again.
module _ {K : Type 0} (p : Port K) (t : ℕ) where
  pub found_again :
      (name : Text) (made made' : ℤ × Option ℕ × Os K)
      → made ≡ made'
      → (let (code, out, _) = get_id_by_name p t true (some name) made'.2 in
          (code ≡ os_success) × (out ≡ made'.1))
      → let (code, out, _) = get_id_by_name p t true (some name) made.2 in
        (code ≡ os_success) × (out ≡ made.1)
  found_again name made made' same =
      subst
        (λ (r : ℤ × Option ℕ × Os K).
          let (code, out, _) = get_id_by_name p t true (some name) r.2 in
          (code ≡ os_success) × (out ≡ r.1))
        (sym same)

module _ {K : Type 0} (p : Port K) (impl : QueueImpl K) where
  get_found-bytes :
      (size : ℕ) (timeout : ℤ) (r : Result ℕ × Os K)
      → WritesMessages impl
      → length (get_found p impl size timeout r).bytes ≤ size
  unfolding get_found
  get_found-bytes size timeout (fail code, s) w = omega arith
  get_found-bytes size timeout (ok i, s) w = let small = w i size timeout s in ground (arith, small)

  -- OS_QueueGet never writes past the end of the caller's buffer, if the layer below writes no
  -- more than a message of the queue.
  pub queue_get-bytes :
      (has_data has_copied : Bool) (id size : ℕ) (timeout : ℤ) (s : Os K)
      → WritesMessages impl
      → length (queue_get p impl has_data has_copied id size timeout s).bytes ≤ size
  unfolding queue_get
  queue_get-bytes true true id size timeout s w =
      get_found-bytes size timeout (get_by_id p unlocked ObjectType.queue id s) w
  queue_get-bytes true false id size timeout s w = omega arith
  queue_get-bytes false has_copied id size timeout s w = omega arith

  queue_create-eq :
      (name : Text) (depth size flags : ℕ) (s : Os K)
      → (queue_create p impl true (some name) depth size flags s).0 ≡ os_success
      → (length name < max_api_name)
        × (depth ≤ queue_max_depth)
        × (queue_create p impl true (some name) depth size flags s
            ≡ create p ObjectType.queue
                (queue_store name depth size)
                (λ i. impl.create_impl i flags)
                name
                s)
  unfolding queue_create
  queue_create-eq name depth size flags s done = ground (arith, done)

  -- OS_QueueCreate succeeds only with a name and a depth within the limits, and then
  -- OS_QueueGetIdByName finds the new queue's ID by its name.
  queue_create-queue_get_id_by_name :
      (name : Text) (depth size flags : ℕ) (s : Os K)
      → (queue_create p impl true (some name) depth size flags s).0 ≡ os_success
      → let (code, out, s') = queue_create p impl true (some name) depth size flags s in
        let (code', out', _) = queue_get_id_by_name p impl true (some name) s' in
        (length name < max_api_name)
        × (depth ≤ queue_max_depth)
        × (code' ≡ os_success)
        × (out' ≡ out)
  unfolding queue_get_id_by_name
  queue_create-queue_get_id_by_name name depth size flags s done =
      let (short, shallow, same) = queue_create-eq name depth size flags s done in
      let store = λ (n : Text). queue_store {K = K} n depth size in
      let (_, found) =
        create-get_id_by_name p ObjectType.queue store (queue_store-Names depth size)
          (λ i. impl.create_impl i flags) name s short
          (sym (ap (λ (r : ℤ × Option ℕ × Os K). r.0) same) ∙ done) in
      let (done', out') =
        found_again p ObjectType.queue name
          (queue_create p impl true (some name) depth size flags s)
          (create p ObjectType.queue (store name) (λ i. impl.create_impl i flags) name s) same
          found in
      (short, shallow, done', out')

module _ {K : Type 0} (p : Port K) (impl : CountSemImpl K) where
  count_sem_create-eq :
      (name : Text) (value options : ℕ) (s : Os K)
      → (count_sem_create p impl true (some name) value options s).0 ≡ os_success
      → (length name < max_api_name)
        × (count_sem_create p impl true (some name) value options s
            ≡ create p ObjectType.countsem
                (count_sem_store name)
                (λ i. impl.create_impl i value options)
                name
                s)
  unfolding count_sem_create
  count_sem_create-eq name value options s done = ground (arith, done)

  -- OS_CountSemCreate succeeds only with a name within the limit, and then OS_CountSemGetIdByName
  -- finds the new semaphore's ID by its name.
  pub count_sem_create-count_sem_get_id_by_name :
      (name : Text) (value options : ℕ) (s : Os K)
      → (count_sem_create p impl true (some name) value options s).0 ≡ os_success
      → let (code, out, s') = count_sem_create p impl true (some name) value options s in
        let (code', out', _) = count_sem_get_id_by_name p impl true (some name) s' in
        (length name < max_api_name) × (code' ≡ os_success) × (out' ≡ out)
  unfolding count_sem_get_id_by_name
  count_sem_create-count_sem_get_id_by_name name value options s done =
      let (short, same) = count_sem_create-eq name value options s done in
      let (_, found) =
        create-get_id_by_name p ObjectType.countsem count_sem_store count_sem_store-Names
          (λ i. impl.create_impl i value options) name s short
          (sym (ap (λ (r : ℤ × Option ℕ × Os K). r.0) same) ∙ done) in
      let (done', out') =
        found_again p ObjectType.countsem name
          (count_sem_create p impl true (some name) value options s)
          (create p ObjectType.countsem (count_sem_store name)
            (λ i. impl.create_impl i value options) name s)
          same found in
      (short, done', out')

module _ {K : Type 0} (p : Port K) (impl : MutexImpl K) where
  mut_sem_create-eq :
      (name : Text) (options : ℕ) (s : Os K)
      → (mut_sem_create p impl true (some name) options s).0 ≡ os_success
      → (length name < max_api_name)
        × (mut_sem_create p impl true (some name) options s
            ≡ create p ObjectType.mutex (mutex_store name) (λ i. impl.create_impl i options) name s)
  unfolding mut_sem_create
  mut_sem_create-eq name options s done = ground (arith, done)

  -- OS_MutSemCreate succeeds only with a name within the limit, and then OS_MutSemGetIdByName
  -- finds the new mutex's ID by its name.
  pub mut_sem_create-mut_sem_get_id_by_name :
      (name : Text) (options : ℕ) (s : Os K)
      → (mut_sem_create p impl true (some name) options s).0 ≡ os_success
      → let (code, out, s') = mut_sem_create p impl true (some name) options s in
        let (code', out', _) = mut_sem_get_id_by_name p impl true (some name) s' in
        (length name < max_api_name) × (code' ≡ os_success) × (out' ≡ out)
  unfolding mut_sem_get_id_by_name
  mut_sem_create-mut_sem_get_id_by_name name options s done =
      let (short, same) = mut_sem_create-eq name options s done in
      let (_, found) =
        create-get_id_by_name p ObjectType.mutex mutex_store mutex_store-Names
          (λ i. impl.create_impl i options) name s short
          (sym (ap (λ (r : ℤ × Option ℕ × Os K). r.0) same) ∙ done) in
      let (done', out') =
        found_again p ObjectType.mutex name (mut_sem_create p impl true (some name) options s)
          (create p ObjectType.mutex (mutex_store name) (λ i. impl.create_impl i options) name s)
          same found in
      (short, done', out')

module _ {K : Type 0} (p : Port K) (impl : BinSemImpl K) where
  bin_sem_create-eq :
      (name : Text) (value options : ℕ) (s : Os K)
      → (bin_sem_create p impl true (some name) value options s).0 ≡ os_success
      → (length name < max_api_name)
        × (bin_sem_create p impl true (some name) value options s
            ≡ create p ObjectType.binsem
                (bin_sem_store name)
                (λ i. impl.create_impl i value options)
                name
                s)
  unfolding bin_sem_create
  bin_sem_create-eq name value options s done = ground (arith, done)

  -- OS_BinSemCreate succeeds only with a name within the limit, and then OS_BinSemGetIdByName
  -- finds the new semaphore's ID by its name.
  pub bin_sem_create-bin_sem_get_id_by_name :
      (name : Text) (value options : ℕ) (s : Os K)
      → (bin_sem_create p impl true (some name) value options s).0 ≡ os_success
      → let (code, out, s') = bin_sem_create p impl true (some name) value options s in
        let (code', out', _) = bin_sem_get_id_by_name p impl true (some name) s' in
        (length name < max_api_name) × (code' ≡ os_success) × (out' ≡ out)
  unfolding bin_sem_get_id_by_name
  bin_sem_create-bin_sem_get_id_by_name name value options s done =
      let (short, same) = bin_sem_create-eq name value options s done in
      let (_, found) =
        create-get_id_by_name p ObjectType.binsem bin_sem_store bin_sem_store-Names
          (λ i. impl.create_impl i value options) name s short
          (sym (ap (λ (r : ℤ × Option ℕ × Os K). r.0) same) ∙ done) in
      let (done', out') =
        found_again p ObjectType.binsem name
          (bin_sem_create p impl true (some name) value options s)
          (create p ObjectType.binsem (bin_sem_store name) (λ i. impl.create_impl i value options)
            name s)
          same found in
      (short, done', out')
