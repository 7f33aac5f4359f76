-- ===== src/Tests/Calls.antt =====
-- Whole calls of the services on concrete states.
use hello_world_osal.Base.{
  ℕ, zero, suc, Text, ◌≤◌, arith, true, [], ◌∷◌, length, take, os_success, ◌==◌, if◌then◌else◌,
}
use hello_world_osal.Idmap.State.{Os, zero_record}
use hello_world_osal.Service.CountSem.{CountSemImpl}
use hello_world_osal.Service.BinSem.{BinSemImpl}
use hello_world_osal.Service.Mutex.{MutexImpl}
use hello_world_osal.Service.Queue.{QueueImpl, queue_get}
use hello_world_osal.Service.Calls.{queue_get-bytes}
use hello_world_osal.Tests.{idle, blank, sem_name, shared_sem, agree}

abbrev message : Text
message = 7 ∷ []

-- Every message is a single 7, cut off at the size of the queue.
abbrev pub queues : QueueImpl ℕ
queues = record {
  create_impl = λ i flags. agree i;
  delete_impl = agree;
  get_impl = λ i size timeout s. (os_success, take (s.queue_table i).max_size message, 1, s);
  put_impl = λ i bytes flags s. (os_success, s);
}

abbrev pub count_sems : CountSemImpl ℕ
count_sems = record {
  create_impl = λ i value options. agree i;
  delete_impl = agree;
  give_impl = λ i s. (os_success, s);
  take_impl = λ i s. (os_success, s);
  timed_wait_impl = λ i msecs s. (os_success, s);
  get_info_impl = λ i k. (os_success, 0);
}

abbrev pub bin_sems : BinSemImpl ℕ
bin_sems = record {
  create_impl = λ i value options. agree i;
  delete_impl = agree;
  give_impl = λ i s. (os_success, s);
  flush_impl = λ i s. (os_success, s);
  take_impl = λ i s. (os_success, s);
  timed_wait_impl = λ i msecs s. (os_success, s);
  get_info_impl = λ i k. (os_success, 0);
}

abbrev pub mutexes : MutexImpl ℕ
mutexes = record {
  create_impl = λ i options. agree i;
  delete_impl = agree;
  give_impl = λ i s. (os_success, s);
  take_impl = λ i s. (os_success, s);
  get_info_impl = λ i k. (os_success, 0);
}

-- Queue 1 exists, for messages of at most 16 bytes.
abbrev queueing : Os ℕ
queueing = record blank {
  common_table = λ e. if 65 == e then record shared_sem { active_id = 0x2_0001 } else zero_record;
  queue_table = λ i. record { queue_name = sem_name; max_size = 16; max_depth = 5 };
}

length-take : (n : ℕ) → length (take n message) ≤ n
length-take zero = omega arith
length-take (suc zero) = omega arith
length-take (suc (suc n)) = omega arith

queue_get-bytes_example :
    length (queue_get idle queues true true 0x2_0001 16 os_success queueing).bytes ≤ 16
queue_get-bytes_example =
    queue_get-bytes idle queues true true 0x2_0001 16 os_success queueing
      (λ i size timeout s. length-take (s.queue_table i).max_size)
