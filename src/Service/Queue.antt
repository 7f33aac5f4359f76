-- ===== src/Service/Queue.antt =====
-- Message queues: osal/src/os/shared/src/osapi-queue.c.
use hello_world_osal.Base.{
  ℕ, ℤ, Bool, true, false, Option, none, some, List, Text, [], leb, ltb, if◌then◌else◌, length,
  update, os_success, os_invalid_pointer, os_err_name_too_long, os_queue_invalid_size,
}
use hello_world_osal.Idmap.ObjectType
use hello_world_osal.Idmap.Id.{Result, ok, fail, entry}
use hello_world_osal.Idmap.State.{Os, Port, set_record}
use hello_world_osal.Idmap.Lock.{unlocked}
use hello_world_osal.Idmap.Lookup.{max_api_name, get_by_id}
use hello_world_osal.Service.{Prop, create, delete, operate, get_id_by_name, get_info}

-- OS_QUEUE_MAX_DEPTH
abbrev pub queue_max_depth : ℕ
queue_max_depth = 50

-- The OS_Queue*_Impl functions. `get_impl` gives back the code, the bytes that went into the buffer,
-- and `*size_copied`.
pub record QueueImpl (K : Type 0) : Type 0 where
  pub create_impl : ℕ → ℕ → Os K → ℤ × K
  pub delete_impl : ℕ → Os K → ℤ × K
  pub get_impl : ℕ → ℕ → ℤ → Os K → ℤ × List ℕ × ℕ × Os K
  pub put_impl : ℕ → List ℕ → ℕ → Os K → ℤ × Os K

module _ {K : Type 0} where
  unfoldable pub queue_api_init : Os K → Os K
  queue_api_init s = record s {
    queue_table = λ i. record { queue_name = []; max_size = 0; max_depth = 0 };
  }

  unfoldable pub queue_store : Text → ℕ → ℕ → ℕ → Os K → Os K
  queue_store name depth size i s =
      let e = entry ObjectType.queue i in
      record (set_record s e (record (s.common_table e) { name_entry = some name })) {
        queue_table =
            update s.queue_table i
              (record { queue_name = name; max_size = size; max_depth = depth });
      }

-- What a get call returns: the code, and what it wrote to the buffer and to `*size_copied`.
pub record Got (K : Type 0) : Type 0 where
  pub code : ℤ
  pub bytes : List ℕ
  pub size_copied : Option ℕ
  pub after : Os K

module _ {K : Type 0} (p : Port K) (impl : QueueImpl K) where
  unfoldable pub queue_create : Bool → Option Text → ℕ → ℕ → ℕ → Os K → ℤ × Option ℕ × Os K
  queue_create false name depth size flags s = (os_invalid_pointer, none, s)
  queue_create true none depth size flags s = (os_invalid_pointer, none, s)
  queue_create true (some name) depth size flags s =
      if leb max_api_name (length name)
      then (os_err_name_too_long, none, s)
      else if ltb queue_max_depth depth
      then (os_queue_invalid_size, none, s)
      else create p ObjectType.queue (queue_store name depth size) (λ i. impl.create_impl i flags)
          name s

  unfoldable pub queue_delete : ℕ → Os K → ℤ × Os K
  queue_delete id s = delete p ObjectType.queue impl.delete_impl id s

  unfoldable pub get_found : ℕ → ℤ → Result ℕ × Os K → Got K
  get_found size timeout (fail code, s) = record {
    code = code;
    bytes = [];
    size_copied = none;
    after = s;
  }
  get_found size timeout (ok i, s) =
      if ltb size (s.queue_table i).max_size
      then record { code = os_queue_invalid_size; bytes = []; size_copied = some 0; after = s }
      else (let (code, bytes, copied, s') = impl.get_impl i size timeout s in
          record { code = code; bytes = bytes; size_copied = some copied; after = s' })

  -- The Booleans tell whether the pointers `data` and `size_copied` are not NULL.
  unfoldable pub queue_get : Bool → Bool → ℕ → ℕ → ℤ → Os K → Got K
  queue_get true true id size timeout s =
      get_found size timeout (get_by_id p unlocked ObjectType.queue id s)
  queue_get true false id size timeout s = record {
    code = os_invalid_pointer;
    bytes = [];
    size_copied = none;
    after = s;
  }
  queue_get false copied id size timeout s = record {
    code = os_invalid_pointer;
    bytes = [];
    size_copied = none;
    after = s;
  }

  -- A NULL `data` is `none`; the bytes are the `size` ones that it points to.
  unfoldable pub queue_put : ℕ → Option (List ℕ) → ℕ → Os K → ℤ × Os K
  queue_put id none flags s = (os_invalid_pointer, s)
  queue_put id (some bytes) flags s =
      operate p ObjectType.queue (λ i. impl.put_impl i bytes flags) id s

  unfoldable pub queue_get_id_by_name : Bool → Option Text → Os K → ℤ × Option ℕ × Os K
  queue_get_id_by_name out name s = get_id_by_name p ObjectType.queue out name s

  -- The layer below has no part in this.
  unfoldable pub queue_get_info : Bool → ℕ → Os K → ℤ × Option Prop × Os K
  queue_get_info out id s = get_info p ObjectType.queue (λ i k. (os_success, 0)) out id s
