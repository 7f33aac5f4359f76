-- ===== src/NetSupport.antt =====
-- The connection slots of the TCP server: src/NetSupport.c, with the types of src/NetSupport.h.
pub mod Phases
pub mod Loops
pub mod Slots
pub mod Replies
use hello_world_osal.Base.{
  ℕ, zero, suc, ◌+◌, ◌-◌, ◌%◌, ◌^◌, ◌<◌, ◌≡◌, ℤ, Bool, true, false, ◌&&◌, Option, none, some, List,
  [], ◌∷◌, ◌==◌, if◌then◌else◌, is_success, update,
}

pub data AllocStatus : Type 0 where
  released allocated : AllocStatus

pub data HandleStatus : Type 0 where
  disconnected connected : HandleStatus

pub data InitStatus : Type 0 where
  done pending : InitStatus

-- One index of the arrays connAllocSts, connRelSts, ConnInit, connsock_id and TaskData.
pub record Slot : Type 0 where
  pub alloc_status : AllocStatus
  pub handle_status : HandleStatus
  pub init_status : InitStatus
  pub socket : ℕ
  pub task : ℕ

-- The global variables; `status` is the shared result of the last call.
pub record Net : Type 0 where
  pub slots : ℕ → Slot
  pub free_conn_id : ℕ
  pub active_connections : ℕ
  pub status : ℤ

abbrev pub max_connections : ℕ
max_connections = 3

abbrev pub buffer_len : ℕ
buffer_len = 2900

abbrev pub is_allocated : Slot → Bool
is_allocated x = elim x.alloc_status [ allocated ↦ true | released ↦ false ]

abbrev is_connected : Slot → Bool
is_connected x = elim x.handle_status [ connected ↦ true | disconnected ↦ false ]

abbrev is_pending : Slot → Bool
is_pending x = elim x.init_status [ pending ↦ true | done ↦ false ]

-- The condition under which a slot is taken back.
abbrev pub is_finished : Slot → Bool
is_finished x = if is_connected x then false else if is_pending x then false else is_allocated x

abbrev pub set_slot : Net → ℕ → Slot → Net
set_slot m i x = record m { slots = update m.slots i x }

-- The loop of CreateServerTCPSocket over the slots from `j` on.
unfoldable pub clear_slots : ℕ → ℕ → Net → Net
clear_slots zero j m = m
clear_slots (suc count) j m = clear_slots count (j + 1) (
    set_slot m j (record (m.slots j) {
      socket = 0;
      alloc_status = released;
      handle_status = disconnected;
      init_status = pending;
    }))

-- The start of Server_Fn: the slot is the one that `FreeconnId` names at that time.
unfoldable pub begin_server : Net → ℕ × Net
begin_server m =
    let i = m.free_conn_id in
    (i, set_slot m i (record (m.slots i) { handle_status = connected; init_status = done }))

-- The end of Server_Fn, but for its calls.
unfoldable pub end_server : ℕ → Net → Net
end_server i m = set_slot m i (record (m.slots i) { handle_status = disconnected })

-- The words j, j - 1, ... of a reply, and the next j, as 32-bit words.
unfoldable pub fill_reply : ℕ → ℕ → List ℕ × ℕ
fill_reply zero j = ([], j)
fill_reply (suc count) j =
    let (words, next) = fill_reply count ((j + (2 ^ 32 - 1)) % 2 ^ 32) in (j ∷ words, next)

unfoldable pub fill_close : ℕ → List ℕ
fill_close zero = []
fill_close (suc count) = 8 ∷ fill_close count

-- A turn of the loop of Server_Fn on the first two words received: whether the connection goes on,
-- the reply and the next j.
unfoldable pub serve : ℕ → ℕ → ℕ → Bool × List ℕ × ℕ
serve first second j =
    if first == 9 && second == 9
    then (false, fill_close buffer_len, j)
    else (let (words, next) = fill_reply buffer_len j in (true, words, next))

module _ (task_delete : ℕ → ℤ) where
  unfoldable pub reap : ℕ → Net → Net
  reap j m =
      let x = m.slots j in
      if is_finished x
      then record (set_slot m j (record x { alloc_status = released; init_status = pending })) {
        status = task_delete x.task;
      }
      else m

  -- The first loop of TCPConnMgmt, from slot `j` on.
  unfoldable pub reap_from : ℕ → ℕ → Net → Net
  reap_from zero j m = m
  reap_from (suc count) j m = reap_from count (j + 1) (reap j m)

-- The second loop: how many slots are allocated.
unfoldable pub count_from : ℕ → ℕ → Net → ℕ
count_from zero j m = 0
count_from (suc count) j m =
    let rest = count_from count (j + 1) m in if is_allocated (m.slots j) then suc rest else rest

-- The third loop: the first slot that is not allocated.
unfoldable pub pick_from : ℕ → ℕ → Net → Option ℕ
pick_from zero j m = none
pick_from (suc count) j m =
    let rest = pick_from count (j + 1) m in if is_allocated (m.slots j) then rest else some j

-- A round of TCPConnMgmt up to OS_SocketAccept.
unfoldable pub survey : (ℕ → ℤ) → Net → Net
survey task_delete m =
    let m1 = reap_from task_delete max_connections 0 (record m { free_conn_id = 0 }) in
    let m2 = record m1 { active_connections = count_from max_connections 0 m1 } in
    elim (pick_from max_connections 0 m2) [ some j ↦ record m2 { free_conn_id = j } | none ↦ m2 ]

-- What the calls of a round return: OS_SocketAccept with the socket that it writes, if any, and
-- OS_TaskCreate with the task.
pub record Calls : Type 0 where
  pub accept_status : ℤ
  pub accept_socket : Option ℕ
  pub create_status : ℤ
  pub create_task : Option ℕ

unfoldable pub write_socket : Option ℕ → Slot → Slot
write_socket none x = x
write_socket (some id) x = record x { socket = id }

unfoldable pub write_task : Option ℕ → Slot → Slot
write_task none x = x
write_task (some id) x = record x { task = id }

-- The rest of the round, from OS_SocketAccept on.
unfoldable pub admit : Calls → Net → Net
admit calls m =
    let i = m.free_conn_id in
    let x = write_socket calls.accept_socket (m.slots i) in
    if is_allocated (m.slots i)
    then m
    else if is_success calls.accept_status
    then record (set_slot m i
        (write_task calls.create_task (record x { alloc_status = allocated }))) {
          status = calls.create_status;
        }
    else record (set_slot m i (record x { alloc_status = released })) {
      status = calls.accept_status;
    }

-- Rounds of TCPConnMgmt with no server task in between.
unfoldable pub rounds : (ℕ → ℤ) → List Calls → Net → Net
rounds task_delete [] m = m
rounds task_delete (calls ∷ rest) m = rounds task_delete rest (admit calls (survey task_delete m))
