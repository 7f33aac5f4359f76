-- ===== src/Tests/Connections.antt =====
-- The connection manager on concrete states.
use mathlib.Core.Logic.{◌↔◌}
use hello_world_osal.Base.{
  ℕ, ◌+◌, ◌≡◌, ◌⊎◌, refl, arith, true, false, none, some, os_success, os_error, [], ◌∷◌, length,
  update,
}
use hello_world_osal.NetSupport.{
  released, allocated, disconnected, connected, done, pending, Slot, Net, Calls, max_connections,
  buffer_len, is_allocated, clear_slots, begin_server, end_server, reap, reap_from, count_from,
  pick_from, survey, admit, rounds, serve,
}
use hello_world_osal.NetSupport.Slots.{rounds-stuck}
use hello_world_osal.NetSupport.Phases.{
  World, looking, entering, launches, Step, Reach, IsPhased, Reach-IsPhased, Step-IsServing,
}
use hello_world_osal.NetSupport.Replies.{serve_lem}

abbrev free_slot : Slot
free_slot = record {
  alloc_status = released;
  handle_status = disconnected;
  init_status = pending;
  socket = 0;
  task = 0;
}

abbrev idle_net : Net
idle_net = record {
  slots = λ i. free_slot;
  free_conn_id = 0;
  active_connections = 0;
  status = os_success;
}

-- A connection comes in, and its task cannot be created.
abbrev no_task : Calls
no_task = record {
  accept_status = os_success;
  accept_socket = some 0x6_0001;
  create_status = os_error;
  create_task = none;
}

abbrev served_slot : Slot
served_slot = record {
  alloc_status = allocated;
  handle_status = connected;
  init_status = done;
  socket = 0x6_0001;
  task = 0x1_0002;
}

abbrev serving_net : Net
serving_net = record idle_net { slots = λ i. served_slot }

abbrev finished_net : Net
finished_net = record idle_net { slots = λ i. record served_slot { handle_status = disconnected } }

rounds-stuck_example :
    is_allocated
      ((rounds (λ id. os_success) (no_task ∷ no_task ∷ []) (admit no_task idle_net)).slots 0)
    ≡ true
rounds-stuck_example =
    rounds-stuck (λ id. os_success) (no_task ∷ no_task ∷ []) no_task idle_net refl
      (refl, refl, refl)

-- A connection comes in, and its task is created.
abbrev new_task : Calls
new_task = record no_task { create_status = os_success; create_task = some 0x1_0002 }

abbrev set_up : World
set_up = record {
  net = clear_slots max_connections 0 (record idle_net { free_conn_id = 0 });
  turn = looking;
  waiting = false;
  tasks = λ i. 0;
}

abbrev looked : World
looked = record set_up { net = survey (λ id. os_success) set_up.net; turn = entering }

abbrev entered : World
entered = record looked {
  net = admit new_task looked.net;
  turn = looking;
  waiting = launches new_task looked.net;
}

abbrev begun : World
begun = record entered {
  net = (begin_server entered.net).1;
  waiting = false;
  tasks =
      update entered.tasks (begin_server entered.net).0
        (entered.tasks (begin_server entered.net).0 + 1);
}

created : entered.waiting ≡ true
unfolding survey reap_from reap count_from pick_from clear_slots
created = refl

-- The manager looks for a slot and gives it to a connection, whose task begins.
Reach-IsPhased_example : IsPhased begun
Reach-IsPhased_example = Reach-IsPhased idle_net begun (
    Reach.later
      (Reach.later (Reach.later Reach.start (Step.look (λ id. os_success) refl refl))
        (Step.enter new_task refl))
      (Step.begin created))

abbrev serving : World
serving = record { net = serving_net; turn = looking; waiting = false; tasks = λ i. 1 }

Step-IsServing_example :
    ((end_server 1 serving_net).slots 1 ≡ served_slot)
    ⊎ ((end_server 1 serving_net).slots 1 ≡ record served_slot { handle_status = disconnected })
Step-IsServing_example =
    Step-IsServing serving
      (record serving { net = end_server 1 serving_net; tasks = update (λ i. 1) 1 0 }) 1
      (λ e. absurd (ground (arith, e))) (Step.finish 1 (omega arith)) (refl, refl, refl)

abbrev first_word : ℕ
first_word = 1

abbrev second_word : ℕ
second_word = 2

serve_lem_example :
    let (goes_on, reply, next) = serve first_word second_word 100000 in
    (length reply ≡ buffer_len)
    × ((goes_on ≡ false) ↔ ((first_word ≡ 9) × (second_word ≡ 9)))
    × ((goes_on ≡ false) ⊎ (next + buffer_len ≡ 100000))
serve_lem_example = serve_lem first_word second_word 100000 (omega arith) (omega arith)
