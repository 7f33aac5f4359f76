-- ===== src/NetSupport/Phases.antt =====
-- The connection slots while the manager and the server tasks take turns.
use native.Mathlib.Decide.{ℕ_discrete}
use hello_world_osal.Base.{
  ℕ, zero, suc, ◌+◌, ◌-◌, ◌<◌, ◌≡◌, ◌≢◌, ◌⊎◌, inl, inr, sym, ap, ◌∙◌, subst, arith, ℤ, Bool, true,
  false, ◌&&◌, ◌==◌, if◌then◌else◌, is_success, update,
}
use hello_world_osal.NetSupport.{
  AllocStatus, released, allocated, HandleStatus, disconnected, connected, InitStatus, done,
  pending, Slot, Net, Calls, max_connections, is_allocated, clear_slots, begin_server, end_server,
  reap, reap_from, survey, write_socket, write_task, admit,
}
use hello_world_osal.NetSupport.Slots.{survey_lem, survey-slots, survey-unfinished, admit-in_use}

-- Free, given to a connection, served by the given number of tasks, which is one, or finished.
abbrev phase_ok : AllocStatus → HandleStatus → InitStatus → ℕ → Bool
phase_ok released disconnected pending n = n == 0
phase_ok released disconnected done n = false
phase_ok released connected i n = false
phase_ok allocated disconnected i n = n == 0
phase_ok allocated connected done n = n == 1
phase_ok allocated connected pending n = false

abbrev pub is_phased : Slot → ℕ → Bool
is_phased x n = phase_ok x.alloc_status x.handle_status x.init_status n

abbrev pub IsServing : Slot → Type 0
IsServing x = (x.alloc_status ≡ allocated) × (x.handle_status ≡ connected) × (x.init_status ≡ done)

-- What the manager does next: the first part of a round, up to OS_SocketAccept, or the second.
pub data Turn : Type 0 where
  looking entering : Turn

-- The variables; whether a server task was created and has not begun; how many server tasks have
-- begun with a LocalConnID and not ended.
pub record World : Type 0 where
  pub net : Net
  pub turn : Turn
  pub waiting : Bool
  pub tasks : ℕ → ℕ

-- Whether the second part of a round creates a server task.
abbrev pub launches : Calls → Net → Bool
launches calls m =
    if is_allocated (m.slots m.free_conn_id)
    then false
    else is_success calls.accept_status && is_success calls.create_status

-- A turn of the manager, of a server task that begins, or of one that ends. The next round of the
-- manager waits until a server task that was created has begun, which has a higher priority.
pub data Step (w : World) : World → Type 0 where
  look :
      (task_delete : ℕ → ℤ)
      → w.turn ≡ looking
      → w.waiting ≡ false
      → Step w (record w { net = survey task_delete w.net; turn = entering })
  enter :
      (calls : Calls)
      → w.turn ≡ entering
      → Step w
          (record w { net = admit calls w.net; turn = looking; waiting = launches calls w.net })
  begin :
      w.waiting ≡ true
      → Step w (record w {
        net = (begin_server w.net).1;
        waiting = false;
        tasks = update w.tasks (begin_server w.net).0 (w.tasks (begin_server w.net).0 + 1);
      })
  finish :
      (i : ℕ)
      → 0 < w.tasks i
      → Step w (record w { net = end_server i w.net; tasks = update w.tasks i (w.tasks i - 1) })

-- From the set-up of the server on, when there are no server tasks.
pub data Reach (m0 : Net) : World → Type 0 where
  start : Reach m0 (record {
    net = clear_slots max_connections 0 (record m0 { free_conn_id = 0 });
    turn = looking;
    waiting = false;
    tasks = λ i. 0;
  })
  later : {w w' : World} → Reach m0 w → Step w w' → Reach m0 w'

pub record IsPhased (w : World) : Type 0 where
  pub chosen : w.net.free_conn_id < max_connections
  pub phases : (i : ℕ) → i < max_connections → is_phased (w.net.slots i) (w.tasks i) ≡ true
  pub reserved :
      w.waiting ≡ true
      → ((w.net.slots w.net.free_conn_id).alloc_status ≡ allocated)
        × ((w.net.slots w.net.free_conn_id).init_status ≡ pending)

reap-phased :
    (task_delete : ℕ → ℤ) (j i n : ℕ) (m : Net)
    → is_phased (m.slots i) n ≡ true
    → is_phased ((reap task_delete j m).slots i) n ≡ true
unfolding reap
reap-phased task_delete j i n m h = elim (ℕ_discrete j i) [
  | yes e ↦ ground (arith, subst (λ k. is_phased (m.slots k) n ≡ true) (sym e) h)
  | no ne ↦ ground arith
]

reap_from-phased :
    (task_delete : ℕ → ℤ) (count j i n : ℕ) (m : Net)
    → is_phased (m.slots i) n ≡ true
    → is_phased ((reap_from task_delete count j m).slots i) n ≡ true
unfolding reap_from
reap_from-phased task_delete zero j i n m h = h
reap_from-phased task_delete (suc count) j i n m h =
    reap_from-phased task_delete count (j + 1) i n (reap task_delete j m)
      (reap-phased task_delete j i n m h)

admit-phased :
    (calls : Calls) (m : Net) (i n : ℕ)
    → is_phased (m.slots i) n ≡ true
    → is_phased ((admit calls m).slots i) n ≡ true
unfolding admit write_socket write_task
admit-phased calls m i n h = elim (ℕ_discrete m.free_conn_id i) [
  | yes e ↦ ground (arith, subst (λ k. is_phased (m.slots k) n ≡ true) (sym e) h)
  | no ne ↦ ground arith
]

admit-free_conn_id : (calls : Calls) (m : Net) → (admit calls m).free_conn_id ≡ m.free_conn_id
unfolding admit
admit-free_conn_id calls m = ground arith

admit-reserved :
    (calls : Calls) (m : Net) (n : ℕ)
    → is_phased (m.slots m.free_conn_id) n ≡ true
    → launches calls m ≡ true
    → let x = (admit calls m).slots m.free_conn_id in
      (x.alloc_status ≡ allocated) × (x.init_status ≡ pending)
unfolding admit write_socket write_task
admit-reserved calls m n h more = ground (arith, h, more)

clear_slots-phased :
    (m : Net) (i : ℕ)
    → i < max_connections
    → is_phased ((clear_slots max_connections 0 m).slots i) 0 ≡ true
unfolding clear_slots
clear_slots-phased m i h = ground arith

Step-IsPhased : (w w' : World) → IsPhased w → Step w w' → IsPhased w'
unfolding begin_server end_server
Step-IsPhased w _ c (look task_delete due settled) = record {
  chosen = (survey_lem task_delete w.net 0 (omega arith)).2;
  phases = λ i h.
      ap (λ (f : ℕ → Slot). is_phased (f i) (w.tasks i)) (survey-slots task_delete w.net)
      ∙ reap_from-phased task_delete max_connections 0 i (w.tasks i)
          (record w.net { free_conn_id = 0 }) (c.phases i h);
  reserved = λ e. absurd (ground (arith, e, settled));
}
Step-IsPhased w _ c (enter calls due) = record {
  chosen = subst (λ k. k < max_connections) (sym (admit-free_conn_id calls w.net)) c.chosen;
  phases = λ i h. admit-phased calls w.net i (w.tasks i) (c.phases i h);
  reserved = λ e.
      subst
        (λ k.
          (((admit calls w.net).slots k).alloc_status ≡ allocated)
          × (((admit calls w.net).slots k).init_status ≡ pending))
        (sym (admit-free_conn_id calls w.net))
        (admit-reserved calls w.net (w.tasks w.net.free_conn_id)
          (c.phases w.net.free_conn_id c.chosen) e);
}
Step-IsPhased w _ c (begin created) = record {
  chosen = c.chosen;
  phases = λ i h.
      (let ok_i = c.phases i h in let held = c.reserved created in ground (arith, ok_i, held));
  reserved = λ e. absurd (ground (arith, e));
}
Step-IsPhased w _ c (finish j running) = record {
  chosen = c.chosen;
  phases = λ i h. (let ok_i = c.phases i h in ground (arith, ok_i, running));
  reserved = λ e. (let held = c.reserved e in ground (arith, held));
}

-- Whatever the order of the turns of the manager and the server tasks, every slot is free, given
-- to a connection, served or finished; it has a server task, and then one only, exactly if it is
-- served; FreeconnId names a slot that exists; and while a server task that was created has not
-- begun, its slot is still allocated and pending. The next round of the manager begins only once
-- such a task has.
pub Reach-IsPhased : (m0 : Net) (w : World) → Reach m0 w → IsPhased w
unfolding clear_slots
Reach-IsPhased m0 _ start = record {
  chosen = omega arith;
  phases = clear_slots-phased (record m0 { free_conn_id = 0 });
  reserved = λ e. absurd (ground (arith, e));
}
Reach-IsPhased m0 _ (later r step) = Step-IsPhased _ _ (Reach-IsPhased m0 _ r) step

-- A turn leaves a connection that is served as it is, or ends it, and then with its socket and its
-- task kept, if a server task that was created and has not begun still has a pending slot, as it
-- has in every state that turns reach.
pub Step-IsServing :
    (w w' : World) (i : ℕ)
    → (w.waiting ≡ true → (w.net.slots w.net.free_conn_id).init_status ≡ pending)
    → Step w w'
    → IsServing (w.net.slots i)
    → (w'.net.slots i ≡ w.net.slots i)
      ⊎ (w'.net.slots i ≡ record (w.net.slots i) { handle_status = disconnected })
unfolding begin_server end_server
Step-IsServing w _ i own (look task_delete due settled) (a, b, d) =
    inl (survey-unfinished task_delete w.net i (ground arith))
Step-IsServing w _ i own (enter calls due) (a, b, d) =
    inl (admit-in_use calls w.net i (ground arith))
Step-IsServing w _ i own (begin created) (a, b, d) = elim (ℕ_discrete w.net.free_conn_id i) [
  | yes e ↦ absurd (pending-done (sym (own created) ∙ ap (λ k. (w.net.slots k).init_status) e ∙ d))
  | no ne ↦ inl (ground arith)
]
  where
    pending-done : pending ≢ done
    pending-done e = cc
Step-IsServing w _ i own (finish j running) (a, b, d) = elim (ℕ_discrete j i) [
  | yes e ↦ inr (ground arith)
  | no ne ↦ inl (ground arith)
]
