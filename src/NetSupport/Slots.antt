-- ===== src/NetSupport/Slots.antt =====
-- What a round of the connection manager does to the slots.
use native.Mathlib.Decide.{ℕ_discrete}
use hello_world_osal.Base.{
  ℕ, ◌<◌, ◌≡◌, ◌⊎◌, inl, inr, refl, sym, ap, ◌∙◌, subst, arith, ℤ, true, false, Option, none, some,
  List, [], ◌∷◌, if◌then◌else◌, is_success, Option-cases,
}
use hello_world_osal.NetSupport.{
  released, disconnected, pending, Slot, Net, Calls, max_connections, is_allocated, is_finished,
  reap_from, count_from, pick_from, survey, write_socket, write_task, admit, rounds,
}
use hello_world_osal.NetSupport.Loops.{
  taken_back, reap_from-unfinished, reap_from-free_conn_id, reap_from-here, count_from-slots,
  pick_from-some, pick_from-none,
}

module _ (task_delete : ℕ → ℤ) (m : Net) where
  abbrev reaped : Net
  reaped = reap_from task_delete max_connections 0 (record m { free_conn_id = 0 })

  pub survey-slots : (survey task_delete m).slots ≡ reaped.slots
  unfolding survey
  survey-slots = ground arith

  survey-here :
      (i : ℕ)
      → i < max_connections
      → (survey task_delete m).slots i ≡ taken_back task_delete (m.slots i)
  survey-here i h =
      ap (λ (f : ℕ → Slot). f i) survey-slots
      ∙ reap_from-here task_delete max_connections 0 i (record m { free_conn_id = 0 }) (omega arith)
          h

  -- The survey leaves a slot that is not finished alone.
  pub survey-unfinished :
      (i : ℕ) → is_finished (m.slots i) ≡ false → (survey task_delete m).slots i ≡ m.slots i
  survey-unfinished i h =
      ap (λ (f : ℕ → Slot). f i) survey-slots
      ∙ reap_from-unfinished task_delete max_connections 0 i (record m { free_conn_id = 0 }) h

  abbrev counted : Net
  counted = record reaped { active_connections = count_from max_connections 0 reaped }

  survey-some :
      (j : ℕ)
      → pick_from max_connections 0 counted ≡ some j
      → survey task_delete m ≡ record counted { free_conn_id = j }
  unfolding survey
  survey-some j e =
      ap
        (λ (o : Option ℕ). elim o [ some k ↦ record counted { free_conn_id = k } | none ↦ counted ])
        e

  survey-none : pick_from max_connections 0 counted ≡ none → survey task_delete m ≡ counted
  unfolding survey
  survey-none e =
      ap
        (λ (o : Option ℕ). elim o [ some k ↦ record counted { free_conn_id = k } | none ↦ counted ])
        e

  abbrev IsCounted : Net → Type 0
  IsCounted m' = m'.active_connections ≡ count_from max_connections 0 m'

  survey-active : IsCounted (survey task_delete m)
  survey-active = elim (Option-cases (pick_from max_connections 0 counted)) [
    | inr (j, e) ↦
        subst IsCounted (sym (survey-some j e))
          (sym (count_from-slots max_connections 0 j counted.active_connections reaped))
    | inl e ↦ subst IsCounted (sym (survey-none e)) (
        sym (
          count_from-slots max_connections 0 reaped.free_conn_id counted.active_connections reaped))
  ]

  abbrev IsChosen : ℕ → Net → Type 0
  IsChosen i m' =
      (m'.free_conn_id < max_connections)
      × ((is_allocated (m'.slots m'.free_conn_id) ≡ false) ⊎ (is_allocated (m'.slots i) ≡ true))

  survey-IsChosen : (i : ℕ) → i < max_connections → IsChosen i (survey task_delete m)
  survey-IsChosen i h = elim (Option-cases (pick_from max_connections 0 counted)) [
    | inr (j, e) ↦
        let (low, free) = pick_from-some max_connections 0 j counted e in
        subst (IsChosen i) (sym (survey-some j e)) (low, inl free)
    | inl e ↦
        let none_free = pick_from-none max_connections 0 i counted e (omega arith) h in
        let zeroth =
          reap_from-free_conn_id task_delete max_connections 0 (record m { free_conn_id = 0 }) in
        subst (IsChosen i) (sym (survey-none e)) (omega (arith, zeroth), inr none_free)
  ]

  pub survey_lem :
      (i : ℕ)
      → i < max_connections
      → let m' = survey task_delete m in
        (m'.slots i ≡ (
          if is_finished (m.slots i)
          then record (m.slots i) { alloc_status = released; init_status = pending }
          else m.slots i))
        × (m'.active_connections ≡ count_from max_connections 0 m')
        × (m'.free_conn_id < max_connections)
        × ((is_allocated (m'.slots m'.free_conn_id) ≡ false) ⊎ (is_allocated (m'.slots i) ≡ true))
  survey_lem i h =
      let (low, free) = survey-IsChosen i h in (survey-here i h, survey-active, low, free)

-- A slot in use is never given to a new connection.
pub admit-in_use :
    (calls : Calls) (m : Net) (i : ℕ)
    → is_allocated (m.slots i) ≡ true
    → (admit calls m).slots i ≡ m.slots i
unfolding admit
admit-in_use calls m i h = elim (ℕ_discrete m.free_conn_id i) [
  | yes e ↦ ground (arith, ap (λ k. is_allocated (m.slots k)) e)
  | no ne ↦ ground arith
]

rounds-kept :
    (task_delete : ℕ → ℤ) (list : List Calls) (m : Net) (i : ℕ)
    → is_allocated (m.slots i) ≡ true
    → is_finished (m.slots i) ≡ false
    → (rounds task_delete list m).slots i ≡ m.slots i
unfolding rounds
rounds-kept task_delete [] m i used alive = refl
rounds-kept task_delete (calls ∷ rest) m i used alive =
    let kept = survey-unfinished task_delete m i alive in
    let m1 = survey task_delete m in
    let used1 = ap (λ (x : Slot). is_allocated x) kept ∙ used in
    let same = admit-in_use calls m1 i used1 ∙ kept in
    rounds-kept task_delete rest (admit calls m1) i (ap (λ (x : Slot). is_allocated x) same ∙ used)
      (ap (λ (x : Slot). is_finished x) same ∙ alive)
    ∙ same

-- A slot that is released, without a connection, and waiting for one.
abbrev pub IsFree : Slot → Type 0
IsFree x =
    (x.alloc_status ≡ released) × (x.handle_status ≡ disconnected) × (x.init_status ≡ pending)

admit-IsFree :
    (calls : Calls) (m : Net)
    → is_success calls.accept_status ≡ true
    → IsFree (m.slots m.free_conn_id)
    → let x = (admit calls m).slots m.free_conn_id in
      (is_allocated x ≡ true) × (is_finished x ≡ false)
unfolding admit write_socket write_task
admit-IsFree calls m got (a, b, c) = ground (arith, got)

-- A slot that was given to a new connection stays in use through any rounds of the manager without
-- a server task: it is never taken back if the server task could not be created.
pub rounds-stuck :
    (task_delete : ℕ → ℤ) (list : List Calls) (calls : Calls) (m : Net)
    → is_success calls.accept_status ≡ true
    → IsFree (m.slots m.free_conn_id)
    → is_allocated ((rounds task_delete list (admit calls m)).slots m.free_conn_id) ≡ true
rounds-stuck task_delete list calls m got free =
    let (used, alive) = admit-IsFree calls m got free in
    ap (λ (x : Slot). is_allocated x)
      (rounds-kept task_delete list (admit calls m) m.free_conn_id used alive)
    ∙ used
