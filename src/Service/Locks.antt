-- ===== src/Service/Locks.antt =====
-- Who holds the type's table at the end of whole service calls.
use hello_world_osal.Service.Create.{Names}
use hello_world_osal.Base.{
  subst, ◌/◌, ◌^◌, inl, inr, ℕ, ◌≡◌, ◌≢◌, refl, ap, ◌∙◌, arith, ℤ, Option, none, some, Bool, true,
  false, Text,
}
use hello_world_osal.Idmap.Id.{Result, ok, fail, to_type, to_array_index, entry}
use hello_world_osal.Idmap.State.{Os, Port, CommonRecord, ObjtypeState, owner}
use hello_world_osal.Idmap.Invariant.{to_array_index-ok}
use hello_world_osal.Idmap.Lock.{LockMode, global, exclusive, initiate_lock}
use hello_world_osal.Idmap.Lock.Discipline.{IsMutex, owner-unlock_global}
use hello_world_osal.Idmap.Lock.Granted.{convert_lock-Granted}
use hello_world_osal.Idmap.Lookup.{convert_found, get_by_id}
use hello_world_osal.Idmap.Lookup.Discipline.{
  Result-cases, keeper, owner-get_by_id, owner-find_by_name,
}
use hello_world_osal.Idmap.Alloc.{allocate_new}
use hello_world_osal.Idmap.Alloc.Allocated.{allocate_new-Allocated}
use hello_world_osal.Idmap.Alloc.Locking.{
  allocator, owner-allocate_new, owner-finalize_new, owner-finalize_delete,
}
use hello_world_osal.Service.{
  run_locked, build, create, tear_down, delete, describe, get_info, get_id_by_name,
}

module _ {K : Type 0} (p : Port K) (t : ℕ) (m : IsMutex p t) (known : t ≢ 0) where
  convert_found-Granted :
      (mode : LockMode) (id i j : ℕ) (s s' : Os K)
      → convert_found p mode t id i s ≡ (ok j, s')
      → (i ≡ j) × ((s'.common_table (entry t i)).active_id ≡ id)
  unfolding convert_found
  convert_found-Granted mode id i j s s' e =
      ground (arith, convert_lock-Granted p mode t id (entry t i) s)

  to_type-looked_up : (id i : ℕ) → to_array_index t id ≡ ok i → to_type id ≡ t
  unfolding to_type
  to_type-looked_up id i e = ground (arith, to_array_index-ok t i id e known)

  to_type-kind : (id : ℕ) → id / 2 ^ 16 ≡ t → to_type id ≡ t
  unfolding to_type
  to_type-kind id q = ground (arith, q)

  get_by_id-Granted :
      (mode : LockMode) (id i : ℕ) (s s' : Os K)
      → get_by_id p mode t id s ≡ (ok i, s')
      → to_type (s'.common_table (entry t i)).active_id ≡ t
  unfolding get_by_id
  get_by_id-Granted mode id i s s' e = elim (Result-cases p (to_array_index t id)) [
    | inl (j, q) ↦
        let s0 = initiate_lock p mode t s in
        let (same, stands) = convert_found-Granted mode id j i s0 s' (ground (arith, e, q)) in
        ap to_type (subst (λ (k : ℕ). (s'.common_table (entry t k)).active_id ≡ id) same stands)
        ∙ to_type-looked_up id j q
    | inr (c, q) ↦ absurd (ground (arith, e, q))
  ]

  owner-tear_down :
      (impl : ℕ → Os K → ℤ × K) (r : Result ℕ) (s : Os K)
      → owner s t ≡ keeper p exclusive r
      → ((i : ℕ) → r ≡ ok i → to_type (s.common_table (entry t i)).active_id ≡ t)
      → owner (tear_down p t impl (r, s)).1 t ≡ 0
  unfolding tear_down
  owner-tear_down impl (fail c) s h typed = h
  owner-tear_down impl (ok i) s h typed =
      let (status, s1) = run_locked (impl i s) s in
      owner-finalize_delete p t m status (entry t i) s1 (typed i refl) h

  -- If the mutex of the type works, a delete call begun with the type's table free ends with it
  -- free, on success and on every failure, whatever the other tasks do during its waits.
  pub owner-delete :
      (impl : ℕ → Os K → ℤ × K) (id : ℕ) (s : Os K)
      → owner s t ≡ 0
      → owner (delete p t impl id s).1 t ≡ 0
  unfolding delete
  owner-delete impl id s h =
      let (r, s') = get_by_id p exclusive t id s in
      owner-tear_down impl r s' (owner-get_by_id p t m exclusive id s (λ q. cc) h)
        (λ i q. get_by_id-Granted exclusive id i s s' (ap (λ (c : Result ℕ). (c, s')) q))

  owner-build :
      (store : ℕ → Os K → Os K) (impl : ℕ → Os K → ℤ × K) (r : Result ℕ) (s : Os K)
      → ((i : ℕ) (o : Os K) → owner (store i o) t ≡ owner o t)
      → owner s t ≡ allocator p t r
      → ((i : ℕ) → r ≡ ok i → to_type ((store i s).common_table (entry t i)).active_id ≡ t)
      → owner (build p t store impl (r, s)).2 t ≡ 0
  unfolding build
  owner-build store impl (fail c) s keeps h typed = h
  owner-build store impl (ok i) s keeps h typed =
      let s1 = store i s in
      let (status, s2) = run_locked (impl i s1) s1 in
      owner-finalize_new p t m status (entry t i) s2 (typed i refl) (keeps i s ∙ h)

  module _ (store : Text → ℕ → Os K → Os K) (w : Names t store) (impl : ℕ → Os K → ℤ × K) where
    -- If the mutex of the type works, a create call begun with the type's table free ends with it
    -- free: if the ID is refused, if the layer below fails, and on success.
    pub owner-create :
        (name : Text) (s : Os K)
        → owner s t ≡ 0
        → owner (create p t (store name) impl name s).2 t ≡ 0
    unfolding create
    owner-create name s h =
        let (r, s1) = allocate_new p t (some name) s in
        owner-build (store name) impl r s1
          (λ i o. ap (λ (c : ℕ → ObjtypeState). (c t).table_owner) (w.owners name i o))
          (owner-allocate_new p t m (some name) s h)
          (λ i q.
            let (a, _) =
              allocate_new-Allocated p t (some name) i s s1 (ap (λ (c : Result ℕ). (c, s1)) q) in
            ap (λ (c : CommonRecord). to_type c.active_id) (w.named name i s1)
            ∙ to_type-kind (s1.common_table (entry t i)).active_id a.fits.kind)

  owner-describe :
      (impl : ℕ → K → ℤ × ℕ) (r : Result ℕ) (s : Os K)
      → owner s t ≡ keeper p global r
      → owner (describe p t impl (r, s)).2 t ≡ 0
  unfolding describe
  owner-describe impl (fail c) s h = h
  owner-describe impl (ok i) s h = owner-unlock_global p t m s h

  -- If the mutex of the type works, a get-info call begun with the type's table free ends with it
  -- free, on every argument.
  pub owner-get_info :
      (impl : ℕ → K → ℤ × ℕ) (out : Bool) (id : ℕ) (s : Os K)
      → owner s t ≡ 0
      → owner (get_info p t impl out id s).2 t ≡ 0
  unfolding get_info
  owner-get_info impl false id s h = h
  owner-get_info impl true id s h =
      let (r, s') = get_by_id p global t id s in
      owner-describe impl r s' (owner-get_by_id p t m global id s (λ q. cc) h)

  -- A search for an ID by name that is begun with the table free ends with it free.
  pub owner-get_id_by_name :
      (out : Bool) (name : Option Text) (s : Os K)
      → owner s t ≡ 0
      → owner (get_id_by_name p t out name s).2 t ≡ 0
  unfolding get_id_by_name
  owner-get_id_by_name false name s h = h
  owner-get_id_by_name true none s h = h
  owner-get_id_by_name true (some name) s h =
      ground (arith, owner-find_by_name p t m (some name) s h)
