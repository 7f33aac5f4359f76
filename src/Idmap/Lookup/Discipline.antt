-- ===== src/Idmap/Lookup/Discipline.antt =====
-- Which table locks a search of the object table leaves held.
use hello_world_osal.Base.{
  ℕ, ◌≡◌, ◌≢◌, ◌⊎◌, inl, inr, refl, arith, ℤ, Option, none, some, Text, Option-cases, if◌then◌else◌,
  os_success, os_error, os_err_invalid_id, os_err_name_not_found, os_err_incorrect_obj_state, ◌==◌,
}
use hello_world_osal.Idmap.Id.{Result, ok, fail, to_array_index, entry, to_type}
use hello_world_osal.Idmap.State.{Os, Port, owner}
use hello_world_osal.Idmap.Lock.{
  LockMode, unlocked, global, exclusive, refcounted, self_owner, lock_global, initiate_lock,
  convert_lock, convert_loop, try_lock, try_mode, finish_convert,
}
use hello_world_osal.Idmap.Lock.Discipline.{
  IsMutex, owner-lock_global, owner-unlock_global, owner-convert_lock,
}
use hello_world_osal.Idmap.Lookup.{
  Match, search, release_lock, convert_found, get_by_search, get_by_id, get_by_name,
  object_name_match, export_id, find_by_name, drop_reference, refcount_decr, fill_name,
  get_resource_name,
}

module _ {K : Type 0} (p : Port K) where
  pub Result-cases : (r : Result ℕ) → ((i : ℕ) × (r ≡ ok i)) ⊎ ((c : ℤ) × (r ≡ fail c))
  Result-cases (ok i) = inl (i, refl)
  Result-cases (fail c) = inr (c, refl)

  -- OS_LOCK_MODE_NONE: the state is not touched.
  convert_lock-unlocked :
      (t id e : ℕ) (s : Os K)
      → convert_lock p unlocked t id e s
        ≡ ((if (s.common_table e).active_id == id then os_success else os_err_invalid_id), s)
  unfolding convert_lock convert_loop try_lock try_mode finish_convert
  convert_lock-unlocked t id e s = ground arith

  pub get_by_id-unlocked : (t id : ℕ) (s : Os K) → (get_by_id p unlocked t id s).1 ≡ s
  unfolding get_by_id convert_found initiate_lock
  get_by_id-unlocked t id s = elim (Result-cases (to_array_index t id)) [
    | inl (i, e) ↦ ground (arith, e, convert_lock-unlocked t id (entry t i) s)
    | inr (c, e) ↦ ground (arith, e)
  ]

  -- Who holds the table after a search in some mode.
  abbrev pub keeper : {A : Type 0} → LockMode → Result A → ℕ
  keeper unlocked r = 0
  keeper refcounted r = 0
  keeper global (ok a) = self_owner p
  keeper global (fail c) = 0
  keeper exclusive (ok a) = self_owner p
  keeper exclusive (fail c) = 0

  module _ (t : ℕ) (m : IsMutex p t) where
    owner-initiate_lock :
        (mode : LockMode) (s : Os K)
        → mode ≢ unlocked
        → owner s t ≡ 0
        → owner (initiate_lock p mode t s) t ≡ self_owner p
    unfolding initiate_lock
    owner-initiate_lock unlocked s ne h = absurd (ne refl)
    owner-initiate_lock global s ne h = owner-lock_global p t m s h
    owner-initiate_lock exclusive s ne h = owner-lock_global p t m s h
    owner-initiate_lock refcounted s ne h = owner-lock_global p t m s h

    owner-convert_found :
        (mode : LockMode) (id i : ℕ) (s : Os K)
        → mode ≢ unlocked
        → owner s t ≡ self_owner p
        → let (r, s') = convert_found p mode t id i s in owner s' t ≡ keeper mode r
    unfolding convert_found
    owner-convert_found unlocked id i s ne h = absurd (ne refl)
    owner-convert_found refcounted id i s ne h =
        owner-convert_lock p t m refcounted id (entry t i) s ne h
    owner-convert_found global id i s ne h =
        ground (arith, owner-convert_lock p t m global id (entry t i) s ne h)
    owner-convert_found exclusive id i s ne h =
        ground (arith, owner-convert_lock p t m exclusive id (entry t i) s ne h)

    owner-release_lock :
        (mode : LockMode) (s : Os K)
        → mode ≢ unlocked
        → owner s t ≡ self_owner p
        → owner (release_lock p mode t s) t ≡ 0
    unfolding release_lock
    owner-release_lock unlocked s ne h = absurd (ne refl)
    owner-release_lock global s ne h = owner-unlock_global p t m s h
    owner-release_lock exclusive s ne h = owner-unlock_global p t m s h
    owner-release_lock refcounted s ne h = owner-unlock_global p t m s h

    keeper-fail : (mode : LockMode) (c : ℤ) → keeper {A = ℕ} mode (fail c) ≡ 0
    keeper-fail unlocked c = refl
    keeper-fail global c = refl
    keeper-fail exclusive c = refl
    keeper-fail refcounted c = refl

    -- If the mutex of the type works, a search by match function begun with the table free, in a
    -- mode other than NONE, leaves it held by this task exactly if it succeeds in the mode GLOBAL
    -- or EXCLUSIVE.
    pub owner-get_by_search :
        (mode : LockMode) (match : Match) (s : Os K)
        → mode ≢ unlocked
        → owner s t ≡ 0
        → let (r, s') = get_by_search p mode t match s in owner s' t ≡ keeper mode r
    unfolding get_by_search
    owner-get_by_search mode match s ne h =
        let s' = initiate_lock p mode t s in
        let held = owner-initiate_lock mode s ne h in
        elim (Option-cases (search t match s')) [
          | inl e ↦
              ground (
                arith,
                e,
                owner-release_lock mode s' ne held,
                keeper-fail mode os_err_name_not_found,
              )
          | inr (i, e) ↦ ground (
            arith,
            e,
            owner-convert_found mode (s'.common_table (entry t i)).active_id i s' ne held,
          )
        ]

    -- If the mutex of the type works, a search by ID begun with the table free, in a mode other
    -- than NONE, leaves it held by this task exactly if it succeeds in the mode GLOBAL or
    -- EXCLUSIVE.
    pub owner-get_by_id :
        (mode : LockMode) (id : ℕ) (s : Os K)
        → mode ≢ unlocked
        → owner s t ≡ 0
        → let (r, s') = get_by_id p mode t id s in owner s' t ≡ keeper mode r
    unfolding get_by_id
    owner-get_by_id mode id s ne h = elim (Result-cases (to_array_index t id)) [
      | inl (i, e) ↦ ground (
        arith,
        e,
        owner-convert_found mode id i (initiate_lock p mode t s) ne
            (owner-initiate_lock mode s ne h),
        keeper-fail mode os_error,
        keeper-fail mode os_err_incorrect_obj_state,
      )
      | inr (c, e) ↦ ground (
        arith,
        e,
        keeper-fail mode c,
        keeper-fail mode os_error,
        keeper-fail mode os_err_incorrect_obj_state,
      )
    ]

    owner-export_id :
        (r : Result ℕ × Os K) → owner r.1 t ≡ keeper global r.0 → owner (export_id p t r).1 t ≡ 0
    unfolding export_id
    owner-export_id (ok i, s) h = owner-unlock_global p t m s h
    owner-export_id (fail c, s) h = h

    pub owner-find_by_name :
        (name : Option Text) (s : Os K) → owner s t ≡ 0 → owner (find_by_name p t name s).1 t ≡ 0
    unfolding find_by_name get_by_name
    owner-find_by_name none s h = h
    owner-find_by_name (some name) s h =
        let r = get_by_search p global t (object_name_match name) s in
        let held = owner-get_by_search global (object_name_match name) s (λ e. cc) h in
        ground (arith, owner-export_id r held)

    owner-fill_name :
        (size : ℕ) (r : Result ℕ × Os K)
        → owner r.1 t ≡ keeper global r.0
        → owner (fill_name p size t r).2 t ≡ 0
    unfolding fill_name
    owner-fill_name size (ok i, s) h = owner-unlock_global p t m s h
    owner-fill_name size (fail c, s) h = h

    pub owner-get_resource_name :
        (id : ℕ) (buffer : Option ℕ) (s : Os K)
        → to_type id ≡ t
        → owner s t ≡ 0
        → owner (get_resource_name p id buffer s).2 t ≡ 0
    unfolding get_resource_name
    owner-get_resource_name id none s e h = h
    owner-get_resource_name id (some size) s e h =
        let r = get_by_id p global t id s in
        let held = owner-get_by_id global id s (λ q. cc) h in
        ground (arith, owner-fill_name size r held)

    owner-drop_reference : (e : ℕ) (s : Os K) → owner (drop_reference p e s).1 t ≡ owner s t
    unfolding drop_reference
    owner-drop_reference e s = ground arith

    pub owner-refcount_decr :
        (e : ℕ) (s : Os K)
        → to_type (s.common_table e).active_id ≡ t
        → owner s t ≡ 0
        → owner (refcount_decr p e s).1 t ≡ 0
    unfolding refcount_decr
    owner-refcount_decr e s q h =
        let s' = lock_global p t s in
        ground (
          arith,
          owner-lock_global p t m s h,
          owner-drop_reference e s',
          owner-unlock_global p t m (drop_reference p e s').1,
        )
