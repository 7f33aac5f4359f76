-- ===== src/Service/Delete.antt =====
-- The delete calls of the services, from their results.
use hello_world_osal.Base.{
  ℕ, ◌≡◌, ◌≢◌, inl, inr, refl, ap, arith, ℤ, true, false, is_success, Bool-cases, os_err_invalid_id,
}
use hello_world_osal.Idmap.Id.{Result, ok, fail, entry, to_array_index}
use hello_world_osal.Idmap.State.{Os, Port, CommonRecord, shutdown_magic_number}
use hello_world_osal.Idmap.Lock.{
  exclusive, unlocked, initiate_lock, convert_lock, convert_loop, try_lock, try_mode,
  finish_convert,
}
use hello_world_osal.Idmap.Lock.Waiting.{exclusive-Alone}
use hello_world_osal.Idmap.Lookup.{convert_found, get_by_id}
use hello_world_osal.Idmap.Lookup.Discipline.{Result-cases}
use hello_world_osal.Idmap.Alloc.Settled.{vacated, finalize_delete-ok, finalize_delete-fail}
use hello_world_osal.Service.{run_locked, tear_down, delete}

module _ {K : Type 0} (p : Port K) (t : ℕ) (impl : ℕ → Os K → ℤ × K) (id : ℕ) where
  -- The object was found at `index`, nobody referred to it, the layer below agreed, and its place is
  -- free.
  pub record Deleted (s' : Os K) : Type 0 where
    pub index : ℕ
    pub place : to_array_index t id ≡ ok index
    pub before : Os K
    pub stood : (before.common_table (entry t index)).active_id ≡ id
    pub unused : (before.common_table (entry t index)).refcount ≡ 0
    pub agreed : is_success (impl index before).0 ≡ true
    pub after : s'.common_table ≡ (vacated (entry t index) before).common_table

  get_by_id-exclusive :
      (i : ℕ) (s s1 : Os K)
      → get_by_id p exclusive t id s ≡ (ok i, s1)
      → (to_array_index t id ≡ ok i)
        × ((s1.common_table (entry t i)).active_id ≡ id)
        × ((s1.common_table (entry t i)).refcount ≡ 0)
  unfolding get_by_id convert_found
  get_by_id-exclusive i s s1 e = elim (Result-cases p (to_array_index t id)) [
    | inl (j, q) ↦
        let s0 = initiate_lock p exclusive t s in
        let alone = exclusive-Alone p t id (entry t j) s0 in ground (arith, e, q, alone)
    | inr (c, q) ↦ absurd (ground (arith, e, q))
  ]

  get_by_id-FailsBadly :
      (c : ℤ) (s : Os K) → (get_by_id p exclusive t id s).0 ≡ fail c → is_success c ≡ false
  unfolding get_by_id convert_found to_array_index
  get_by_id-FailsBadly c s e = ground arith

  -- A delete call of a service that returns OS_SUCCESS has found the object under its ID with no
  -- reference left, has deleted it in the layer below, and frees its place and no other.
  pub delete-Deleted :
      (s : Os K) → is_success (delete p t impl id s).0 ≡ true → Deleted (delete p t impl id s).1
  unfolding delete tear_down
  delete-Deleted s done = outcome (get_by_id p exclusive t id s) refl done
    where
      outcome :
          (r : Result ℕ × Os K)
          → get_by_id p exclusive t id s ≡ r
          → let (code, s') = tear_down p t impl r in is_success code ≡ true → Deleted s'
      outcome (ok i, s1) e q =
          let (place, stood, unused) = get_by_id-exclusive i s s1 e in
          let (status, s2) = run_locked (impl i s1) s1 in
          elim (Bool-cases (is_success status)) [
            | inl fine ↦
                let (code, same) = finalize_delete-ok p status (entry t i) s2 fine in
                record {
                  index = i;
                  place = place;
                  before = s1;
                  stood = stood;
                  unused = unused;
                  agreed = fine;
                  after = same.table;
                }
            | inr bad ↦
                let (code, same) = finalize_delete-fail p status (entry t i) s2 bad in
                absurd (ground (arith, code, q, bad))
          ]
      outcome (fail c, s1) e q =
          absurd (ground (arith, q, get_by_id-FailsBadly c s (ap (λ (r : Result ℕ × Os K). r.0) e)))

  -- After a successful delete call the ID is invalid for a lookup in the mode NONE, while the API
  -- runs.
  get_by_id-Deleted :
      (s' : Os K)
      → id ≢ 0
      → Deleted s'
      → s'.initialized ≡ true
      → s'.shutdown_flag ≢ shutdown_magic_number
      → (get_by_id p unlocked t id s').0 ≡ fail os_err_invalid_id
  unfolding get_by_id convert_found convert_lock convert_loop try_lock try_mode finish_convert
      initiate_lock
  get_by_id-Deleted s' pos d on running =
      let free = ap (λ (c : ℕ → CommonRecord). (c (entry t d.index)).active_id) d.after in
      ground (arith, d.place, free)
