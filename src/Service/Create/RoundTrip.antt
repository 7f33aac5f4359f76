-- ===== src/Service/Create/RoundTrip.antt =====
-- Looking up an object after a create call.
use hello_world_osal.Base.{
  ℕ, ◌<◌, ◌≡◌, ◌≢◌, refl, ap, ◌∙◌, arith, ℤ, true, false, ◌&&◌, some, Text, os_success, length,
  str_eq_refl,
}
use hello_world_osal.Idmap.Id.{ok, entry, get_max_for_object_type, is_defined}
use hello_world_osal.Idmap.Id.Layout.{entry_injective}
use hello_world_osal.Idmap.State.{Os, Port, CommonRecord}
use hello_world_osal.Idmap.Invariant.{to_array_index-Fits, Fits-pos}
use hello_world_osal.Idmap.Frame.{Same, lock_global-Same}
use hello_world_osal.Idmap.Alloc.Allocated.{NameIsFree}
use hello_world_osal.Idmap.Lock.{
  global, lock_global, initiate_lock, try_lock, try_mode, convert_loop, clear_bits, finish_convert,
  convert_lock,
}
use hello_world_osal.Idmap.Lookup.{
  max_api_name, object_name_match, convert_found, get_by_search, get_by_name, export_id,
  find_by_name, get_by_id,
}
use hello_world_osal.Idmap.Lookup.Search.{hits, search-only}
use hello_world_osal.Service.{create, get_id_by_name}
use hello_world_osal.Service.Create.{Names, Created, create-Created}

module _ {K : Type 0} (p : Port K) (t : ℕ) where
  -- In the mode GLOBAL the object is granted at once if the ID is right.
  pub convert_found-global :
      (i : ℕ) (s : Os K) (id : ℕ)
      → (s.common_table (entry t i)).active_id ≡ id
      → convert_found p global t id i s ≡ (ok i, clear_bits p (entry t i) 0 s)
  unfolding convert_found convert_lock convert_loop try_lock try_mode finish_convert
  convert_found-global i s id h = ground arith

  pub active-clear_bits :
      (e g bits : ℕ) (s : Os K)
      → ((clear_bits p e bits s).common_table g).active_id ≡ (s.common_table g).active_id
  unfolding clear_bits
  active-clear_bits e g bits s = ground arith

module _ {K : Type 0} (p : Port K) (t : ℕ) (store : Text → ℕ → Os K → Os K) (w : Names t store)
    (impl : ℕ → Os K → ℤ × K) (name : Text) (id : ℕ) (s s' : Os K)
    (d : Created p t store w impl name id s s') where
  locked-active : ((lock_global p t s').common_table (entry t d.index)).active_id ≡ id
  locked-active =
      ap (λ (c : ℕ → CommonRecord). (c (entry t d.index)).active_id) (lock_global-Same p t s').table
      ∙ d.issued

  -- After a successful create call OS_ObjectIdGetById finds the object by the ID handed out, in
  -- its place.
  pub get_by_id-Created : (get_by_id p global t id s').0 ≡ ok d.index
  unfolding get_by_id initiate_lock
  get_by_id-Created = ground (
    arith,
    d.on,
    d.running,
    (to_array_index-Fits t d.index id d.in_range d.fits).0,
    convert_found-global p t d.index (lock_global p t s') id locked-active,
  )

  table-Same : (s0 : Os K) → Same s' s0 → (e : ℕ) → s0.common_table e ≡ s'.common_table e
  table-Same s0 locked e = ap (λ (c : ℕ → CommonRecord). c e) locked.table

  hits-Created : (s0 : Os K) → Same s' s0 → hits t (object_name_match name) s0 d.index ≡ true
  unfolding object_name_match
  hits-Created s0 locked =
      let here = table-Same s0 locked (entry t d.index) in
      ground (
        arith,
        ap (λ (r : CommonRecord). r.active_id) here ∙ d.issued,
        ap (λ (r : CommonRecord). r.name_entry) here ∙ d.named,
        Fits-pos t d.index id d.in_range d.fits,
        str_eq_refl name,
      )

  misses-Created :
      NameIsFree p t (some name) s
      → (s0 : Os K) → Same s' s0
      → (j : ℕ) → j < get_max_for_object_type t
      → j ≢ d.index
      → hits t (object_name_match name) s0 j ≡ false
  misses-Created free s0 locked j h ne =
      let apart =
        λ (q : entry t j ≡ entry t d.index). ne (entry_injective t t j d.index h d.in_range q).1 in
      ap (λ (r : CommonRecord). is_defined r.active_id && object_name_match name j r)
        (table-Same s0 locked (entry t j) ∙ d.others (entry t j) apart)
      ∙ free name j refl h

  -- OS_ObjectIdFindByName finds the ID of a new object by its name.
  pub find_by_name-Created :
      NameIsFree p t (some name) s
      → length name < max_api_name
      → (find_by_name p t (some name) s').0 ≡ ok id
  unfolding find_by_name get_by_name get_by_search initiate_lock export_id
  find_by_name-Created free short =
      let s0 = lock_global p t s' in
      let locked = lock_global-Same p t s' in
      ground (
        arith,
        search-only t (object_name_match name) s0 d.index d.in_range (hits-Created s0 locked)
            (misses-Created free s0 locked),
        convert_found-global p t d.index s0 (s0.common_table (entry t d.index)).active_id refl,
        active-clear_bits p t (entry t d.index) (entry t d.index) 0 s0,
        locked-active,
      )

module _ {K : Type 0} (p : Port K) (t : ℕ) (store : Text → ℕ → Os K → Os K) (w : Names t store)
    (impl : ℕ → Os K → ℤ × K) where
  -- After a create call of a service that returned OS_SUCCESS, for a name that is short enough, a
  -- search for the name returns OS_SUCCESS and the ID that the create call handed out, for every
  -- service whose writes set the name.
  pub create-get_id_by_name :
      (name : Text) (s : Os K)
      → length name < max_api_name
      → (create p t (store name) impl name s).0 ≡ os_success
      → let (code, out, s') = create p t (store name) impl name s in
        ((id : ℕ) × (out ≡ some id))
        × (let (code', out', _) = get_id_by_name p t true (some name) s' in
            (code' ≡ os_success) × (out' ≡ out))
  unfolding get_id_by_name
  create-get_id_by_name name s short done =
      let ((id, handed, d), free) = create-Created p t store w impl name s done in
      let s' = (create p t (store name) impl name s).2 in
      let found = find_by_name-Created p t store w impl name id s s' d free short in
      ((id, handed), ground (arith, found, handed))
