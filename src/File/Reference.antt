-- ===== src/File/Reference.antt =====
-- What is done under a reference to a stream, while no other task runs (osapi-idmap.c, osapi-file.c).
use hello_world_osal.Base.{
  ℕ, ◌+◌, ◌%◌, ◌^◌, ◌<◌, ◌≡◌, ◌≢◌, refl, ap, ◌∙◌, arith, ℤ, true, update, os_success,
}
use hello_world_osal.Idmap.ObjectType
use hello_world_osal.Idmap.Id.{Result, ok, entry, to_type, to_array_index}
use hello_world_osal.Idmap.State.{Os, Port, CommonRecord, ObjtypeState, shutdown_magic_number}
use hello_world_osal.Idmap.Lock.{
  refcounted, lock_global, unlock_global, initiate_lock, convert_loop, try_lock, try_mode,
  try_refcount, clear_bits, finish_convert, convert_lock,
}
use hello_world_osal.Idmap.Lookup.{convert_found, get_by_id, drop_reference, refcount_decr}
use hello_world_osal.File.{on_reference}

-- One reference more on entry `e`.
abbrev pub referred : ℕ → (ℕ → CommonRecord) → ℕ → CommonRecord
referred e table =
    update table e (record (table e) { refcount = ((table e).refcount + 1) % 2 ^ 16 })

module _ {K : Type 0} (p : Port K) where
  pub lock_global-only :
      (t : ℕ) (s : Os K)
      → lock_global p t s ≡ record s { objtype_state = (lock_global p t s).objtype_state }
  unfolding lock_global
  lock_global-only t s = ground arith

  pub unlock_global-only :
      (t : ℕ) (s : Os K)
      → unlock_global p t s ≡ record s { objtype_state = (unlock_global p t s).objtype_state }
  unfolding unlock_global
  unlock_global-only t s = ground arith

  convert_loop-refer :
      (t id e : ℕ) (s : Os K)
      → (s.common_table e).active_id ≡ id
      → (s.common_table e).flags ≡ 0
      → convert_loop p 5 refcounted t id e 0 0 s
        ≡ (os_success, 0, record s { common_table = referred e s.common_table })
  unfolding convert_loop try_lock try_mode try_refcount
  convert_loop-refer t id e s live clear = ground arith

  pub clear_bits-none : (e : ℕ) (s : Os K) → (s.common_table e).flags ≡ 0 → clear_bits p e 0 s ≡ s
  unfolding clear_bits
  clear_bits-none e s clear = ground arith

  -- The stream `i` has this ID, no exclusive request waits for it, and there is room for a reference.
  pub record IsUsable (id i : ℕ) (s : Os K) : Type 0 where
    pub on : s.initialized ≡ true
    pub running : s.shutdown_flag ≢ shutdown_magic_number
    pub place : to_array_index ObjectType.stream id ≡ ok i
    pub live : (s.common_table (entry ObjectType.stream i)).active_id ≡ id
    pub clear : (s.common_table (entry ObjectType.stream i)).flags ≡ 0
    pub few : (s.common_table (entry ObjectType.stream i)).refcount < 65535

  place→type :
      (id i : ℕ) → to_array_index ObjectType.stream id ≡ ok i → to_type id ≡ ObjectType.stream
  unfolding to_array_index
  place→type id i h = ground (arith, h)

  type-zero : to_type 0 ≡ 0
  unfolding to_type
  type-zero = refl

  -- `s` with one reference more on the stream, and other owners of the tables.
  abbrev pub held : ℕ → Os K → (ℕ → ObjtypeState) → Os K
  held i s o = record s {
    common_table = referred (entry ObjectType.stream i) s.common_table;
    objtype_state = o;
  }

  convert_lock-refer :
      (t id e : ℕ) (s : Os K)
      → (s.common_table e).active_id ≡ id
      → (s.common_table e).flags ≡ 0
      → convert_lock p refcounted t id e s
        ≡ (os_success, unlock_global p t (record s { common_table = referred e s.common_table }))
  unfolding convert_lock finish_convert
  convert_lock-refer t id e s live clear =
      ap (λ (r : ℤ × ℕ × Os K). finish_convert p refcounted t e r)
        (convert_loop-refer t id e s live clear)
      ∙ ap (λ (s' : Os K). (os_success, unlock_global p t s'))
          (clear_bits-none e (record s { common_table = referred e s.common_table })
            (ground (arith, clear)))

  pub get_by_id-held :
      (id i : ℕ) (s : Os K)
      → IsUsable id i s
      → (o : ℕ → ObjtypeState) × (get_by_id p refcounted ObjectType.stream id s
          ≡ (ok i, held i s o))
  unfolding get_by_id convert_found initiate_lock
  get_by_id-held id i s u =
      let t = ObjectType.stream in
      let e = entry t i in
      let s1 = lock_global p t s in
      let table : s1.common_table ≡ s.common_table =
        ap (λ (q : Os K). q.common_table) (lock_global-only t s) in
      let granted =
        convert_lock-refer t id e s1 (ap (λ (c : ℕ → CommonRecord). (c e).active_id) table ∙ u.live)
          (ap (λ (c : ℕ → CommonRecord). (c e).flags) table ∙ u.clear) in
      let s2 = record s1 { common_table = referred e s1.common_table } in
      let o = (unlock_global p t s2).objtype_state in
      let end : unlock_global p t s2 ≡ held i s o =
        unlock_global-only t s2
        ∙ ap
            (λ (q : Os K). record q { common_table = referred e q.common_table; objtype_state = o })
            (lock_global-only t s) in
      (o, ground (arith, u.on, u.running, u.place, granted, end))

  drop_reference-referred :
      (e : ℕ) (s s2 : Os K)
      → s2.common_table ≡ referred e s.common_table
      → (s.common_table e).refcount < 65535
      → drop_reference p e s2 ≡ (os_success, record s2 { common_table = s.common_table })
  unfolding drop_reference
  drop_reference-referred e s s2 same few = rw same (ground (arith, few))

  refcount_decr-eq :
      (e id : ℕ) (s : Os K)
      → (s.common_table e).active_id ≡ id
      → to_type id ≢ 0
      → id ≢ 0
      → (refcount_decr p e s).1
        ≡ unlock_global p (to_type id) (drop_reference p e (lock_global p (to_type id) s)).1
  unfolding refcount_decr
  refcount_decr-eq e id s live typed pos_id = ground (arith, live)

  pub refcount_decr-table :
      (id i : ℕ) (s q : Os K)
      → IsUsable id i s
      → q.common_table ≡ referred (entry ObjectType.stream i) s.common_table
      → (refcount_decr p (entry ObjectType.stream i) q).1.common_table ≡ s.common_table
  refcount_decr-table id i s q u same =
      let e = entry ObjectType.stream i in
      let t = to_type id in
      let some_type : to_type id ≢ 0 = omega (arith, place→type id i u.place) in
      let q1 = lock_global p t q in
      let table : q1.common_table ≡ referred e s.common_table =
        ap (λ (x : Os K). x.common_table) (lock_global-only t q) ∙ same in
      let here : (q.common_table e).active_id ≡ id =
        ap (λ (c : ℕ → CommonRecord). (c e).active_id) same ∙ ground (arith, u.live) in
      ap (λ (x : Os K). x.common_table)
        (refcount_decr-eq e id q here some_type (λ z. some_type (ap to_type z ∙ type-zero))
          ∙ ap (λ (r : ℤ × Os K). unlock_global p t r.1)
              (drop_reference-referred e s q1 table u.few)
          ∙ unlock_global-only t (record q1 { common_table = s.common_table }))

  pub IsUsable-pos : (id i : ℕ) (s : Os K) → IsUsable id i s → id ≢ 0
  IsUsable-pos id i s u z =
      let typed : to_type id ≡ ObjectType.stream = place→type id i u.place in
      omega (arith, typed, ap to_type z, type-zero)

  refcount_decr-held :
      (id i : ℕ) (s : Os K) (o : ℕ → ObjtypeState) (k : K)
      → IsUsable id i s
      → (o' : ℕ → ObjtypeState) × ((refcount_decr p
            (entry ObjectType.stream i)
            (record (held i s o) { kernel = k })).1
          ≡ record s { kernel = k; objtype_state = o' })
  refcount_decr-held id i s o k u =
      let e = entry ObjectType.stream i in
      let s1 = record (held i s o) { kernel = k } in
      let t = to_type id in
      let typed = place→type id i u.place in
      let s2 = lock_global p t s1 in
      let table : s2.common_table ≡ referred e s.common_table =
        ap (λ (q : Os K). q.common_table) (lock_global-only t s1) in
      let dropped = drop_reference-referred e s s2 table u.few in
      let s3 = record s2 { common_table = s.common_table } in
      let o' = (unlock_global p t s3).objtype_state in
      let here : (s1.common_table e).active_id ≡ id = ground (arith, u.live) in
      let some_type : to_type id ≢ 0 = omega (arith, typed) in
      let some_id : id ≢ 0 = λ q. some_type (ap to_type q ∙ type-zero) in
      (
        o',
        refcount_decr-eq e id s1 here some_type some_id
            ∙ ap (λ (r : ℤ × Os K). unlock_global p t r.1) dropped
            ∙ unlock_global-only t s3
            ∙ ap (λ (q : Os K). record q { common_table = s.common_table; objtype_state = o' })
                (lock_global-only t s1),
      )

  -- What is done to the layer below under a reference is all that is done, but for the owners of the
  -- tables.
  pub on_reference-eq :
      {A : Type 0} (id i : ℕ) (s : Os K) (before after : A) (c : ℤ) (k : K)
      (action : ℕ → Os K → ℤ × A × Os K)
      → IsUsable id i s
      → ((q : Os K) → q.kernel ≡ s.kernel → action i q ≡ (c, after, record q { kernel = k }))
      → (o : ℕ → ObjtypeState) × (on_reference p before action
            (get_by_id p refcounted ObjectType.stream id s)
          ≡ (c, after, record s { kernel = k; objtype_state = o }))
  unfolding on_reference
  on_reference-eq {A} id i s before after c k action u acts =
      let (o, found) = get_by_id-held id i s u in
      let (o', given_back) = refcount_decr-held id i s o k u in
      (
        o',
        ap (λ (r : Result ℕ × Os K). on_reference p before action r) found
            ∙ ap
                (λ (r : ℤ × A × Os K).
                  (r.0, r.1, (refcount_decr p (entry ObjectType.stream i) r.2).1))
                (acts (held i s o) refl)
            ∙ ap (λ (q : Os K). (c, after, q)) given_back,
      )
