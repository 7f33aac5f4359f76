-- ===== src/Idmap/Alloc/Issue.antt =====
-- OS_ObjectIdFindNext: when it issues an ID, and which.
use mathlib.Core.Path.{ap₂}
use hello_world_osal.Base.{
  ℕ, ◌%◌, ◌^◌, ◌<◌, ◌≡◌, ◌≢◌, inl, inr, refl, sym, ap, ◌∙◌, arith, Option, none, some, Option-cases,
  os_err_no_free_ids, subst,
}
use hello_world_osal.Idmap.Id.{
  Result, ok, fail, object_index_mask, get_max_for_object_type, entry, to_type, to_serial_number,
  to_array_index, compose,
}
use hello_world_osal.Idmap.Id.Codec.{compose-eq, to_serial_number-eq}
use hello_world_osal.Idmap.Id.Layout.{get_max_pos→type, get_max_bounds}
use hello_world_osal.Idmap.State.{Os, Port, CommonRecord}
use hello_world_osal.Idmap.Invariant.{
  Fits, IsConsistent, to_array_index-Fits, Fits-pos, Fits-unique, replace-IsConsistent,
}
use hello_world_osal.Idmap.Alloc.{find_free, claim, find_next}
use hello_world_osal.Idmap.Alloc.FreeSlot.{find_free-some, find_free-none_all}

compose-Fits :
    (t i n : ℕ)
    → i < get_max_for_object_type t
    → n < object_index_mask
    → n % get_max_for_object_type t ≡ i
    → Fits t i (compose t n)
compose-Fits t i n h lt at =
    let small : t < 2 ^ 16 = omega (arith, get_max_pos→type t) in
    let packed = compose-eq t n small (omega arith) in
    let serial : compose t n % 2 ^ 16 ≡ n = omega arith in
    record {
      kind = omega arith;
      serial = omega arith;
      place = ap (λ (k : ℕ). k % get_max_for_object_type t) serial ∙ at;
    }

module _ {K : Type 0} (p : Port K) (t : ℕ) where
  abbrev start : Os K → ℕ
  start s = to_serial_number (s.objtype_state t).last_id_issued

  start-lt : (s : Os K) → start s < 2 ^ 16
  start-lt s = omega (arith, to_serial_number-eq (s.objtype_state t).last_id_issued)

  -- The record that OS_ObjectIdFindNext leaves in the place that it claims: a new ID, no name, no
  -- references.
  pub record IsNew (n i : ℕ) (s s' : Os K) : Type 0 where
    pub id : (s'.common_table (entry t i)).active_id ≡ compose t n
    pub unnamed : (s'.common_table (entry t i)).name_entry ≡ none
    pub unreferenced : (s'.common_table (entry t i)).refcount ≡ 0
    pub others : (e : ℕ) → e ≢ entry t i → s'.common_table e ≡ s.common_table e
    pub rest : s' ≡ record s { common_table = s'.common_table }

  claim-IsNew : (n i : ℕ) (s : Os K) → IsNew n i s (claim p t n i s)
  unfolding claim
  claim-IsNew n i s = record {
    id = ground arith;
    unnamed = ground arith;
    unreferenced = ground arith;
    others = λ e ne. ground arith;
    rest = refl;
  }

  -- What OS_ObjectIdFindNext did, when it succeeded.
  pub record Issued (i : ℕ) (s s' : Os K) : Type 0 where
    pub serial : ℕ
    pub small : serial < object_index_mask
    pub in_range : i < get_max_for_object_type t
    pub belongs : serial % get_max_for_object_type t ≡ i
    pub was_free : (s.common_table (entry t i)).active_id ≡ 0
    pub new : IsNew serial i s s'

  abbrev Outcome : Os K → Result ℕ × Os K → Type 0
  Outcome s (ok i, s') = Issued i s s'
  Outcome s (fail c, s') = Unit {0}

  abbrev search_all : Os K → Option (ℕ × ℕ)
  search_all s = find_free (get_max_for_object_type t) t (get_max_for_object_type t) (start s) s

  claim-Issued :
      (n i : ℕ) (s : Os K)
      → 0 < get_max_for_object_type t
      → search_all s ≡ some (n, i)
      → Issued i s (claim p t n i s)
  claim-Issued n i s pos q =
      let max_id = get_max_for_object_type t in
      let found =
        find_free-some max_id pos (get_max_bounds t).0 t s max_id (start s) n i (start-lt s) q in
      record {
        serial = n;
        small = found.1;
        in_range = found.0;
        belongs = found.2;
        was_free = found.3;
        new = claim-IsNew n i s;
      }

  pub find_next-Issued : (i : ℕ) (s s' : Os K) → find_next p t s ≡ (ok i, s') → Issued i s s'
  unfolding find_next
  find_next-Issued i s s' e = elim (Option-cases (search_all s)) [
    | inl q ↦ absurd (ground (arith, q))
    | inr (found, q) ↦
        let same : find_next p t s ≡ (ok found.1, claim p t found.0 found.1 s) =
          ground (arith, q) in
        subst (Outcome s) (sym same ∙ e) (claim-Issued found.0 found.1 s (ground (arith, e)) q)
  ]

  -- If every place of a type is in use, OS_ObjectIdFindNext returns OS_ERR_NO_FREE_IDS and changes
  -- nothing.
  pub find_next-full :
      (s : Os K)
      → get_max_for_object_type t ≢ 0
      → ((i : ℕ) → i < get_max_for_object_type t → (s.common_table (entry t i)).active_id ≢ 0)
      → find_next p t s ≡ (fail os_err_no_free_ids, s)
  unfolding find_next
  find_next-full s pos taken = elim (Option-cases (search_all s)) [
    | inl q ↦ ground (arith, q)
    | inr ((n, j), q) ↦
        let max_id = get_max_for_object_type t in
        let found =
          find_free-some max_id (omega arith) (get_max_bounds t).0 t s max_id (start s) n j
            (start-lt s) q in
        absurd (taken j found.0 found.3)
  ]

  -- If some place of a type is free, OS_ObjectIdFindNext succeeds, wherever its search starts.
  pub find_next-free :
      (s : Os K) (i : ℕ)
      → i < get_max_for_object_type t
      → (s.common_table (entry t i)).active_id ≡ 0
      → (j : ℕ) × (s' : Os K) × (find_next p t s ≡ (ok j, s'))
  unfolding find_next
  find_next-free s i h free = elim (Option-cases (search_all s)) [
    | inl q ↦
        let max_id = get_max_for_object_type t in
        absurd (
          find_free-none_all max_id (omega arith) (get_max_bounds t).0 t s (start s) i (start-lt s)
            q h free)
    | inr ((n, j), q) ↦ (j, claim p t n j s, ground (arith, q))
  ]

  pub Issued-Fits :
      (i : ℕ) (s s' : Os K) → Issued i s s' → Fits t i (s'.common_table (entry t i)).active_id
  Issued-Fits i s s' d =
      subst (Fits t i) (sym d.new.id) (compose-Fits t i d.serial d.in_range d.small d.belongs)

  -- In a consistent table, an ID that OS_ObjectIdFindNext issues is of the type asked for, decodes
  -- to its place with its type or with any, is defined, and is unlike the ID in use at any place
  -- of any type's table.
  pub find_next-fresh :
      (i u j : ℕ) (s s' : Os K)
      → IsConsistent s
      → find_next p t s ≡ (ok i, s')
      → j < get_max_for_object_type u
      → let id = (s'.common_table (entry t i)).active_id in
        (to_type id ≡ t)
        × (to_array_index t id ≡ ok i)
        × (to_array_index 0 id ≡ ok i)
        × (id ≢ 0)
        × ((s.common_table (entry u j)).active_id ≢ id)
  unfolding to_type
  find_next-fresh i u j s s' c e lt = (f.kind, back.0, back.1, defined, unlike)
    where
      d : Issued i s s'
      d = find_next-Issued i s s' e

      id : ℕ
      id = (s'.common_table (entry t i)).active_id

      f : Fits t i id
      f = Issued-Fits i s s' d

      back : (to_array_index t id ≡ ok i) × (to_array_index 0 id ≡ ok i)
      back = to_array_index-Fits t i id d.in_range f

      defined : id ≢ 0
      defined = Fits-pos t i id d.in_range f

      unlike : (s.common_table (entry u j)).active_id ≢ id
      unlike q = elim (c.slots u j lt) [
        | inl unused ↦ defined (sym q ∙ unused)
        | inr g ↦
            let (ut, ji) = Fits-unique u t j i id (subst (Fits u j) q g) f in
            defined (sym q ∙ ap₂ (λ v k. (s.common_table (entry v k)).active_id) ut ji ∙ d.was_free)
      ]

  -- OS_ObjectIdFindNext keeps the object table consistent when it issues an ID.
  pub find_next-IsConsistent :
      (i : ℕ) (s s' : Os K) → IsConsistent s → find_next p t s ≡ (ok i, s') → IsConsistent s'
  find_next-IsConsistent i s s' c e =
      let d = find_next-Issued i s s' e in
      replace-IsConsistent t i s s' d.in_range c
        (λ g ne. ap (λ (r : CommonRecord). r.active_id) (d.new.others g ne))
        (inr (Issued-Fits i s s' d))
