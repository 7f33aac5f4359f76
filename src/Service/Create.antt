-- ===== src/Service/Create.antt =====
-- The create calls of the services, from their results.
pub mod RoundTrip
pub mod Failure
pub mod Consistent
use hello_world_osal.Base.{
  ℕ, ◌+◌, ◌≤◌, ◌<◌, ◌≡◌, ◌≢◌, ◌⊎◌, inl, inr, refl, sym, ap, ◌∙◌, subst, arith, ℤ, Bool, true, false,
  ◌&&◌, Option, none, some, Text, is_success, os_success, os_err_invalid_id, length, if◌then◌else◌,
  eq_success, Bool-cases, str_eq, str_eq_refl,
}
use hello_world_osal.Idmap.ObjectType
use hello_world_osal.Idmap.Id.{
  Result, ok, fail, entry, get_max_for_object_type, to_type, to_array_index, is_defined,
}
use hello_world_osal.Idmap.Id.Layout.{get_max_pos→type, entry_injective}
use hello_world_osal.Idmap.State.{Os, Port, CommonRecord, shutdown_magic_number}
use hello_world_osal.Idmap.Invariant.{
  Fits, IsConsistent, replace-IsConsistent, to_array_index-Fits, Fits-pos,
}
use hello_world_osal.Idmap.Frame.{Same, Same-refl, Same-trans}
use hello_world_osal.Idmap.Alloc.{allocate_new, finalize_new}
use hello_world_osal.Idmap.Alloc.Allocated.{Allocated, NameIsFree, allocate_new-Allocated}
use hello_world_osal.Idmap.Alloc.Codes.{FailsBadly, allocate_new-FailsBadly}
use hello_world_osal.Idmap.Alloc.Settled.{vacated, IsTyped, finalize_new-ok, finalize_new-fail}
use hello_world_osal.Idmap.Lookup.{object_name_match, search, find_by_name, get_by_id}
use hello_world_osal.Idmap.Lookup.Search.{hits, search-only}
use hello_world_osal.Service.{run_locked, build, create}

-- A service's own writes give the object its name, and touch no other entry of the object table.
pub record Names {K : Type 0} (t : ℕ) (store : Text → ℕ → Os K → Os K) : Type 0 where
  pub named :
      (name : Text) (i : ℕ) (s : Os K)
      → (store name i s).common_table (entry t i)
        ≡ record (s.common_table (entry t i)) { name_entry = some name }
  pub others :
      (name : Text) (i : ℕ) (s : Os K) (e : ℕ)
      → e ≢ entry t i
      → (store name i s).common_table e ≡ s.common_table e
  pub owners : (name : Text) (i : ℕ) (s : Os K) → (store name i s).objtype_state ≡ s.objtype_state
  pub on : (name : Text) (i : ℕ) (s : Os K) → (store name i s).initialized ≡ s.initialized
  pub flag : (name : Text) (i : ℕ) (s : Os K) → (store name i s).shutdown_flag ≡ s.shutdown_flag

module _ {K : Type 0} (p : Port K) (t : ℕ) (store : Text → ℕ → Os K → Os K) (w : Names t store)
    (impl : ℕ → Os K → ℤ × K) where
  -- What a successful create call leaves behind.
  pub record Created (name : Text) (id : ℕ) (s s' : Os K) : Type 0 where
    pub index : ℕ
    pub in_range : index < get_max_for_object_type t
    pub was_free : (s.common_table (entry t index)).active_id ≡ 0
    pub fits : Fits t index id
    pub issued : (s'.common_table (entry t index)).active_id ≡ id
    pub named : (s'.common_table (entry t index)).name_entry ≡ some name
    pub others : (e : ℕ) → e ≢ entry t index → s'.common_table e ≡ s.common_table e
    pub on : s'.initialized ≡ true
    pub running : s'.shutdown_flag ≢ shutdown_magic_number

  pub IsTyped-named :
      (i : ℕ) (s : Os K)
      → i < get_max_for_object_type t
      → Fits t i (s.common_table (entry t i)).active_id
      → IsTyped (entry t i) s
  unfolding to_type
  IsTyped-named i s h f = omega (arith, get_max_pos→type t)

  built :
      (name : Text) (i : ℕ) (s s1 : Os K)
      → Allocated p t i s s1
      → let (code, out, s') = build p t (store name) impl (ok i, s1) in
        code ≡ os_success → (id : ℕ) × (out ≡ some id) × Created name id s s'
  unfolding build
  built name i s s1 a done =
      let e = entry t i in
      let s2 = store name i s1 in
      let s3 = (run_locked (impl i s2) s2).1 in
      let status = (impl i s2).0 in
      let same_id = ap (λ (r : CommonRecord). r.active_id) (w.named name i s1) in
      let fits = subst (Fits t i) (sym same_id) a.fits in
      elim (Bool-cases (is_success status)) [
        | inl fine ↦
            let (code, id, same) =
              finalize_new-ok p status e s3 fine (IsTyped-named i s3 a.in_range fits) in
            let at = λ (g : ℕ). ap (λ (c : ℕ → CommonRecord). c g) same.table in
            (
              (s1.common_table e).active_id,
              ap some (id ∙ same_id),
              record {
                index = i;
                in_range = a.in_range;
                was_free = a.was_free;
                fits = a.fits;
                issued = ap (λ (r : CommonRecord). r.active_id) (at e ∙ w.named name i s1);
                named = ap (λ (r : CommonRecord). r.name_entry) (at e ∙ w.named name i s1);
                others = λ g ne. at g ∙ w.others name i s1 g ne ∙ a.others g ne;
                on = same.on ∙ w.on name i s1 ∙ a.on;
                running =
                    subst (λ f. f ≢ shutdown_magic_number) (sym (same.flag ∙ w.flag name i s1))
                      a.running;
              },
            )
        | inr bad ↦
            let (code, _, _) = finalize_new-fail p status e s3 bad in
            absurd (ground (arith, code, done, bad))
      ]

  -- A create call that returns OS_SUCCESS hands out an ID of its type, in a place that was free, with
  -- the name given.
  pub create-Created :
      (name : Text) (s : Os K)
      → (create p t (store name) impl name s).0 ≡ os_success
      → let (code, out, s') = create p t (store name) impl name s in
        ((id : ℕ) × (out ≡ some id) × Created name id s s') × NameIsFree p t (some name) s
  unfolding create build
  create-Created name s done =
      outcome (allocate_new p t (some name) s) refl (allocate_new-FailsBadly p t (some name) s) done
    where
      outcome :
          (r : Result ℕ × Os K)
          → allocate_new p t (some name) s ≡ r
          → FailsBadly r
          → let (code, out, s') = build p t (store name) impl r in
            code ≡ os_success
            → ((id : ℕ) × (out ≡ some id) × Created name id s s') × NameIsFree p t (some name) s
      outcome (ok i, s1) e bad q =
          let (a, free) = allocate_new-Allocated p t (some name) i s s1 e in
          (built name i s s1 a q, free)
      outcome (fail c, s1) e bad q = absurd (ground (arith, bad, q))
