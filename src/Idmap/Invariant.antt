-- ===== src/Idmap/Invariant.antt =====
-- The invariant of the object table: every ID in use stands in the place that it decodes to.
use native.Mathlib.Nat.{mod-lt}
use native.Mathlib.Decide.{ℕ_discrete}
use mathlib.Core.Path.{subst₂}
use hello_world_osal.Base.{
  ℕ, ◌/◌, ◌%◌, ◌^◌, ◌<◌, ◌≡◌, ◌≢◌, ◌⊎◌, inl, refl, sym, ap, subst, ◌∙◌, arith,
}
use hello_world_osal.Idmap.Id.{
  object_index_mask, get_max_for_object_type, entry, to_type, to_array_index, ok,
}
use hello_world_osal.Idmap.Id.Codec.{to_serial_number-eq}
use hello_world_osal.Idmap.Id.Layout.{get_max_pos→type, entry_injective}
use hello_world_osal.Idmap.State.{Os, object_id_init}

-- `id` is an ID of type `t` that belongs in place `i`.
pub record Fits (t i id : ℕ) : Type 0 where
  pub kind : id / 2 ^ 16 ≡ t
  pub serial : id % 2 ^ 16 < object_index_mask
  pub place : id % 2 ^ 16 % get_max_for_object_type t ≡ i

abbrev pub SlotOk : ℕ → ℕ → ℕ → Type 0
SlotOk t i id = (id ≡ 0) ⊎ Fits t i id

pub record IsConsistent {K : Type 0} (s : Os K) : Type 0 where
  pub slots :
      (t i : ℕ) → i < get_max_for_object_type t → SlotOk t i (s.common_table (entry t i)).active_id

-- An ID that fits a place is converted to it, asked for with its type or with any.
pub to_array_index-Fits :
    (t i id : ℕ)
    → i < get_max_for_object_type t
    → Fits t i id
    → (to_array_index t id ≡ ok i) × (to_array_index 0 id ≡ ok i)
unfolding to_array_index to_type
to_array_index-Fits t i id h f = ground (arith, to_serial_number-eq id, f.kind, f.place)

pub to_array_index-ok :
    (t i id : ℕ)
    → to_array_index t id ≡ ok i
    → t ≢ 0
    → (id / 2 ^ 16 ≡ t)
      × (i < get_max_for_object_type t)
      × (id % 2 ^ 16 % get_max_for_object_type t ≡ i)
unfolding to_array_index to_type
to_array_index-ok t i id e h = grind (arith, to_serial_number-eq id, mod-lt)

pub Fits-pos : (t i id : ℕ) → i < get_max_for_object_type t → Fits t i id → id ≢ 0
Fits-pos t i id h f = omega (arith, get_max_pos→type t, f.kind)

-- An ID belongs in one place only.
pub Fits-unique : (t u i j id : ℕ) → Fits t i id → Fits u j id → (t ≡ u) × (i ≡ j)
Fits-unique t u i j id f g =
    (same, sym f.place ∙ ap (λ k. id % 2 ^ 16 % get_max_for_object_type k) same ∙ g.place)
  where
    same : t ≡ u
    same = sym f.kind ∙ g.kind

-- OS_ObjectIdInit brings the table into a consistent state.
pub object_id_init-IsConsistent : {K : Type 0} (s : Os K) → IsConsistent (object_id_init s)
unfolding object_id_init
object_id_init-IsConsistent s = record { slots = λ t i h. inl refl }

-- A change of one place keeps the table consistent if the ID that it puts there belongs there.
pub replace-IsConsistent :
    {K : Type 0} (t i : ℕ) (s s' : Os K)
    → i < get_max_for_object_type t
    → IsConsistent s
    → ((e : ℕ) → e ≢ entry t i → (s'.common_table e).active_id ≡ (s.common_table e).active_id)
    → SlotOk t i (s'.common_table (entry t i)).active_id
    → IsConsistent s'
replace-IsConsistent t i s s' h c others here = record { slots = at }
  where
    at :
        (u j : ℕ)
        → j < get_max_for_object_type u
        → SlotOk u j (s'.common_table (entry u j)).active_id
    at u j lt = elim (ℕ_discrete (entry u j) (entry t i)) [
      | yes q ↦
          let (ut, ji) = entry_injective u t j i lt h q in
          subst₂ (λ v k. SlotOk v k (s'.common_table (entry v k)).active_id) (sym ut) (sym ji) here
      | no ne ↦ subst (SlotOk u j) (sym (others (entry u j) ne)) (c.slots u j lt)
    ]
