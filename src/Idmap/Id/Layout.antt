-- ===== src/Idmap/Id/Layout.antt =====
-- The parts of the common table that the types have.
use hello_world_osal.Base.{ℕ, ◌+◌, ◌^◌, ◌≤◌, ◌<◌, ◌≡◌, ◌≢◌, ◌∙◌, sym, ap, arith, ltb, if◌then◌else◌}
use hello_world_osal.Idmap.ObjectType
use hello_world_osal.Idmap.Id.{
  get_max_for_object_type, get_base_for_object_type, max_total_records, entry,
}

pub get_max_bounds :
    (t : ℕ)
    → (get_max_for_object_type t ≤ 64)
      × (get_base_for_object_type t + get_max_for_object_type t ≤ max_total_records)
unfolding get_max_for_object_type get_base_for_object_type
get_max_bounds t = ground arith

pub get_max_pos→type : (t : ℕ) → get_max_for_object_type t ≢ 0 → (0 < t) × (t ≤ 12)
unfolding get_max_for_object_type
get_max_pos→type t h = ground arith

pub entry-eq : (t i : ℕ) → i < 2 ^ 31 → entry t i ≡ i + get_base_for_object_type t
entry-eq t i h = omega (arith, get_max_bounds t)

-- The type whose part an entry lies in.
type_of_entry : ℕ → ℕ
type_of_entry e =
    if ltb e 64
    then ObjectType.task
    else if ltb e 128
    then ObjectType.queue
    else if ltb e 148
    then ObjectType.binsem
    else if ltb e 168
    then ObjectType.countsem
    else if ltb e 188
    then ObjectType.mutex
    else if ltb e 238
    then ObjectType.stream
    else if ltb e 242
    then ObjectType.dir
    else if ltb e 247
    then ObjectType.timebase
    else if ltb e 257
    then ObjectType.timecb
    else if ltb e 277
    then ObjectType.modules
    else if ltb e 291
    then ObjectType.filesys
    else ObjectType.console

type_of_entry-entry : (t i : ℕ) → i < get_max_for_object_type t → type_of_entry (entry t i) ≡ t
unfolding type_of_entry get_max_for_object_type get_base_for_object_type
type_of_entry-entry t i h = ground arith

-- Two objects whose indices are in the range of their types never share an entry of the common
-- table.
pub entry_injective :
    (t u i j : ℕ)
    → i < get_max_for_object_type t
    → j < get_max_for_object_type u
    → entry t i ≡ entry u j
    → (t ≡ u) × (i ≡ j)
entry_injective t u i j hi hj e = (
  same,
  omega (
    arith,
    get_max_bounds t,
    get_max_bounds u,
    entry-eq t i,
    entry-eq u j,
    ap get_base_for_object_type same,
  ),
)
  where
    same : t ≡ u
    same = sym (type_of_entry-entry t i hi) ∙ ap type_of_entry e ∙ type_of_entry-entry u j hj

pub entry-lt : (t i : ℕ) → i < get_max_for_object_type t → entry t i < max_total_records
entry-lt t i h = omega (arith, get_max_bounds t)
