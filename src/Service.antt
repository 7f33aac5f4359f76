-- ===== src/Service.antt =====
-- The services whose objects live in the object table: osapi-countsem.c, osapi-binsem.c,
-- osapi-mutex.c and osapi-queue.c of osal/src/os/shared/src. Here the sequences of calls that they
-- share; a service gives its own writes and the calls into the layer below.
pub mod CountSem
pub mod BinSem
pub mod Mutex
pub mod Queue
pub mod Create
pub mod Locks
pub mod Delete
pub mod InUse
pub mod Names
pub mod Calls
use mathlib.Core.Option
use hello_world_osal.Base.{
  ℕ, ℤ, Bool, true, false, not, ◌||◌, Option, none, some, Text, [], ◌-◌, leb, if◌then◌else◌, length,
  take, os_success, os_invalid_pointer,
}
use hello_world_osal.Idmap.Id.{Result, ok, fail, entry}
use hello_world_osal.Idmap.State.{Os, Port}
use hello_world_osal.Idmap.Lock.{unlocked, global, exclusive, unlock_global}
use hello_world_osal.Idmap.Lookup.{max_api_name, get_by_id, find_by_name}
use hello_world_osal.Idmap.Alloc.{allocate_new, finalize_new, finalize_delete}

-- The name and the creator of a `*_prop_t`, and the value that the layer below fills in. No name
-- stands for a NULL `name_entry`, which the code would read through.
pub record Prop : Type 0 where
  pub name : Option Text
  pub creator : ℕ
  pub value : ℕ

abbrev pub zero_prop : Prop
zero_prop = record { name = some []; creator = 0; value = 0 }

module _ {K : Type 0} where
  -- A call into the layer below under the table lock: its status, and its new state.
  abbrev pub run_locked : ℤ × K → Os K → ℤ × Os K
  run_locked (status, k) s = (status, record s { kernel = k })

module _ {K : Type 0} (p : Port K) (t : ℕ) where
  -- The end of a create call: from the allocated object on. What goes out through the ID's pointer
  -- comes second.
  unfoldable pub build :
      (ℕ → Os K → Os K) → (ℕ → Os K → ℤ × K) → Result ℕ × Os K → ℤ × Option ℕ × Os K
  build store impl (fail code, s) = (code, none, s)
  build store impl (ok i, s) =
      let s1 = store i s in
      let (status, s2) = run_locked (impl i s1) s1 in
      let (code, id, s3) = finalize_new p status (entry t i) s2 in (code, some id, s3)

  unfoldable pub create : (ℕ → Os K → Os K) → (ℕ → Os K → ℤ × K) → Text → Os K → ℤ × Option ℕ × Os K
  create store impl name s = build store impl (allocate_new p t (some name) s)

  unfoldable pub tear_down : (ℕ → Os K → ℤ × K) → Result ℕ × Os K → ℤ × Os K
  tear_down impl (fail code, s) = (code, s)
  tear_down impl (ok i, s) =
      let (status, s1) = run_locked (impl i s) s in finalize_delete p status (entry t i) s1

  -- An EXCLUSIVE lookup, the deletion below, and the return of the ID.
  unfoldable pub delete : (ℕ → Os K → ℤ × K) → ℕ → Os K → ℤ × Os K
  delete impl id s = tear_down impl (get_by_id p exclusive t id s)

  unfoldable pub call_found : (ℕ → Os K → ℤ × Os K) → Result ℕ × Os K → ℤ × Os K
  call_found action (fail code, s) = (code, s)
  call_found action (ok i, s) = action i s

  -- An operation on an object that is looked up without a lock.
  unfoldable pub operate : (ℕ → Os K → ℤ × Os K) → ℕ → Os K → ℤ × Os K
  operate action id s = call_found action (get_by_id p unlocked t id s)

  -- A NULL pointer for the ID is `false`, a NULL name `none`. What goes out is the ID.
  unfoldable pub get_id_by_name : Bool → Option Text → Os K → ℤ × Option ℕ × Os K
  get_id_by_name false name s = (os_invalid_pointer, none, s)
  get_id_by_name true none s = (os_invalid_pointer, none, s)
  get_id_by_name true (some name) s =
      let (r, s') = find_by_name p t (some name) s in
      elim r [ ok id ↦ (os_success, some id, s') | fail code ↦ (code, none, s') ]

  unfoldable pub describe : (ℕ → K → ℤ × ℕ) → Result ℕ × Os K → ℤ × Prop × Os K
  describe impl (fail code, s) = (code, zero_prop, s)
  describe impl (ok i, s) =
      let r = s.common_table (entry t i) in
      let (status, v) = impl i s.kernel in
      (
        status,
        record {
          name = Option.map (take (max_api_name - 1)) r.name_entry;
          creator = r.creator;
          value = v;
        },
        unlock_global p t s,
      )

  -- A NULL `*_prop_t` pointer is `false`.
  unfoldable pub get_info : (ℕ → K → ℤ × ℕ) → Bool → ℕ → Os K → ℤ × Option Prop × Os K
  get_info impl false id s = (os_invalid_pointer, none, s)
  get_info impl true id s =
      let (code, prop, s') = describe impl (get_by_id p global t id s) in (code, some prop, s')
