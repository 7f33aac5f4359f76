-- ===== src/Idmap/Id.antt =====
-- Object IDs: type and serial number packed into 32 bits (os-shared-idmap.h), the size and the place
-- of each type's part of the common table (osapi-idmap.c, limits from inc/osconfig.h).
pub mod Codec
pub mod Layout
use hello_world_osal.Base.{
  ℕ, ◌+◌, ◌*◌, ◌/◌, ◌%◌, ◌^◌, bit_and, bit_or, Bool, ◌&&◌, not, ◌==◌, if◌then◌else◌, ℤ,
  os_err_invalid_id,
}
use hello_world_osal.Idmap.ObjectType

-- A step that yields a value, or fails with the return code of the C function.
pub data Result {ℓ} (A : Type ℓ) : Type ℓ where
  ok : A → Result A
  fail : ℤ → Result A

abbrev pub object_index_mask : ℕ
object_index_mask = 0xFFFF

abbrev pub undefined_id : ℕ
undefined_id = 0

abbrev pub reserved_id : ℕ
reserved_id = 0xFFFF_FFFF

abbrev pub is_defined : ℕ → Bool
is_defined id = not (id == undefined_id)

unfoldable pub to_serial_number : ℕ → ℕ
to_serial_number id = bit_and id object_index_mask

unfoldable pub to_type : ℕ → ℕ
to_type id = id / 2 ^ 16

unfoldable pub compose : ℕ → ℕ → ℕ
compose idtype idserial = bit_or (idtype * 2 ^ 16 % 2 ^ 32) idserial % 2 ^ 32

unfoldable pub get_max_for_object_type : ℕ → ℕ
get_max_for_object_type idtype =
    if idtype == ObjectType.task
    then 64
    else if idtype == ObjectType.queue
    then 64
    else if idtype == ObjectType.binsem
    then 20
    else if idtype == ObjectType.countsem
    then 20
    else if idtype == ObjectType.mutex
    then 20
    else if idtype == ObjectType.stream
    then 50
    else if idtype == ObjectType.dir
    then 4
    else if idtype == ObjectType.timebase
    then 5
    else if idtype == ObjectType.timecb
    then 10
    else if idtype == ObjectType.modules
    then 20
    else if idtype == ObjectType.filesys
    then 14
    else if idtype == ObjectType.console
    then 1
    else 0

unfoldable pub get_base_for_object_type : ℕ → ℕ
get_base_for_object_type idtype =
    if idtype == ObjectType.task
    then 0
    else if idtype == ObjectType.queue
    then 64
    else if idtype == ObjectType.binsem
    then 128
    else if idtype == ObjectType.countsem
    then 148
    else if idtype == ObjectType.mutex
    then 168
    else if idtype == ObjectType.stream
    then 188
    else if idtype == ObjectType.dir
    then 238
    else if idtype == ObjectType.timebase
    then 242
    else if idtype == ObjectType.timecb
    then 247
    else if idtype == ObjectType.modules
    then 257
    else if idtype == ObjectType.filesys
    then 277
    else if idtype == ObjectType.console
    then 291
    else 0

abbrev pub max_total_records : ℕ
max_total_records = 292

-- The entry of the common table for object `local_id` of a type.
abbrev pub entry : ℕ → ℕ → ℕ
entry idtype local_id = (local_id + get_base_for_object_type idtype) % 2 ^ 32

unfoldable pub to_array_index : ℕ → ℕ → Result ℕ
to_array_index idtype object_id =
    let obj_index = to_serial_number object_id in
    let actual_type = to_type object_id in
    if not (idtype == ObjectType.undefined) && not (actual_type == idtype)
    then fail os_err_invalid_id
    else (let max_id = get_max_for_object_type actual_type in
        if max_id == 0 then fail os_err_invalid_id else ok (obj_index % max_id))

unfoldable pub convert_to_array_index : ℕ → Result ℕ
convert_to_array_index object_id = to_array_index ObjectType.undefined object_id
