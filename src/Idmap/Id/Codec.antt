-- ===== src/Idmap/Id/Codec.antt =====
-- What the packing of type and serial number gives back.
use hello_world_osal.Base.{ℕ, ◌+◌, ◌*◌, ◌%◌, ◌^◌, ◌<◌, ◌≡◌, arith, bit_or_fields, bit_and_mask}
use hello_world_osal.Idmap.Id.{compose, to_type, to_serial_number}

pub compose-eq : (t n : ℕ) → t < 2 ^ 16 → n < 2 ^ 16 → compose t n ≡ t * 2 ^ 16 + n
unfolding compose
compose-eq t n ht hn = ground (arith, bit_or_fields 16 t n hn)

pub to_type-compose : (t n : ℕ) → t < 2 ^ 16 → n < 2 ^ 16 → to_type (compose t n) ≡ t
unfolding to_type
to_type-compose t n ht hn = omega (arith, compose-eq t n ht hn)

pub to_serial_number-eq : (id : ℕ) → to_serial_number id ≡ id % 2 ^ 16
unfolding to_serial_number
to_serial_number-eq id = bit_and_mask 16 id

pub to_serial_number-compose :
    (t n : ℕ) → t < 2 ^ 16 → n < 2 ^ 16 → to_serial_number (compose t n) ≡ n
to_serial_number-compose t n ht hn =
    omega (arith, compose-eq t n ht hn, to_serial_number-eq (compose t n))

-- A 32-bit ID is put together again from its type and its serial number.
pub compose-parts : (id : ℕ) → id < 2 ^ 32 → compose (to_type id) (to_serial_number id) ≡ id
unfolding to_type
compose-parts id h = omega (
  arith,
  to_serial_number-eq id,
  compose-eq (to_type id) (to_serial_number id) (omega arith)
      (omega (arith, to_serial_number-eq id)),
)
