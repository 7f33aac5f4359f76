-- ===== src/Tests/Messages.antt =====
-- The console's ring buffer on concrete states.
use hello_world_osal.Base.{
  ◌≡◌, refl, arith, [], ◌∷◌, Text, ◌+◌, ◌%◌, ◌^◌, ◌≤◌, ◌⊎◌, ◌++◌, length, os_queue_full, os_success,
}
use hello_world_osal.Console.{Console, copy_out, copy_message, put_message}
use hello_world_osal.Console.Write.{IsValid, unread, used, put_message_lem}
use hello_world_osal.Console.Ring.{peek}

-- A buffer for seven characters, about to wrap round.
abbrev small : Console
small = record {
  device_name = 62 ∷ [];
  buf_base = λ i. 0;
  buf_size = 8;
  read_pos = 6;
  write_pos = 6;
  overflow_events = 0;
}

abbrev greeting : Text
greeting = 72 ∷ 73 ∷ 74 ∷ []

small-IsValid : IsValid small
small-IsValid = record { reads = omega arith; writes = omega arith }

put-greeting :
    ((put_message greeting small).0 ≡ os_success)
    × ((put_message greeting small).1.write_pos ≡ 2)
    × (unread (put_message greeting small).1 ≡ 62 ∷ greeting)
unfolding put_message copy_message copy_out peek
put-greeting = (refl, refl, refl)

put_message_lem_example :
    let (code, c') = put_message greeting small in
    IsValid c'
    × (((code ≡ os_success) × (unread c' ≡ unread small ++ (62 ∷ greeting)))
        ⊎ ((code ≡ os_queue_full)
            × (unread c' ≡ unread small)
            × (c'.overflow_events ≡ (small.overflow_events + 1) % 2 ^ 32)
            × (small.buf_size ≤ used small + length (62 ∷ greeting))))
put_message_lem_example = put_message_lem small small-IsValid greeting
