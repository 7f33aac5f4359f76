-- ===== src/Tests/Streams.antt =====
-- Two streams and an empty set.
use hello_world_osal.Base.{◌≡◌, refl, false, not, ◌&&◌, ◌||◌, ◌==◌, some}
use hello_world_osal.Idmap.ObjectType
use hello_world_osal.Idmap.Id.{
  ok, to_array_index, to_type, to_serial_number, get_max_for_object_type,
}
use hello_world_osal.Select.{
  FdSet, select_fd_zero, select_fd_add, select_fd_clear, select_fd_is_set,
}
use hello_world_osal.Select.Bits.{select_fd_is_set_lem}

abbrev no_streams : FdSet
no_streams = λ i. 0

stream_index : to_array_index ObjectType.stream 0x6_0009 ≡ ok 9
unfolding to_array_index to_type to_serial_number get_max_for_object_type
stream_index = refl

other_index : to_array_index ObjectType.stream 0x6_000A ≡ ok 10
unfolding to_array_index to_type to_serial_number get_max_for_object_type
other_index = refl

select_fd_is_set_lem_example :
    (select_fd_is_set (select_fd_add (some no_streams) 0x6_0009).1 0x6_000A
      ≡ (9 == 10 || select_fd_is_set (some no_streams) 0x6_000A))
    × (select_fd_is_set (select_fd_clear (some no_streams) 0x6_0009).1 0x6_000A
        ≡ (not (9 == 10) && select_fd_is_set (some no_streams) 0x6_000A))
    × (select_fd_is_set (select_fd_zero (some no_streams)).1 0x6_000A ≡ false)
select_fd_is_set_lem_example =
    select_fd_is_set_lem no_streams 0x6_0009 0x6_000A 9 10 stream_index other_index
