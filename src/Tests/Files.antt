-- ===== src/Tests/Files.antt =====
-- Two open files, and a layer below that copies at most two bytes at a time.
use hello_world_osal.Base.{
  ℕ, zero, suc, ◌+◌, ◌<◌, ◌≤◌, ◌≡◌, ◌⊎◌, inl, refl, arith, ℤ, pos, negsuc, false, true, some, Text,
  [], ◌∷◌, ◌++◌, length, take, drop, ◌==◌, if◌then◌else◌, is_success, os_success, os_error, str_eq,
}
use hello_world_osal.Idmap.Id.{
  to_array_index, to_type, to_serial_number, get_max_for_object_type, get_base_for_object_type,
}
use hello_world_osal.Idmap.Tables.{zero_stream}
use hello_world_osal.Idmap.State.{Os, zero_record, zero_objtype}
use hello_world_osal.Idmap.Lock.{lock_global, unlock_global}
use hello_world_osal.File.{FileImpl, is_named, file_open_check}
use hello_world_osal.File.Paths.{rename_open}
use hello_world_osal.File.Copy.{copy_loop}
use hello_world_osal.File.Closing.{close_stream, close_named, close_file_by_name}
use hello_world_osal.File.Names.{file_open_check-rename_open}
use hello_world_osal.File.Closed.{close_file_by_name-file_open_check}
use hello_world_osal.File.Reference.{IsUsable}
use hello_world_osal.File.Disk.{IsDisk}
use hello_world_osal.File.Copied.{Written, copy_loop-Written}
use hello_world_osal.Tests.{idle, alone, started}
use hello_world_osal.Tests.Lifecycle.{streams}

abbrev name_a : Text
name_a = 47 ∷ 97 ∷ []

abbrev name_b : Text
name_b = 47 ∷ 98 ∷ []

abbrev name_c : Text
name_c = 47 ∷ 99 ∷ []

-- File "/a" is open in place 0 and file "/b" in place 1.
abbrev open_files : {K : Type 0} → K → Os K
open_files k = record (started k) {
  common_table = λ e.
      if 188 == e
      then record zero_record { active_id = 0x6_0000; name_entry = some name_a }
      else if 189 == e
      then record zero_record { active_id = 0x6_0001; name_entry = some name_b }
      else zero_record;
  stream_table = λ i.
      if 0 == i
      then record zero_stream { stream_name = name_a }
      else if 1 == i
      then record zero_stream { stream_name = name_b }
      else zero_stream;
}

abbrev two_files : Os ℕ
two_files = open_files 0

a-b : str_eq name_a name_b ≡ false
unfolding str_eq
a-b = refl

c-a : str_eq name_c name_a ≡ false
unfolding str_eq
c-a = refl

c-b : str_eq name_c name_b ≡ false
unfolding str_eq
c-b = refl

file_open_check-rename_open_example :
    let s = two_files in
    let (code, s') = rename_open idle name_a name_c (os_success, s) in
    (code ≡ os_success)
    × ((file_open_check idle (some name_c) s').0 ≡ (
        if is_success (file_open_check idle (some name_a) s).0
        then os_success
        else (file_open_check idle (some name_c) s).0))
    × ((file_open_check idle (some name_a) s').0 ≡ os_error)
    × ((file_open_check idle (some name_b) s').0 ≡ (file_open_check idle (some name_b) s).0)
file_open_check-rename_open_example =
    file_open_check-rename_open idle name_a name_c name_b two_files c-a c-b a-b

closes : is_success (close_file_by_name idle streams (some name_a) two_files).0 ≡ true
unfolding close_file_by_name close_named close_stream is_named str_eq lock_global unlock_global
    get_max_for_object_type get_base_for_object_type
closes = refl

close_file_by_name-file_open_check_example :
    let s' = (close_file_by_name idle streams (some name_a) two_files).1 in
    ((file_open_check idle (some name_a) s').0 ≡ os_error)
    × ((file_open_check idle (some name_b) s').0 ≡ (file_open_check idle (some name_b) two_files).0)
close_file_by_name-file_open_check_example =
    close_file_by_name-file_open_check idle streams (λ i s. refl) name_a name_b two_files a-b closes

-- What is left of the one file, and what the other holds.
abbrev Disk : Type 0
Disk = Text × Text

abbrev disk_read : Text → Disk → ℤ × Text × Disk
disk_read [] k = (pos 0, [], k)
disk_read (b ∷ buffer) ([], made) = (pos 0, b ∷ buffer, ([], made))
disk_read (b ∷ []) (x ∷ left, made) = (pos 1, x ∷ [], (left, made))
disk_read (b ∷ c ∷ buffer) (x ∷ [], made) = (pos 1, x ∷ c ∷ buffer, ([], made))
disk_read (b ∷ c ∷ buffer) (x ∷ y ∷ left, made) = (pos 2, x ∷ y ∷ buffer, (left, made))

abbrev disk_write : Text → Disk → ℤ × Disk
disk_write [] k = (pos 0, k)
disk_write (b ∷ buffer) (left, made) = (pos 1, (left, made ++ b ∷ []))

abbrev disk : FileImpl Disk
disk = record {
  open_impl = λ i local flags access s. (os_success, s.kernel);
  close_impl = λ i s. (os_success, s.kernel);
  read_impl = λ i buffer timeout s.
      (let (c, after, k) = disk_read buffer s.kernel in (c, after, record s { kernel = k }));
  write_impl = λ i buffer timeout s.
      (let (c, k) = disk_write buffer s.kernel in (c, record s { kernel = k }));
  seek_impl = λ i offset whence s. (os_success, s);
  chmod_impl = λ local access s. (os_success, s);
  stat_impl = λ local before s. (os_success, before, s);
  remove_impl = λ local s. (os_success, s);
  rename_impl = λ old new s. (os_success, s);
}

next_bytes :
    (buffer : Text) (k : Disk)
    → 0 < length buffer
    → let (c, after, k') = disk_read buffer k in
      ((n : ℕ) × (c ≡ pos n)
        × (n ≤ length buffer)
        × (n ≤ length k.0)
        × (n ≡ 0 → k.0 ≡ [])
        × (length after ≡ length buffer)
        × (take n after ≡ take n k.0)
        × (k'.0 ≡ drop n k.0)
        × (k'.1 ≡ k.1))
      ⊎ ((n : ℕ) × (c ≡ negsuc n))
unfolding drop
next_bytes [] k h = absurd (omega (arith, h))
next_bytes (b ∷ buffer) ([], made) h =
    inl (0, refl, omega arith, omega arith, λ e. refl, refl, refl, refl, refl)
next_bytes (b ∷ []) (x ∷ left, made) h =
    inl (1, refl, omega arith, omega arith, λ e. absurd (omega (arith, e)), refl, refl, refl, refl)
next_bytes (b ∷ c ∷ buffer) (x ∷ [], made) h =
    inl (1, refl, omega arith, omega arith, λ e. absurd (omega (arith, e)), refl, refl, refl, refl)
next_bytes (b ∷ c ∷ buffer) (x ∷ y ∷ left, made) h =
    inl (2, refl, omega arith, omega arith, λ e. absurd (omega (arith, e)), refl, refl, refl, refl)

taken :
    (buffer : Text) (k : Disk)
    → 0 < length buffer
    → let (c, k') = disk_write buffer k in
      ((n : ℕ) × (c ≡ pos n)
        × (0 < n)
        × (n ≤ length buffer)
        × (k'.1 ≡ k.1 ++ take n buffer)
        × (k'.0 ≡ k.0))
      ⊎ ((n : ℕ) × (c ≡ negsuc n))
taken [] k h = absurd (omega (arith, h))
taken (b ∷ buffer) k h = inl (1, refl, omega arith, omega arith, refl, refl)

abbrev disk-IsDisk : IsDisk disk 0 1 (λ k. k.0) (λ k. k.1)
disk-IsDisk = record {
  reads = disk_read;
  writes = disk_write;
  read_runs = λ buffer s. refl;
  write_runs = λ buffer s. refl;
  next_bytes = next_bytes;
  taken = taken;
}

-- File "/a" holds three bytes, and file "/b" none.
abbrev full : Disk
full = (65 ∷ 66 ∷ 67 ∷ [], [])

usable : (i : ℕ) → i < 2 → IsUsable alone (0x6_0000 + i) i (open_files full)
unfolding to_array_index to_type to_serial_number get_max_for_object_type get_base_for_object_type
usable zero h = record {
  on = refl;
  running = λ e. omega (arith, e);
  place = refl;
  live = refl;
  clear = refl;
  few = omega arith;
}
usable (suc zero) h = record {
  on = refl;
  running = λ e. omega (arith, e);
  place = refl;
  live = refl;
  clear = refl;
  few = omega arith;
}
usable (suc (suc i)) h = absurd (omega (arith, h))

copy_loop-Written_example :
    let s = open_files full in
    Written alone disk 0 1
      (λ k. k.0)
      (λ k. k.1)
      disk-IsDisk
      0x6_0000
      0x6_0001
      s
      full
      (65 ∷ 66 ∷ 67 ∷ [])
      []
      (copy_loop alone disk 4 3 0x6_0000 0x6_0001 (0 ∷ 0 ∷ []) s)
copy_loop-Written_example =
    copy_loop-Written alone disk 0 1 (λ k. k.0) (λ k. k.1) disk-IsDisk 0x6_0000 0x6_0001
      (open_files full) (usable 0 (omega arith)) (usable 1 (omega arith)) 4 3 (0 ∷ 0 ∷ []) full
      (λ t. zero_objtype) (omega arith) (omega arith) (omega arith)
