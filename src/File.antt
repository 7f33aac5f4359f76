-- ===== src/File.antt =====
-- Files: osal/src/os/shared/src/osapi-file.c.
pub mod Paths
pub mod Copy
pub mod Closing
pub mod Names
pub mod Closed
pub mod Reference
pub mod Usable
pub mod Disk
pub mod Rounds
pub mod Copied
use mathlib.Core.Option
use hello_world_osal.Base.{
  ℕ, zero, suc, ◌+◌, ◌-◌, ℤ, pos, negsuc, Bool, true, false, not, ◌&&◌, ◌||◌, ◌==◌, Option, none,
  some, Text, [], ◌∷◌, if◌then◌else◌, length, take, update, is_code, is_success, int32, os_success,
  os_error, os_invalid_pointer, str_eq, os_fs_err_path_invalid,
}
use hello_world_osal.Idmap.ObjectType
use hello_world_osal.Idmap.Id.{
  Result, ok, fail, entry, is_defined, undefined_id, get_max_for_object_type,
}
use hello_world_osal.Idmap.Tables.{StreamRecord, zero_stream}
use hello_world_osal.Idmap.State.{Os, Port, CommonRecord, set_record}
use hello_world_osal.Idmap.Lock.{global, refcounted, lock_global, unlock_global}
use hello_world_osal.Idmap.Lookup.{get_by_id, refcount_decr}
use hello_world_osal.Idmap.Alloc.{allocate_new}
use hello_world_osal.Service.{build, delete}
use hello_world_osal.FileSys.{FileSysImpl, max_path_len}
use hello_world_osal.FileSys.Paths.{translate_path, on_local}

-- OS_READ_ONLY, OS_WRITE_ONLY and OS_READ_WRITE
abbrev pub read_only : ℤ
read_only = pos 0

abbrev pub write_only : ℤ
write_only = pos 1

abbrev pub read_write : ℤ
read_write = pos 2

-- OS_FILE_FLAG_NONE, and OS_FILE_FLAG_CREATE | OS_FILE_FLAG_TRUNCATE
abbrev pub no_flags : ℕ
no_flags = 0

abbrev pub create_and_truncate : ℕ
create_and_truncate = 3

-- OS_PEND
abbrev pub pend : ℤ
pend = negsuc 0

-- os_fstat_t
pub record FileStat : Type 0 where
  pub mode_bits : ℕ
  pub time : ℤ
  pub size : ℕ

-- OS_file_prop_t. The path is `none` if the code reads through a NULL `name_entry`.
pub record FileProp : Type 0 where
  pub path : Option Text
  pub user : ℕ
  pub is_valid : Bool

-- The OS_File*_Impl and OS_Generic*_Impl functions. A buffer comes with its length; a read returns
-- what the buffer holds then.
pub record FileImpl (K : Type 0) : Type 0 where
  pub open_impl : ℕ → Text → ℕ → ℤ → Os K → ℤ × K
  pub close_impl : ℕ → Os K → ℤ × K
  pub read_impl : ℕ → Text → ℤ → Os K → ℤ × Text × Os K
  pub write_impl : ℕ → Text → ℤ → Os K → ℤ × Os K
  pub seek_impl : ℕ → ℤ → ℕ → Os K → ℤ × Os K
  pub chmod_impl : Text → ℕ → Os K → ℤ × Os K
  pub stat_impl : Text → FileStat → Os K → ℤ × FileStat × Os K
  pub remove_impl : Text → Os K → ℤ × Os K
  pub rename_impl : Text → Text → Os K → ℤ × Os K

module _ {K : Type 0} where
  unfoldable pub file_api_init : Os K → Os K
  file_api_init s = record s { stream_table = λ i. zero_stream }

  -- The new file `i`: `strcpy` into its record, and `name_entry` to that.
  unfoldable pub file_store : Text → ℕ → Os K → Os K
  file_store path i s =
      let e = entry ObjectType.stream i in
      record (set_record s e (record (s.common_table e) { name_entry = some path })) {
        stream_table = update s.stream_table i (record zero_stream { stream_name = path });
      }

  -- Stream `i` is a file that is open under this name.
  unfoldable pub is_named : Text → ℕ → Os K → Bool
  is_named name i s =
      is_defined (s.common_table (entry ObjectType.stream i)).active_id
      && (s.stream_table i).socket_domain == 0
      && str_eq (s.stream_table i).stream_name name

  -- `strcpy` into the stream's name, to which its `name_entry` points.
  unfoldable pub rename_stream : Text → Text → ℕ → Os K → Os K
  rename_stream old new i s =
      let e = entry ObjectType.stream i in
      if is_named old i s
      then record (set_record s e (record (s.common_table e) { name_entry = some new })) {
        stream_table = update s.stream_table i (record (s.stream_table i) { stream_name = new });
      }
      else s

  -- The loop of OS_rename from stream `i` on, `count` of them.
  unfoldable pub rename_streams : ℕ → ℕ → Text → Text → Os K → Os K
  rename_streams zero i old new s = s
  rename_streams (suc count) i old new s =
      rename_streams count (i + 1) old new (rename_stream old new i s)

  -- The loop of OS_FileOpenCheck.
  unfoldable pub any_named : ℕ → ℕ → Text → Os K → Bool
  any_named zero i name s = false
  any_named (suc count) i name s = is_named name i s || any_named count (i + 1) name s

module _ {K : Type 0} (p : Port K) where
  -- What is done under a reference, which is then given back. `before` comes out if there is none.
  unfoldable pub on_reference :
      {A : Type 0} → A → (ℕ → Os K → ℤ × A × Os K) → Result ℕ × Os K → ℤ × A × Os K
  on_reference before action (fail code, s) = (code, before, s)
  on_reference before action (ok i, s) =
      let (code, after, s1) = action i s in
      (code, after, (refcount_decr p (entry ObjectType.stream i) s1).1)

  unfoldable pub file_open_check : Option Text → Os K → ℤ × Os K
  file_open_check none s = (os_invalid_pointer, s)
  file_open_check (some name) s =
      let s1 = lock_global p ObjectType.stream s in
      (
        if any_named (get_max_for_object_type ObjectType.stream) 0 name s1
            then os_success
            else os_error,
        unlock_global p ObjectType.stream s1,
      )

  unfoldable pub describe_file : Result ℕ × Os K → ℤ × FileProp × Os K
  describe_file (fail code, s) = (code, record { path = some []; user = 0; is_valid = false }, s)
  describe_file (ok i, s) =
      let r = s.common_table (entry ObjectType.stream i) in
      (
        os_success,
        record {
          path = Option.map (take (max_path_len - 1)) r.name_entry;
          user = r.creator;
          is_valid = true;
        },
        unlock_global p ObjectType.stream s,
      )

  unfoldable pub fd_get_info : Bool → ℕ → Os K → ℤ × Option FileProp × Os K
  fd_get_info false id s = (os_invalid_pointer, none, s)
  fd_get_info true id s =
      let (code, prop, s') = describe_file (get_by_id p global ObjectType.stream id s) in
      (code, some prop, s')

module _ {K : Type 0} (p : Port K) (impl : FileImpl K) where
  unfoldable pub close : ℕ → Os K → ℤ × Os K
  close id s = delete p ObjectType.stream impl.close_impl id s

  -- The bytes that a pointer and a length stand for are `none` if the pointer is NULL. What the buffer
  -- holds then goes out.
  unfoldable pub timed_read : ℕ → Option Text → ℤ → Os K → ℤ × Option Text × Os K
  timed_read id none timeout s = (os_invalid_pointer, none, s)
  timed_read id (some []) timeout s = (os_invalid_pointer, some [], s)
  timed_read id (some (b ∷ buffer)) timeout s =
      let (code, after, s') =
        on_reference p (b ∷ buffer) (λ i. impl.read_impl i (b ∷ buffer) timeout)
          (get_by_id p refcounted ObjectType.stream id s) in
      (code, some after, s')

  unfoldable pub timed_write : ℕ → Option Text → ℤ → Os K → ℤ × Os K
  timed_write id none timeout s = (os_invalid_pointer, s)
  timed_write id (some []) timeout s = (os_invalid_pointer, s)
  timed_write id (some (b ∷ buffer)) timeout s =
      let (code, _, s') =
        on_reference p tt
          (λ i s1. (let (code, s2) = impl.write_impl i (b ∷ buffer) timeout s1 in (code, tt, s2)))
          (get_by_id p refcounted ObjectType.stream id s) in
      (code, s')

  unfoldable pub read : ℕ → Option Text → Os K → ℤ × Option Text × Os K
  read id buffer s = timed_read id buffer pend s

  unfoldable pub write : ℕ → Option Text → Os K → ℤ × Os K
  write id buffer s = timed_write id buffer pend s

  unfoldable pub lseek : ℕ → ℤ → ℕ → Os K → ℤ × Os K
  lseek id offset whence s =
      let (code, _, s') =
        on_reference p tt
          (λ i s1. (let (code, s2) = impl.seek_impl i offset whence s1 in (code, tt, s2)))
          (get_by_id p refcounted ObjectType.stream id s) in
      (code, s')
