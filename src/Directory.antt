-- ===== src/Directory.antt =====
-- Directories: osal/src/os/shared/src/osapi-dir.c.
pub mod Open
use hello_world_osal.Base.{
  ℕ, ◌-◌, ℤ, Bool, true, false, Option, none, some, Text, [], if◌then◌else◌, take, update,
  is_success, os_success, os_invalid_pointer,
}
use hello_world_osal.Idmap.ObjectType
use hello_world_osal.Idmap.Id.{Result, ok, fail}
use hello_world_osal.Idmap.State.{Os, Port}
use hello_world_osal.Idmap.Lock.{global, unlock_global}
use hello_world_osal.Idmap.Lookup.{get_by_id}
use hello_world_osal.Idmap.Alloc.{allocate_new}
use hello_world_osal.Service.{build, delete, operate}
use hello_world_osal.FileSys.{FileSysImpl, max_path_len}
use hello_world_osal.FileSys.Paths.{translate_path, on_local}

-- os_dirent_t: `FileName`
abbrev pub Dirent : Type 0
Dirent = Text

-- The OS_Dir*_Impl functions. Those that run without the lock return the state that they come back to.
pub record DirImpl (K : Type 0) : Type 0 where
  pub create_impl : Text → ℕ → Os K → ℤ × Os K
  pub open_impl : ℕ → Text → Os K → ℤ × K
  pub close_impl : ℕ → Os K → ℤ × K
  pub read_impl : ℕ → Dirent → Os K → ℤ × Dirent × K
  pub rewind_impl : ℕ → Os K → ℤ × Os K
  pub remove_impl : Text → Os K → ℤ × Os K

module _ {K : Type 0} where
  unfoldable pub dir_api_init : Os K → Os K
  dir_api_init s = record s { dir_table = λ i. [] }

  -- The record of the new directory `i`. It gets no `name_entry`.
  unfoldable pub dir_store : Text → ℕ → Os K → Os K
  dir_store path i s = record s { dir_table = update s.dir_table i (take (max_path_len - 1) path) }

module _ {K : Type 0} (p : Port K) (volumes : FileSysImpl K) (garbage : ℕ) (impl : DirImpl K) where
  -- A NULL path is `none`.
  unfoldable pub mkdir : Option Text → ℕ → Os K → ℤ × Os K
  mkdir path access s =
      on_local (λ local. impl.create_impl local access)
        (translate_path p volumes garbage true path s)

  -- The status of OS_DirRemove_Impl is dropped.
  unfoldable pub rmdir : Option Text → Os K → ℤ × Os K
  rmdir path s =
      on_local (λ local s'. (os_success, (impl.remove_impl local s').1))
        (translate_path p volumes garbage true path s)

  unfoldable pub open_local : Text → ℤ × Option Text × Os K → ℤ × Option ℕ × Os K
  open_local path (code, none, s) = (code, none, s)
  open_local path (code, some local, s) =
      if is_success code
      then build p ObjectType.dir (dir_store path) (λ i. impl.open_impl i local)
          (allocate_new p ObjectType.dir none s)
      else (code, none, s)

  -- A NULL pointer for the ID is `false`.
  unfoldable pub directory_open : Bool → Option Text → Os K → ℤ × Option ℕ × Os K
  directory_open false path s = (os_invalid_pointer, none, s)
  directory_open true none s = (os_invalid_pointer, none, s)
  directory_open true (some path) s =
      open_local path (translate_path p volumes garbage true (some path) s)

module _ {K : Type 0} (p : Port K) (impl : DirImpl K) where
  unfoldable pub directory_close : ℕ → Os K → ℤ × Os K
  directory_close id s = delete p ObjectType.dir impl.close_impl id s

  unfoldable pub read_found : Dirent → Result ℕ × Os K → ℤ × Option Dirent × Os K
  read_found entry (fail code, s) = (code, some entry, s)
  read_found entry (ok i, s) =
      let (code, entry', k) = impl.read_impl i entry s in
      (code, some entry', unlock_global p ObjectType.dir (record s { kernel = k }))

  -- The entry that the pointer points to comes in and goes out; a NULL pointer is `none`.
  unfoldable pub directory_read : ℕ → Option Dirent → Os K → ℤ × Option Dirent × Os K
  directory_read id none s = (os_invalid_pointer, none, s)
  directory_read id (some entry) s = read_found entry (get_by_id p global ObjectType.dir id s)

  unfoldable pub directory_rewind : ℕ → Os K → ℤ × Os K
  directory_rewind id s = operate p ObjectType.dir impl.rewind_impl id s
