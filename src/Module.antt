-- ===== src/Module.antt =====
-- Loadable modules: osal/src/os/shared/src/osapi-module.c.
pub mod Symbols
use mathlib.Core.Option
use hello_world_osal.Base.{
  ℕ, ◌-◌, ℤ, Bool, true, false, not, ◌&&◌, ◌==◌, leb, Option, none, some, Text, [], List, ◌∷◌,
  if◌then◌else◌, length, take, update, is_success, str_eq, os_success, os_error, os_invalid_pointer,
  os_err_name_too_long, os_err_name_not_found, os_err_not_implemented,
}
use hello_world_osal.Idmap.ObjectType
use hello_world_osal.Idmap.Id.{Result, ok, fail, entry}
use hello_world_osal.Idmap.Tables.{ModuleRecord, zero_module}
use hello_world_osal.Idmap.State.{Os, Port, CommonRecord, set_record}
use hello_world_osal.Idmap.Lock.{global, lock_global, unlock_global}
use hello_world_osal.Idmap.Lookup.{max_api_name, get_by_id}
use hello_world_osal.Idmap.Alloc.{allocate_new}
use hello_world_osal.Service.{build, delete}
use hello_world_osal.FileSys.{FileSysImpl}
use hello_world_osal.FileSys.Paths.{translate_path, on_local}

-- OS_MODULE_TYPE_DYNAMIC and OS_MODULE_TYPE_STATIC
abbrev pub dynamic_module : ℕ
dynamic_module = 1

abbrev pub static_module : ℕ
static_module = 2

-- OS_static_symbol_record_t; a NULL `Module` is `none`. The record with a NULL name ends the table.
pub record StaticSymbol : Type 0 where
  pub name : Text
  pub address : ℕ
  pub owner : Option Text

-- OS_module_address_t
pub record ModuleAddress : Type 0 where
  pub valid : ℕ
  pub flags : ℕ
  pub code_address : ℕ
  pub code_size : ℕ
  pub data_address : ℕ
  pub data_size : ℕ
  pub bss_address : ℕ
  pub bss_size : ℕ

-- OS_module_prop_t. The name is `none` if the code reads through a NULL `name_entry`.
pub record ModuleProp : Type 0 where
  pub entry_point : ℕ
  pub host_module_id : ℕ
  pub filename : Text
  pub name : Option Text
  pub addr : ModuleAddress

abbrev pub zero_module_prop : ModuleProp
zero_module_prop = record {
  entry_point = 0;
  host_module_id = 0;
  filename = [];
  name = some [];
  addr = record {
    valid = 0;
    flags = 0;
    code_address = 0;
    code_size = 0;
    data_address = 0;
    data_size = 0;
    bss_address = 0;
    bss_size = 0;
  };
}

-- The functions of the loader below. A symbol's address is `none` where it is not written.
pub record ModuleImpl (K : Type 0) : Type 0 where
  pub load_impl : ℕ → Text → Os K → ℤ × K
  pub unload_impl : ℕ → Os K → ℤ × K
  pub get_info_impl : ℕ → K → ModuleProp → ℤ × ModuleProp
  pub global_symbol_impl : Text → Os K → ℤ × Option ℕ × Os K
  pub module_symbol_impl : ℕ → Text → K → ℤ × Option ℕ × K
  pub dump_impl : Text → ℕ → Os K → ℤ × K

-- `ModuleName == NULL || strcmp(StaticSym->Module, ModuleName) == 0`. A symbol without a module, which
-- the code would read through, is in none.
abbrev is_in : Option Text → Option Text → Bool
is_in none owner = true
is_in (some name) none = false
is_in (some name) (some owner) = str_eq owner name

unfoldable pub find_symbol : List StaticSymbol → Text → Option Text → ℤ × Option ℕ
find_symbol [] name module_name = (os_error, none)
find_symbol (x ∷ xs) name module_name =
    let rest = find_symbol xs name module_name in
    if str_eq x.name name && is_in module_name x.owner then (os_success, some x.address) else rest

-- No table at all is `none`.
unfoldable pub symbol_lookup_static : Option (List StaticSymbol) → Text → Option Text → ℤ × Option ℕ
symbol_lookup_static none name module_name = (os_err_not_implemented, none)
symbol_lookup_static (some table) name module_name = find_symbol table name module_name

unfoldable pub find_module : List StaticSymbol → Text → ℤ
find_module [] name = os_err_name_not_found
find_module (x ∷ xs) name =
    let rest = find_module xs name in
    elim x.owner [ none ↦ rest | some owner ↦ if str_eq owner name then os_success else rest ]

unfoldable pub module_load_static : Option (List StaticSymbol) → Text → ℤ
module_load_static none name = os_err_name_not_found
module_load_static (some table) name = find_module table name

-- A symbol that the loader does not find may be a static one; else the loader's code counts.
unfoldable pub or_static : ℤ × Option ℕ → ℤ × Option ℕ → ℤ × Option ℕ
or_static (code, address) (status, static_address) =
    if not (is_success code) && is_success status then (status, static_address) else (code, address)

-- What is known of the new module `i`: a static one, or one with a file whose path is good.
unfoldable pub module_record : Bool → Bool → Text → Option Text → ℕ → ModuleRecord
module_record true named name filename flags = record zero_module {
  module_name = name;
  flags = flags;
  module_type = static_module;
}
module_record false true name (some filename) flags = record zero_module {
  module_name = name;
  file_name = filename;
  flags = flags;
  module_type = dynamic_module;
}
module_record false true name none flags = record zero_module { module_name = name; flags = flags }
module_record false false name filename flags = record zero_module {
  module_name = name;
  flags = flags;
}

module _ {K : Type 0} where
  unfoldable pub module_api_init : Os K → Os K
  module_api_init s = record s { module_table = λ i. zero_module }

  unfoldable pub module_store : Text → ModuleRecord → ℕ → Os K → Os K
  module_store name r i s =
      let e = entry ObjectType.modules i in
      record (set_record s e (record (s.common_table e) { name_entry = some name })) {
        module_table = update s.module_table i r;
      }

module _ {K : Type 0} (p : Port K) (impl : ModuleImpl K)
    (symbols : Option (List StaticSymbol)) where
  -- The status of the new module `i`: that of the static list, of the path or of the loader.
  unfoldable pub start_module : Text → ℤ → Option Text → ℕ → Os K → ℤ × K
  start_module name filename_status none i s =
      if is_success (module_load_static symbols name)
      then (os_success, s.kernel)
      else (filename_status, s.kernel)
  start_module name filename_status (some translated) i s =
      if is_success (module_load_static symbols name)
      then (os_success, s.kernel)
      else if is_success filename_status
      then impl.load_impl i translated s
      else (filename_status, s.kernel)

  unfoldable pub load_translated :
      Text → Option Text → ℕ → ℤ × Option Text × Os K → ℤ × Option ℕ × Os K
  load_translated name filename flags (filename_status, translated, s) =
      let static_found = is_success (module_load_static symbols name) in
      build p ObjectType.modules
        (module_store name
          (module_record static_found (is_success filename_status) name filename flags))
        (start_module name filename_status translated)
        (allocate_new p ObjectType.modules (some name) s)

  -- A NULL pointer for the ID is `false`, a NULL name `none`. A NULL file name counts only if the module
  -- is not static.
  unfoldable pub module_load :
      FileSysImpl K → ℕ → Bool → Option Text → Option Text → ℕ → Os K → ℤ × Option ℕ × Os K
  module_load volumes garbage false name filename flags s = (os_invalid_pointer, none, s)
  module_load volumes garbage true none filename flags s = (os_invalid_pointer, none, s)
  module_load volumes garbage true (some name) filename flags s =
      if leb max_api_name (length name)
      then (os_err_name_too_long, none, s)
      else load_translated name filename flags (translate_path p volumes garbage true filename s)

module _ {K : Type 0} (p : Port K) (impl : ModuleImpl K) where
  unfoldable pub unload_one : ℕ → Os K → ℤ × K
  unload_one i s =
      if (s.module_table i).module_type == dynamic_module
      then impl.unload_impl i s
      else (os_success, s.kernel)

  unfoldable pub module_unload : ℕ → Os K → ℤ × Os K
  module_unload id s = delete p ObjectType.modules unload_one id s
