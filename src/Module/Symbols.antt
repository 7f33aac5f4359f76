-- ===== src/Module/Symbols.antt =====
-- OS_ModuleInfo, the lookup of symbols and their dump (osapi-module.c).
use mathlib.Core.Option
use hello_world_osal.Base.{
  ℕ, ◌-◌, ℤ, Bool, true, false, Option, none, some, Text, List, take, os_invalid_pointer,
}
use hello_world_osal.Idmap.ObjectType
use hello_world_osal.Idmap.Id.{Result, ok, fail, entry}
use hello_world_osal.Idmap.State.{Os, Port}
use hello_world_osal.Idmap.Lock.{global, lock_global, unlock_global}
use hello_world_osal.Idmap.Lookup.{max_api_name, get_by_id}
use hello_world_osal.FileSys.{FileSysImpl}
use hello_world_osal.FileSys.Paths.{translate_path, on_local}
use hello_world_osal.Module.{
  StaticSymbol, ModuleProp, zero_module_prop, ModuleImpl, symbol_lookup_static, or_static,
}

module _ {K : Type 0} (p : Port K) (impl : ModuleImpl K)
    (symbols : Option (List StaticSymbol)) where
  -- Both texts are cut to the length of a name.
  unfoldable pub describe_module : Result ℕ × Os K → ℤ × ModuleProp × Os K
  describe_module (fail code, s) = (code, zero_module_prop, s)
  describe_module (ok i, s) =
      let (code, prop) = impl.get_info_impl i s.kernel (record zero_module_prop {
        name =
            Option.map (take (max_api_name - 1))
              (s.common_table (entry ObjectType.modules i)).name_entry;
        filename = take (max_api_name - 1) (s.module_table i).file_name;
      }) in
      (code, prop, unlock_global p ObjectType.modules s)

  unfoldable pub module_info : Bool → ℕ → Os K → ℤ × Option ModuleProp × Os K
  module_info false id s = (os_invalid_pointer, none, s)
  module_info true id s =
      let (code, prop, s') = describe_module (get_by_id p global ObjectType.modules id s) in
      (code, some prop, s')

  -- NULL pointers are `false` for the address and `none` for the name.
  unfoldable pub symbol_lookup : Bool → Option Text → Os K → ℤ × Option ℕ × Os K
  symbol_lookup false name s = (os_invalid_pointer, none, s)
  symbol_lookup true none s = (os_invalid_pointer, none, s)
  symbol_lookup true (some name) s =
      let (code, address, s') = impl.global_symbol_impl name s in
      let (code', address') = or_static (code, address) (symbol_lookup_static symbols name none) in
      (code', address', s')

  unfoldable pub lookup_in_module : Text → Result ℕ × Os K → ℤ × Option ℕ × Os K
  lookup_in_module name (fail code, s) = (code, none, s)
  lookup_in_module name (ok i, s) =
      let (code, address, k) = impl.module_symbol_impl i name s.kernel in
      let owner = (s.common_table (entry ObjectType.modules i)).name_entry in
      let (code', address') = or_static (code, address) (symbol_lookup_static symbols name owner) in
      (code', address', unlock_global p ObjectType.modules (record s { kernel = k }))

  unfoldable pub module_symbol_lookup : ℕ → Bool → Option Text → Os K → ℤ × Option ℕ × Os K
  module_symbol_lookup id false name s = (os_invalid_pointer, none, s)
  module_symbol_lookup id true none s = (os_invalid_pointer, none, s)
  module_symbol_lookup id true (some name) s =
      lookup_in_module name (get_by_id p global ObjectType.modules id s)

  -- Under the table's lock.
  unfoldable pub dump_local : ℕ → Text → Os K → ℤ × Os K
  dump_local size_limit local s =
      let s1 = lock_global p ObjectType.modules s in
      let (code, k) = impl.dump_impl local size_limit s1 in
      (code, unlock_global p ObjectType.modules (record s1 { kernel = k }))

  unfoldable pub symbol_table_dump : FileSysImpl K → ℕ → Option Text → ℕ → Os K → ℤ × Os K
  symbol_table_dump volumes garbage filename size_limit s =
      on_local (dump_local size_limit) (translate_path p volumes garbage true filename s)
