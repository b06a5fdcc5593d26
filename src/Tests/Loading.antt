-- ===== src/Tests/Loading.antt =====
-- What is done when the package is loaded, and where `errno` comes from.
use node_ffi.Base.{
  ℕ, ◌≡◌, refl, String, Option, none, some, List, [], ◌∷◌, arith, str_eq, eq_iff, if◌then◌else◌,
  ◌==◌, or_else,
}
use node_ffi.Value.{object, buffer, ok}
use node_ffi.World.{World, pure}
use node_ffi.FfiType.{ffi_type, type_body, shortcut, complete}
use node_ffi.Cif.{require_array, write_arg_types, native_status, check_status, finish, prepare, cif}
use node_ffi.Cif.ArgTypes.{each}
use node_ffi.ForeignFunction.{Proxy, make_proxy, proxy_for, foreign_function}
use node_ffi.DynamicLibrary.{
  Linker, require_pointer, check_handle, dynamic_library, check_symbol, get_symbol,
}
use node_ffi.Startup.{
  export_property, export_names, export_all, BufferNames, assign, set_builtin, set_builtins,
  set_long, set_ffi_types,
}
use node_ffi.World.{Properties, define_property}
use node_ffi.Startup.Table.{entry, set_ffi_types-eq-entry}
use node_ffi.Errno.{at_pointer, windows_errno, make_errno}
use node_ffi.Errno.Source.{IsSource, make_errno-iff-IsSource}
use node_ffi.Tests.Toy.{ToyBuf, Process, toy_write, toy, toy-IsLawful}
use node_ffi.FunctionType.{set_prototype}
use node_ffi.FunctionType.Prototype.{set_prototype-ffi_type}
use node_ffi.Tests.Scene.{root_object, scene, int32_type}
use node_ffi.Tests.Libraries.{linker}

-- The bindings have one of the exported names, and one that is not exported.
abbrev bound : Properties ℕ
bound k = if str_eq k "FFI_OK" then some 0 else if str_eq k "version" then some 3 else none

exported :
    (export_all bound export_names (λ k. none) "FFI_OK" ≡ some 0)
    × (export_all bound export_names (λ k. none) "version" ≡ none)
unfolding export_all export_property define_property
exported = (refl, refl)

abbrev ref_types : String → Option ℕ
ref_types k =
    if str_eq k "int32"
    then some int32_type
    else if str_eq k "size_t"
    then some 10
    else if str_eq k "CString"
    then some 11
    else if str_eq k "Object"
    then some 12
    else if str_eq k "ulong"
    then some 13
    else if str_eq k "long"
    then some 14
    else none

abbrev keys : List String
keys = "int32" ∷ "pointer" ∷ []

-- The names of the Buffers, and the state, at the end.
abbrev named : BufferNames
named k =
    if str_eq "pointer" k then some "pointer" else if str_eq "int32" k then some "int32" else none

abbrev loaded : World Process
unfolding set_builtin set_builtins assign set_long set_ffi_types
loaded = (set_ffi_types toy ref_types keys scene).1

loaded-ok : set_ffi_types toy ref_types keys scene ≡ (ok named, loaded)
unfolding set_builtin set_builtins assign set_long set_ffi_types
loaded-ok = refl

int32-own : (j : String) → ref_types j ≡ some int32_type → j ≡ "int32"
int32-own j h = ground (arith, eq_iff j "int32")

set_ffi_types-eq-entry_example :
    (loaded.ffi_type int32_type
      ≡ or_else (entry toy ref_types keys "int32") (scene.ffi_type int32_type))
    × (loaded.types ≡ scene.types)
set_ffi_types-eq-entry_example =
    set_ffi_types-eq-entry toy ref_types "int32" int32_type keys named scene loaded refl int32-own
      loaded-ok

-- A function type, whose prototype is `Function.prototype`.
abbrev function_object : ℕ
function_object = 20

abbrev function_scene : World Process
function_scene = record scene {
  types = λ o.
      if o == function_object then record root_object { protos = 21 ∷ 0 ∷ [] } else scene.types o;
}

prototype_entry :
    let w = (set_prototype toy 21 function_scene).1 in
    ffi_type toy 1 (object function_object) w ≡ (ok 4, w)
prototype_entry =
    set_prototype-ffi_type toy toy-IsLawful 21 function_object 0 (0 ∷ []) 4 function_scene
      (λ e. omega (arith, e)) refl refl refl refl refl

-- Windows, where msvcrt.dll has `_errno` at 600.
abbrev windows : Linker toy
windows = record (linker "") {
  dlopen = λ path m. pure (buffer 900);
  dlsym = λ h name. pure (buffer 600);
  platform = "win32";
}

abbrev errno_proxy : Proxy ToyBuf
errno_proxy = record {
  cif = record {
    buffer = toy_write (toy.new_buffer 32) 3 0;
    rtn_type_ptr = 3;
    arg_types_ptr = toy.new_buffer 0;
  };
  func_ptr = 600;
  return_type = int32_type;
  arg_types = [];
  result_size = 8;
}

make_errno-iff-IsSource_example :
    IsSource toy windows 500
      (object int32_type)
      (λ v. pure v)
      1
      scene
      scene
      (at_pointer errno_proxy)
unfolding dynamic_library require_pointer check_handle get_symbol check_symbol windows_errno
    make_errno ffi_type type_body shortcut complete require_array write_arg_types native_status
    check_status finish prepare cif each make_proxy proxy_for foreign_function
make_errno-iff-IsSource_example =
    (make_errno-iff-IsSource toy windows 500 (object int32_type) (λ v. pure v) 1 toy-IsLawful
        (omega arith) scene scene (at_pointer errno_proxy)).0
      refl
