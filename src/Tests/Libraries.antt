-- ===== src/Tests/Libraries.antt =====
-- Libraries and their symbols, with a linker script on the way.
use node_ffi.Base.{arith, ℕ, ◌≡◌, refl, ◌↔◌, String, none, some, [], ◌∷◌, str_eq, if◌then◌else◌}
use node_ffi.Value.{Ptr, object, buffer, number, ok, overflow}
use node_ffi.World.{pure, ◌>>=◌}
use node_ffi.FfiType.{ffi_type, type_body, shortcut, complete}
use node_ffi.Cif.{require_array, write_arg_types, native_status, check_status, finish, prepare, cif}
use node_ffi.Cif.ArgTypes.{each}
use node_ffi.ForeignFunction.{make_proxy, proxy_for, foreign_function, marshal, invoke, call}
use node_ffi.Variadic.{same_key}
use node_ffi.Text.{
  Text, codes, strip, run_of, skip, elf_tail, elf_head, elf_path, group_list, group_at, group_file,
  is_prefix, contains,
}
use node_ffi.Text.Elf.{elf_path-message}
use node_ffi.DynamicLibrary.{
  Linker, require_pointer, last_error, follow, read_script, match_error, check_handle,
  dynamic_library, check_symbol, get_symbol,
}
use node_ffi.DynamicLibrary.Opens.{Opens, dynamic_library-iff-Opens}
use node_ffi.DynamicLibrary.Cycle.{IsCycle, dynamic_library-overflows}
use node_ffi.DynamicLibrary.Symbols.{IsFound, get_symbol-iff-IsFound}
use node_ffi.Library.{
  Info, Member.sync, ext, with_ext, library_path, set_member, require_function_pointer,
  plain_member, make_member, define_function, Members, member, define_functions, library,
}
use node_ffi.Library.Members.{described}
use node_ffi.Library.Defined.{define_function-eq-unchecked}
use node_ffi.Library.Called.{info_of, IsLinkedCall, library-call}
use node_ffi.Library.Loaded.{IsLoaded, library-iff-IsLoaded}
use node_ffi.Tests.Toy.{ToyBuf, toy, toy-IsLawful}
use node_ffi.Tests.Scene.{scene, int32_type}
use node_ffi.Tests.Calls.{sum, numbers, summed}

path_of_message : elf_path (codes "libm.so.6: invalid ELF header") ≡ some (codes "libm.so.6")
path_of_message =
    elf_path-message b'l' (codes "ibm") (codes ".6") (codes "invalid ELF header")
      (refl, (refl, (refl, (refl, tt)))) (refl, (refl, tt))

-- The pattern gives back as much as it must, to the last colon of the first word.
elf_path_greedy : elf_path (codes "a.so:b.so: bad") ≡ some (codes "a.so:b.so")
unfolding elf_path elf_head elf_tail strip run_of skip
elf_path_greedy = refl

group_file_first :
    group_file (codes "/* GNU ld */ GROUP ( /lib/libm.so.6 AS_NEEDED )")
    ≡ some (codes "/lib/libm.so.6")
unfolding group_file group_at group_list strip run_of skip
group_file_first = refl

-- The handle of the one library is 900, and it has the one symbol.
abbrev opens_at : Text → Ptr
opens_at path = if same_key path (codes "libm.so.6") then 900 else 0

abbrev pub linker : String → Linker toy
unfolding same_key
linker content = record {
  dlopen = λ path m. pure (buffer (elim path [ none ↦ 800 | some f ↦ opens_at f ]));
  dlsym = λ h name. pure (buffer (if str_eq name "sum" then 500 else 0));
  dlclose = λ h. pure (number 0);
  dlerror = pure (some (codes "libm.so: invalid ELF header"));
  read_file = λ file. pure (codes content);
  rtld_lazy = 1;
  rtld_now = 2;
  platform = "linux";
}

abbrev scripted : Linker toy
unfolding same_key
scripted = linker "GROUP ( libm.so.6 )"

abbrev circular : Linker toy
unfolding same_key
circular = linker "GROUP ( libm.so )"

dynamic_library-iff-Opens_example :
    ((n : ℕ) × (dynamic_library toy scripted n (some (codes "libm.so")) none scene
        ≡ (ok 900, scene)))
    ↔ Opens toy scripted (some (codes "libm.so")) 1 scene 900 scene
unfolding same_key
dynamic_library-iff-Opens_example =
    dynamic_library-iff-Opens toy scripted (some (codes "libm.so")) none scene scene 900

opened_by_script :
    dynamic_library toy scripted 2 (some (codes "libm.so")) none scene ≡ (ok 900, scene)
unfolding same_key dynamic_library require_pointer check_handle last_error match_error read_script
    follow elf_path elf_head elf_tail strip run_of skip group_file group_at group_list
opened_by_script = refl

circular-IsCycle : IsCycle toy circular (codes "libm.so") 1 (λ w. Unit)
unfolding same_key elf_path elf_head elf_tail strip run_of skip group_file group_at group_list
circular-IsCycle = record {
  after = λ w. w;
  script = λ w k. record {
    failed = w;
    told = w;
    err = codes "libm.so: invalid ELF header";
    file = codes "libm.so";
    content = codes "GROUP ( libm.so )";
    null_handle = refl;
    error = refl;
    names = refl;
    read = refl;
    group = refl;
  };
  again = λ w k. tt;
}

dynamic_library-overflows_example :
    (dynamic_library toy circular 100 (some (codes "libm.so")) (some 1) scene).0 ≡ overflow
unfolding same_key
dynamic_library-overflows_example =
    dynamic_library-overflows toy circular (codes "libm.so") 1 (λ w. Unit) circular-IsCycle 100
      scene tt

sum-IsFound : IsFound toy scripted 900 "sum" scene scene (record { address = 500; name = "sum" })
unfolding same_key get_symbol require_pointer check_symbol
sum-IsFound =
    (get_symbol-iff-IsFound toy scripted 900 "sum" scene scene
        (record { address = 500; name = "sum" })).0
      refl

abbrev sum_info : Info
sum_info = record {
  result_type = object int32_type;
  param_types = some (object int32_type ∷ object int32_type ∷ []);
  options = none;
}

sum-unchecked :
    define_function toy scripted 1 (codes "libm.so") 900 "sum" sum_info scene
    ≡ (get_symbol toy scripted 900 "sum" >>= λ s. make_member toy scripted 1 s.address sum_info)
        scene
unfolding same_key
sum-unchecked =
    define_function-eq-unchecked toy scripted 1 (codes "libm.so") 900 "sum" sum_info scene

with_ext_added : with_ext (codes ".so") (codes "libm") ≡ codes "libm.so"
unfolding with_ext contains is_prefix
with_ext_added = refl

abbrev sum_lib : Members ToyBuf
sum_lib = ("sum", sync sum) ∷ []

sum_loaded :
    library toy scripted 2 (some (codes "libm")) (("sum", sum_info) ∷ []) [] scene
    ≡ (ok sum_lib, scene)
unfolding same_key dynamic_library require_pointer check_handle last_error match_error read_script
    follow elf_path elf_head elf_tail strip run_of skip group_file group_at group_list ext with_ext
    library_path contains is_prefix library define_functions define_function get_symbol check_symbol
    require_function_pointer make_member plain_member set_member ffi_type type_body shortcut
    complete require_array write_arg_types native_status check_status finish prepare cif each
    make_proxy proxy_for foreign_function
sum_loaded = refl

library-iff-IsLoaded_example :
    IsLoaded toy scripted 2 (some (codes "libm")) (("sum", sum_info) ∷ []) [] sum_lib scene scene
unfolding described
library-iff-IsLoaded_example =
    (library-iff-IsLoaded toy scripted 2 (some (codes "libm")) (("sum", sum_info) ∷ []) [] sum_lib
        scene scene (refl, tt)).0
      sum_loaded

library-call_example :
    IsLinkedCall toy scripted 2
      (some (codes "libm.so"))
      "sum"
      sum_info
      (object int32_type ∷ object int32_type ∷ [])
      sum
      numbers
      scene
      scene
      summed
      (number 5)
unfolding same_key described info_of member call marshal invoke ext with_ext library_path contains
    is_prefix
library-call_example =
    library-call toy scripted toy-IsLawful (omega arith) 2 (some (codes "libm"))
      (("sum", sum_info) ∷ []) [] sum_lib "sum" sum_info
      (object int32_type ∷ object int32_type ∷ []) numbers sum scene scene scene summed (number 5)
      (refl, tt) sum_loaded refl refl refl refl
