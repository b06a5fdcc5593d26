-- ===== src/Tests/Linking.antt =====
-- The proxies for the functions of libc, on a platform that stores texts and pointers too.
use node_ffi.Base.{
  ap, ℕ, ◌+◌, ◌≡◌, ◌≢◌, refl, ◌↔◌, none, some, List, [], ◌∷◌, arith, ◌==◌, if◌then◌else◌,
}
use node_ffi.Value.{
  Ptr, Value, undefined, null, number, buffer, object, Value.string, ok, thrown, overflow, failure,
  Kind.type_error, Message.text,
}
use node_ffi.World.{World, Js, pure}
use node_ffi.Platform.{Platform, IsLawful}
use node_ffi.FfiType.{ffi_type, type_body, shortcut, complete}
use node_ffi.Cif.{require_array, write_arg_types, native_status, check_status, finish, prepare, cif}
use node_ffi.Cif.ArgTypes.{each}
use node_ffi.ForeignFunction.{Proxy, make_proxy, marshal, invoke, call, proxy_for, foreign_function}
use node_ffi.DynamicLibrary.{
  require_pointer, check_handle, dynamic_library, check_symbol, get_symbol,
}
use node_ffi.DynamicLibrary.Proxies.{Host, Functions, static_functions, linked}
use node_ffi.DynamicLibrary.Reached.{IsMade, IsReached, static_functions-get_symbol}
use node_ffi.Tests.Toy.{ToyBuf, Process, toy_write, toy, toy-IsLawful}
use node_ffi.Tests.Scene.{scene, int32_type, array_type}

-- A type that is named is `int32_type`.
abbrev name_type : Value → Js Process ℕ
name_type (object t) w = (ok t, w)
name_type (string s) w = (ok int32_type, w)
name_type v w = (thrown (failure type_error (text "could not determine a type")), w)

abbrev keep : ℕ → Js Process Ptr
keep n w =
    let q = w.native.next in
    let cells = λ (i : Ptr). if i == q then n else w.native.cells i in
    (ok q, record w { native = record (w.native) { next = q + 8; cells = cells } })

-- A text is put to storage as a zero.
abbrev put_down : ℕ → Value → Js Process Ptr
put_down t (number n) = keep n
put_down t (buffer q) = keep q
put_down t _ = keep 0

-- `array_type` stands for `void *`.
abbrev pick_up : ToyBuf → ℕ → Js Process Value
pick_up b t = pure (if t == array_type then buffer (b.at 0) else number (b.at 0))

-- `dlopen` gives 900, `dlsym` of that handle gives 500, and all else is NULL.
abbrev libc : ToyBuf → Ptr → ToyBuf → ToyBuf → Js Process ToyBuf
libc cif f result args w =
    let symbol = if w.native.cells (args.at 0) == 900 then 500 else 0 in
    (ok (toy_write result (if f == 701 then 900 else if f == 703 then symbol else 0) 0), w)

abbrev linking : Platform
linking = record toy { coerce_type = name_type; alloc = put_down; deref = pick_up; ffi_call = libc }

name_type-ends : (v : Value) (w : World Process) → (name_type v w).0 ≢ overflow
name_type-ends (object t) w = λ e. cc e
name_type-ends (string s) w = λ e. cc e
name_type-ends _ w = λ e. cc e

same-name_type : (v : Value) (w : World Process) → (name_type v w).1 ≡ w
same-name_type (object t) w = refl
same-name_type (string s) w = refl
same-name_type _ w = refl

linking-IsLawful : IsLawful linking
linking-IsLawful = record {
  pointer_size_pos = toy-IsLawful.pointer_size_pos;
  length-new_buffer = toy-IsLawful.length-new_buffer;
  length-write_pointer = toy-IsLawful.length-write_pointer;
  read-write_self = toy-IsLawful.read-write_self;
  read-write_apart = toy-IsLawful.read-write_apart;
  coerce_type-object = λ t w h k. refl;
  coerce_type-ends = name_type-ends;
  coerce_type-same = λ t u w e. cc e;
  coerce_type-absent = λ u w e. cc e;
  load-new_ffi_type = toy-IsLawful.load-new_ffi_type;
  types-coerce_type = λ v w. ap (λ (x : World Process). x.types) (same-name_type v w);
  ids-coerce_type = λ v w. ap (λ (x : World Process). x.ffi_id) (same-name_type v w);
  random-coerce_type = λ v w. ap (λ (x : World Process). x.random) (same-name_type v w);
  pointer_listed = toy-IsLawful.pointer_listed;
}

abbrev host : Host linking
host = record {
  dlopen = 701;
  dlclose = 702;
  dlsym = 703;
  dlerror = 704;
  void_ptr = object array_type;
  int = object int32_type;
  spell = λ t. "";
  read_file = λ file. pure [];
  rtld_lazy = 1;
  rtld_now = 2;
  platform = "linux";
}

-- A proxy whose cif Buffer starts with the `ffi_type` of its result.
abbrev proxy_of : Ptr → ℕ → Ptr → List ℕ → ToyBuf → Proxy ToyBuf
proxy_of q rtn rtn_ptr args types = record {
  cif = record {
    buffer = toy_write (linking.new_buffer 32) rtn_ptr 0;
    rtn_type_ptr = rtn_ptr;
    arg_types_ptr = types;
  };
  func_ptr = q;
  return_type = rtn;
  arg_types = args;
  result_size = 8;
}

abbrev functions : Functions ToyBuf
functions = record {
  dlopen =
      proxy_of 701 array_type 4 (int32_type ∷ int32_type ∷ [])
        (toy_write (toy_write (linking.new_buffer 16) 3 0) 3 8);
  dlclose = proxy_of 702 int32_type 3 (array_type ∷ []) (toy_write (linking.new_buffer 8) 4 0);
  dlsym =
      proxy_of 703 array_type 4 (array_type ∷ int32_type ∷ [])
        (toy_write (toy_write (linking.new_buffer 16) 4 0) 3 8);
  dlerror = proxy_of 704 int32_type 3 [] (linking.new_buffer 0);
}

-- The state after the two arguments of `dlsym` were put to storage.
abbrev searched : World Process
searched = (put_down int32_type undefined (put_down array_type (buffer 900) scene).1).1

-- The head of the module, then an opened library, then its symbol.
opened_and_found :
    dynamic_library linking (linked linking host functions) 1 (some []) none scene
    ≡ (ok 900, (put_down int32_type (number 1) (put_down int32_type null scene).1).1)
unfolding dynamic_library require_pointer check_handle call marshal invoke
opened_and_found = refl

static_functions-get_symbol_example :
    IsMade linking host 1 scene scene functions
    × ((get_symbol linking (linked linking host functions) 900 "sum" scene
          ≡ (ok (record { address = 500; name = "sum" }), searched))
        ↔ IsReached linking host functions 900 "sum" scene searched
            (record { address = 500; name = "sum" }))
unfolding ffi_type type_body shortcut complete require_array write_arg_types native_status
    check_status finish prepare cif each make_proxy proxy_for foreign_function static_functions
static_functions-get_symbol_example =
    static_functions-get_symbol linking host linking-IsLawful (omega arith) 1 scene scene functions
      900 "sum" scene searched (record { address = 500; name = "sum" }) refl

found_by_call :
    get_symbol linking (linked linking host functions) 900 "sum" scene
    ≡ (ok (record { address = 500; name = "sum" }), searched)
unfolding require_pointer check_symbol get_symbol call marshal invoke
found_by_call = refl
