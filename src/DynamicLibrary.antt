-- ===== src/DynamicLibrary.antt =====
-- lib/dynamic_library.js: libraries that are loaded at run time, and their symbols.
pub mod Followed
pub mod Opens
pub mod Symbols
pub mod Cycle
pub mod Flags
pub mod Proxies
pub mod Reached
use node_ffi.Base.{
  ℕ, zero, suc, String, Bool, List, [], ◌∷◌, Option, none, some, ◌==◌, not, if◌then◌else◌,
}
use node_ffi.Value.{
  Ptr, Value, buffer, Failure, failure, Kind.assertion_error, Kind.plain_error, Kind.type_error,
  Message, Message.assertion, Message.dynamic_linking, Message.symbol_retrieval, Message.text,
}
use node_ffi.World.{
  World, Js, pure, raise, exhausted, assert, ◌>>=◌, ◌>>◌, Properties, define_property,
}
use node_ffi.Platform.{Platform}
use node_ffi.Text.{Text, codes, is_prefix, elf_path, group_file}

-- The functions of libc that the code calls by proxies, with what these convert: a path or none, a
-- pointer as a Buffer, a text or null. And of Node, `fs.readFileSync(file, 'ascii')`, the `RTLD` flags
-- of the bindings, and `process.platform`.
pub record Linker (p : Platform) : Type 0 where
  pub dlopen : Option Text → ℕ → Js p.Native Value
  pub dlsym : Ptr → String → Js p.Native Value
  pub dlclose : Ptr → Js p.Native Value
  pub dlerror : Js p.Native (Option Text)
  pub read_file : Text → Js p.Native Text
  pub rtld_lazy : ℕ
  pub rtld_now : ℕ
  pub platform : String

-- `/^RTLD_/.test(k)`
abbrev pub is_flag : String → Bool
is_flag k = is_prefix (codes "RTLD_") (codes k)

-- One turn of the loop over the keys of the bindings.
unfoldable pub copy_flag : {D : Type 0} → Properties D → String → Properties D → Properties D
copy_flag {D} bindings k flags =
    let copied : Properties D = elim (bindings k) [
      | none ↦ flags
      | some desc ↦ define_property k desc flags
    ] in
    if is_flag k then copied else flags

-- `DynamicLibrary.FLAGS`
unfoldable pub copy_flags : {D : Type 0} → Properties D → List String → Properties D → Properties D
copy_flags bindings [] flags = flags
copy_flags bindings (k ∷ keys) flags = copy_flags bindings keys (copy_flag bindings k flags)

-- The Buffer that `get` returns, with its property `name`.
pub record Symbol : Type 0 where
  pub address : Ptr
  pub name : String

abbrev pub no_handle : Message
no_handle = text "expected a Buffer instance to be returned from `dlopen()`"

module _ (p : Platform) (l : Linker p) where
  open p use {Native}

  -- `assert(Buffer.isBuffer(v), ...)`
  unfoldable pub require_pointer : Value → Failure → Js Native Ptr
  require_pointer (buffer q) e = pure q
  require_pointer _ e = raise e

  -- `if (null == mode) mode = RTLD_LAZY`
  abbrev pub or_lazy : Option ℕ → ℕ
  or_lazy none = l.rtld_lazy
  or_lazy (some m) = m

  -- `error()`
  unfoldable pub last_error : Js Native (Option Text)
  last_error = l.dlerror

  -- Whether there is a `GROUP` in the file: the constructor is called again with its first file.
  unfoldable pub follow : (Text → Js Native Ptr) → Text → Option Text → Js Native Ptr
  follow rec err none = raise (failure plain_error (dynamic_linking err))
  follow rec err (some file) = rec file

  -- Whether the error names a file.
  unfoldable pub read_script : (Text → Js Native Ptr) → Text → Option Text → Js Native Ptr
  read_script rec err none = raise (failure plain_error (dynamic_linking err))
  read_script rec err (some file) = do
    content ← l.read_file file
    follow rec err (group_file content)

  -- `err.match(...)`, which throws where there is no text
  unfoldable pub match_error : (Text → Js Native Ptr) → Option Text → Js Native Ptr
  match_error rec none = raise (failure type_error (text "Cannot read property 'match' of null"))
  match_error rec (some err) = read_script rec err (elf_path err)

  -- The handle is there, or it is NULL and the error may lead to a linker script.
  unfoldable pub check_handle : (Text → Js Native Ptr) → Ptr → Js Native Ptr
  check_handle rec zero = do err ← last_error; match_error rec err
  check_handle rec (suc q) = pure (suc q)

  -- `DynamicLibrary(path, mode)`: the handle. Each linker script that is followed takes fuel.
  unfoldable pub dynamic_library : (fuel : ℕ) → Option Text → Option ℕ → Js Native Ptr
  dynamic_library zero path mode = exhausted
  dynamic_library (suc n) path mode = do
    v ← l.dlopen path (or_lazy mode)
    handle ← require_pointer v (failure assertion_error no_handle)
    check_handle (λ file. dynamic_library n (some file) (some (or_lazy mode))) handle

  -- `close()`
  unfoldable pub close : Ptr → Js Native Value
  close handle = l.dlclose handle

  unfoldable pub check_symbol : String → Ptr → Js Native Symbol
  check_symbol symbol zero = do err ← last_error; raise (failure plain_error (symbol_retrieval err))
  check_symbol symbol (suc q) = pure (record { address = suc q; name = symbol })

  -- `get(symbol)`, for a symbol that is a string, which the code asserts of it
  unfoldable pub get_symbol : Ptr → String → Js Native Symbol
  get_symbol handle symbol = do
    v ← l.dlsym handle symbol
    q ← require_pointer v (failure assertion_error assertion)
    check_symbol symbol q
