-- ===== src/Library.antt =====
-- lib/library.js: a library as an object whose properties are its functions.
pub mod Extension
pub mod Members
pub mod Defined
pub mod Loaded
pub mod Called
use node_ffi.Base.{
  ℕ, String, Bool, true, false, not, Option, none, some, List, [], ◌∷◌, ◌++◌, str_eq, ◌==◌,
  if◌then◌else◌,
}
use node_ffi.Value.{
  Ptr, Value, undefined, buffer, truthy, failure, Kind.plain_error, Message.null_function,
}
use node_ffi.World.{World, Js, pure, raise, ◌>>=◌, ◌>>◌}
use node_ffi.Platform.{Platform}
use node_ffi.ForeignFunction.{Proxy, foreign_function}
use node_ffi.Variadic.{Generator, variadic_foreign_function}
use node_ffi.Text.{Text, codes, contains}
use node_ffi.DynamicLibrary.{Linker, Symbol, dynamic_library, get_symbol}

-- `Library.EXT`: the entry of `process.platform`, where there is one
unfoldable pub ext : String → Option Text
ext s =
    if str_eq s "linux"
    then some (codes ".so")
    else if str_eq s "linux2"
    then some (codes ".so")
    else if str_eq s "sunos"
    then some (codes ".so")
    else if str_eq s "solaris"
    then some (codes ".so")
    else if str_eq s "freebsd"
    then some (codes ".so")
    else if str_eq s "openbsd"
    then some (codes ".so")
    else if str_eq s "darwin"
    then some (codes ".dylib")
    else if str_eq s "mac"
    then some (codes ".dylib")
    else if str_eq s "win32"
    then some (codes ".dll")
    else none

-- `undefined` where a text is wanted.
abbrev pub as_text : Option Text → Text
as_text none = codes "undefined"
as_text (some t) = t

-- `if (libfile && libfile.indexOf(EXT) === -1) libfile += EXT`, for a name that is not empty
unfoldable pub with_ext : Text → Text → Text
with_ext e file = if contains e file then file else file ++ e

-- `libfile || null`, with the extension; `none` is no name, or an empty one
unfoldable pub library_path : Text → Option Text → Option Text
library_path e none = none
library_path e (some []) = none
library_path e (some (c ∷ s)) = some (with_ext e (c ∷ s))

-- `libfile` itself as a text, after that step
abbrev pub shown_path : Text → Option Text → Text
shown_path e none = codes "undefined"
shown_path e (some []) = []
shown_path e (some (c ∷ s)) = with_ext e (c ∷ s)

-- `fopts`
pub record Options : Type 0 where
  pub abi : Value
  pub async : Value
  pub varargs : Value

-- The array that describes a function.
pub record Info : Type 0 where
  pub result_type : Value
  pub param_types : Option (List Value)
  pub options : Option Options

-- `fopts && fopts.abi`, and so on
abbrev pub abi_of : Option Options → Value
abi_of none = undefined
abi_of (some o) = o.abi

abbrev pub async_of : Option Options → Value
async_of none = undefined
async_of (some o) = o.async

abbrev pub varargs_of : Option Options → Value
varargs_of none = undefined
varargs_of (some o) = o.varargs

-- What is put on the library object: `ff`, `ff.async`, or a generator.
pub data Member (B : Type 0) : Type 0 where
  sync : Proxy B → Member B
  async : Proxy B → Member B
  variadic : Generator B → Member B

abbrev pub Members : Type 0 → Type 0
Members B = List (String × Member B)

-- `lib[func] = member`
unfoldable pub set_member : {B : Type 0} → String → Member B → Members B → Members B
set_member k m [] = (k, m) ∷ []
set_member k m ((j, x) ∷ lib) = if str_eq j k then (k, m) ∷ lib else (j, x) ∷ set_member k m lib

-- `lib[func]`
unfoldable pub member : {B : Type 0} → String → Members B → Option (Member B)
member k [] = none
member k ((j, x) ∷ lib) = if str_eq j k then some x else member k lib

module _ (p : Platform) (l : Linker p) where
  open p use {Buf, Native}

  -- `if (fptr.isNull()) throw ...`
  unfoldable pub require_function_pointer : Text → String → Ptr → Js Native (Unit {0})
  require_function_pointer file name q =
      if q == 0 then raise (failure plain_error (null_function file name)) else pure tt

  unfoldable pub variadic_member : Ptr → Info → Js Native (Member Buf)
  variadic_member q info = do
    g ←
        variadic_foreign_function p (buffer q) info.result_type info.param_types
          (abi_of info.options)
    pure (variadic g)

  -- `lib[func] = async ? ff.async : ff`
  unfoldable pub plain_member : (fuel : ℕ) → Ptr → Info → Js Native (Member Buf)
  plain_member fuel q info = do
    f ← foreign_function p fuel (buffer q) info.result_type info.param_types (abi_of info.options)
    pure (if truthy (async_of info.options) then async f else sync f)

  unfoldable pub make_member : (fuel : ℕ) → Ptr → Info → Js Native (Member Buf)
  make_member fuel q info =
      if truthy (varargs_of info.options) then variadic_member q info else plain_member fuel q info

  -- One turn of the `forEach`.
  unfoldable pub define_function : (fuel : ℕ) → Text → Ptr → String → Info → Js Native (Member Buf)
  define_function fuel file handle name info = do
    s ← get_symbol p l handle name
    require_function_pointer file name s.address
    make_member fuel s.address info

  unfoldable pub define_functions :
      (fuel : ℕ) → Text → Ptr → List (String × Info) → Members Buf → Js Native (Members Buf)
  define_functions fuel file handle [] lib = pure lib
  define_functions fuel file handle ((name, info) ∷ funcs) lib = do
    m ← define_function fuel file handle name info
    define_functions fuel file handle funcs (set_member name m lib)

  -- `Library(libfile, funcs, lib)`; `funcs` in the order of `Object.keys`, none if there are none. The
  -- fuel is that of `DynamicLibrary()` and of `Type()`.
  unfoldable pub library :
      (fuel : ℕ) → Option Text → List (String × Info) → Members Buf → Js Native (Members Buf)
  library fuel libfile funcs lib = do
    let e = as_text (ext l.platform)
    handle ← dynamic_library p l fuel (library_path e libfile) (some l.rtld_now)
    define_functions fuel (shown_path e libfile) handle funcs lib
