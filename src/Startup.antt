-- ===== src/Startup.antt =====
-- lib/ffi.js: what is done once, when the package is loaded.
pub mod Exports
pub mod Effects
pub mod Table
pub mod Types
use node_ffi.Base.{
  ℕ, String, Bool, true, false, not, ◌&&◌, ◌||◌, Option, none, some, or_else, List, [], ◌∷◌, str_eq,
  ◌==◌, if◌then◌else◌,
}
use node_ffi.Value.{
  Ptr, ok, failure, Kind.type_error, Kind.plain_error, Message.unsupported_long, Message.text,
}
use node_ffi.World.{World, Js, pure, raise, ◌>>=◌, ◌>>◌, set_ffi_type, Properties, define_property}
use node_ffi.Platform.{Platform}

-- The names in the list of exports; `forEach` skips the hole behind `'FFI_TYPES',`.
abbrev pub export_names : List String
export_names =
    "HAS_OBJC" ∷ "FFI_TYPES" ∷ "FFI_OK" ∷ "FFI_BAD_TYPEDEF" ∷ "FFI_BAD_ABI" ∷ "FFI_DEFAULT_ABI"
    ∷ "FFI_FIRST_ABI" ∷ "FFI_LAST_ABI" ∷ "FFI_SYSV" ∷ "FFI_UNIX64" ∷ "FFI_WIN64" ∷ "FFI_VFP"
    ∷ "FFI_STDCALL" ∷ "FFI_THISCALL" ∷ "FFI_FASTCALL" ∷ "RTLD_LAZY" ∷ "RTLD_NOW" ∷ "RTLD_LOCAL"
    ∷ "RTLD_GLOBAL" ∷ "RTLD_NOLOAD" ∷ "RTLD_NODELETE" ∷ "RTLD_FIRST" ∷ "RTLD_NEXT" ∷ "RTLD_DEFAULT"
    ∷ "RTLD_SELF" ∷ "RTLD_MAIN_ONLY" ∷ "FFI_MS_CDECL" ∷ []

module _ {D : Type 0} where
  -- One turn of the loop over the names: what the bindings do not have is skipped.
  unfoldable pub export_property : Properties D → String → Properties D → Properties D
  export_property bindings prop exports = elim (bindings prop) [
    | none ↦ exports
    | some desc ↦ define_property prop desc exports
  ]

  unfoldable pub export_all : Properties D → List String → Properties D → Properties D
  export_all bindings [] exports = exports
  export_all bindings (prop ∷ props) exports =
      export_all bindings props (export_property bindings prop exports)

-- `ref.types`, `bindings.version` and the exports of the other modules.
pub record Modules (D : Type 0) : Type 0 where
  pub types : D
  pub version : D
  pub cif : D
  pub cif_var : D
  pub function_type : D
  pub foreign_function : D
  pub variadic_foreign_function : D
  pub dynamic_library : D
  pub library : D
  pub callback : D
  pub errno : D
  pub type : D

module _ {D : Type 0} where
  -- Lines 72 to 85, each name with what is assigned to it.
  abbrev pub module_exports : Modules D → List (String × D)
  module_exports m =
      ("types", m.types)
      ∷ ("version", m.version)
      ∷ ("CIF", m.cif)
      ∷ ("CIF_var", m.cif_var)
      ∷ ("Function", m.function_type)
      ∷ ("ForeignFunction", m.foreign_function)
      ∷ ("VariadicForeignFunction", m.variadic_foreign_function)
      ∷ ("DynamicLibrary", m.dynamic_library)
      ∷ ("Library", m.library)
      ∷ ("Callback", m.callback)
      ∷ ("errno", m.errno)
      ∷ ("ffiType", m.type)
      ∷ []

  unfoldable pub assign_all : List (String × D) → Properties D → Properties D
  assign_all [] exports = exports
  assign_all ((k, d) ∷ rest) exports = assign_all rest (define_property k d exports)

  -- Lines 72 to 91; `property` is what is read from an object, or from undefined.
  unfoldable pub export_modules :
      (property : Option D → String → D) → Modules D → Properties D → Properties D
  export_modules property m exports =
      let exports1 = assign_all (module_exports m) exports in
      let exports2 = define_property "LIB_EXT" (property (exports1 "Library") "EXT") exports1 in
      define_property "FFI_TYPE" (property (exports2 "ffiType") "FFI_TYPE") exports2

-- The property `name` of the Buffers in `bindings.FFI_TYPES`, by their keys.
abbrev pub BufferNames : Type 0
BufferNames = String → Option String

-- `ref.types` is a parameter: the type object of a name, where there is one.
module _ (p : Platform) (types : String → Option ℕ) where
  open p use {Native}

  -- `t.ffi_type = q`, which throws where `t` is undefined
  unfoldable pub assign : Option ℕ → Option Ptr → Js Native (Unit {0})
  assign none q w =
      raise (failure type_error (text "Cannot set property 'ffi_type' of undefined")) w
  assign (some t) q w = (ok tt, set_ffi_type t q w)

  -- `type.name = name`
  abbrev pub name_buffer : String → BufferNames → BufferNames
  name_buffer name names k = if str_eq name k then some name else names k

  -- One turn of the loop over `Object.keys(bindings.FFI_TYPES)`.
  unfoldable pub set_builtin : String → BufferNames → Js Native BufferNames
  set_builtin name names =
      if str_eq name "pointer"
      then pure (name_buffer name names)
      else (do assign (types name) (p.ffi_types name); pure (name_buffer name names))

  unfoldable pub set_builtins : List String → BufferNames → Js Native BufferNames
  set_builtins [] names = pure names
  set_builtins (name ∷ keys) names = do names' ← set_builtin name names; set_builtins keys names'

  -- `ref.types.CString || ref.types.Utf8String`
  abbrev pub c_string : Option ℕ
  c_string = or_else (types "CString") (types "Utf8String")

  -- The `switch` on the size of a `long`.
  unfoldable pub set_long : Js Native (Unit {0})
  set_long =
      if p.long_size == 4
      then (do
        assign (types "ulong") (p.ffi_types "uint32")
        assign (types "long") (p.ffi_types "int32"))
      else if p.long_size == 8
      then (do
        assign (types "ulong") (p.ffi_types "uint64")
        assign (types "long") (p.ffi_types "int64"))
      else raise (failure plain_error (unsupported_long p.long_size))

  -- Lines 34 to 66, for the keys of `bindings.FFI_TYPES`.
  unfoldable pub set_ffi_types : List String → Js Native BufferNames
  set_ffi_types keys = do
    names ← set_builtins keys (λ k. none)
    assign (types "size_t") (p.ffi_types "pointer")
    assign c_string (p.ffi_types "pointer")
    assign (types "Object") (p.ffi_types "pointer")
    set_long
    pure names
