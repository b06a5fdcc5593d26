-- ===== src/DynamicLibrary/Proxies.antt =====
-- lib/dynamic_library.js, its head: the proxies for the functions of libc, made by the library's own
-- `ForeignFunction()`, and the linker that they are.
use node_ffi.Base.{ℕ, String, Option, none, some, [], ◌∷◌}
use node_ffi.Value.{Ptr, Value, undefined, null, number, buffer, Value.string}
use node_ffi.World.{Js, pure, ◌>>=◌}
use node_ffi.Platform.{Platform}
use node_ffi.ForeignFunction.{Proxy, call, foreign_function}
use node_ffi.Text.{Text, codes}
use node_ffi.DynamicLibrary.{Linker}

-- `bindings.StaticFunctions`, the types `ref.refType(ref.types.void)` and `ref.types.int`, the string
-- with given codes, and the rest of what a `Linker` has from Node and the bindings.
pub record Host (p : Platform) : Type 0 where
  pub dlopen : Ptr
  pub dlclose : Ptr
  pub dlsym : Ptr
  pub dlerror : Ptr
  pub void_ptr : Value
  pub int : Value
  pub spell : Text → String
  pub read_file : Text → Js p.Native Text
  pub rtld_lazy : ℕ
  pub rtld_now : ℕ
  pub platform : String

-- The four variables of the module.
pub record Functions (B : Type 0) : Type 0 where
  pub dlopen : Proxy B
  pub dlclose : Proxy B
  pub dlsym : Proxy B
  pub dlerror : Proxy B

module _ (p : Platform) (h : Host p) where
  open p use {Buf, Native}

  -- `dlopen`, `dlclose`, `dlsym` and `dlerror`, in this order
  unfoldable pub static_functions : (fuel : ℕ) → Js Native (Functions Buf)
  static_functions fuel = do
    dlopen ←
        foreign_function p fuel (buffer h.dlopen) h.void_ptr (some (string "string" ∷ h.int ∷ []))
          undefined
    dlclose ← foreign_function p fuel (buffer h.dlclose) h.int (some (h.void_ptr ∷ [])) undefined
    dlsym ←
        foreign_function p fuel (buffer h.dlsym) h.void_ptr
          (some (h.void_ptr ∷ string "string" ∷ [])) undefined
    dlerror ← foreign_function p fuel (buffer h.dlerror) (string "string") (some []) undefined
    pure (record { dlopen = dlopen; dlclose = dlclose; dlsym = dlsym; dlerror = dlerror })

  -- A path as it is handed on, `null` where there is none.
  abbrev pub path_value : Option Text → Value
  path_value none = null
  path_value (some path) = string (h.spell path)

  -- What `dlerror()` returns: of ref's type for C strings a value is a string or null.
  abbrev pub error_text : Value → Option Text
  error_text (string s) = some (codes s)
  error_text _ = none

  -- The calls in `DynamicLibrary()`, `close()`, `get()` and `error()`.
  abbrev pub linked : Functions Buf → Linker p
  linked fs = record {
    dlopen = λ path mode. call p fs.dlopen (path_value path ∷ number mode ∷ []);
    dlsym = λ handle symbol. call p fs.dlsym (buffer handle ∷ string symbol ∷ []);
    dlclose = λ handle. call p fs.dlclose (buffer handle ∷ []);
    dlerror = (do v ← call p fs.dlerror []; pure (error_text v));
    read_file = h.read_file;
    rtld_lazy = h.rtld_lazy;
    rtld_now = h.rtld_now;
    platform = h.platform;
  }
