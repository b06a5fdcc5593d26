-- ===== src/Errno.antt =====
-- lib/errno.js: the function `errno`, on Windows and elsewhere.
pub mod Source
use node_ffi.Base.{
  ℕ, String, Bool, true, false, Option, none, some, List, [], str_eq, if◌then◌else◌,
}
use node_ffi.Value.{Ptr, Value, undefined, buffer, Value.string}
use node_ffi.World.{World, Js, pure, ◌>>=◌}
use node_ffi.Platform.{Platform}
use node_ffi.ForeignFunction.{Proxy, call, foreign_function}
use node_ffi.Text.{codes}
use node_ffi.DynamicLibrary.{Linker, dynamic_library, get_symbol}

-- What is exported: the proxy itself, or a function that reads the number at the pointer that the
-- proxy returns.
pub data Errno (B : Type 0) : Type 0 where
  at_pointer : Proxy B → Errno B
  direct : Proxy B → Errno B

-- `funcs._errno` of the addon, `ref.refType(int)`, and `deref` of a pointer that a proxy returned are
-- parameters.
module _ (p : Platform) (l : Linker p) (errno_function : Ptr) (int_pointer : Value)
    (deref_pointer : Value → Js p.Native Value) where
  open p use {Buf, Native}

  unfoldable pub windows_errno : (fuel : ℕ) → Js Native (Errno Buf)
  windows_errno fuel = do
    handle ← dynamic_library p l fuel (some (codes "msvcrt.dll")) none
    s ← get_symbol p l handle "_errno"
    f ← foreign_function p fuel (buffer s.address) int_pointer (some []) undefined
    pure (at_pointer f)

  unfoldable pub other_errno : (fuel : ℕ) → Js Native (Errno Buf)
  other_errno fuel = do
    f ← foreign_function p fuel (buffer errno_function) (string "int") (some []) undefined
    pure (direct f)

  -- The module, from line 10 on.
  unfoldable pub make_errno : (fuel : ℕ) → Js Native (Errno Buf)
  make_errno fuel = if str_eq l.platform "win32" then windows_errno fuel else other_errno fuel

  -- `errno(...)`
  unfoldable pub errno : Errno Buf → List Value → Js Native Value
  errno (at_pointer f) args = do v ← call p f []; deref_pointer v
  errno (direct f) args = call p f args
