-- ===== src/FunctionType.antt =====
-- lib/function.js: the types of C function pointers.
pub mod Linked
pub mod Prototype
use node_ffi.Base.{ℕ, Bool, Option, none, some, List, map, ◌==◌, if◌then◌else◌}
use node_ffi.Value.{
  Ptr, Value, undefined, null, func, buffer, object, truthy, Failure, failure, ok, Kind.plain_error,
  Message.expected_return_type, Message.unknown_callback,
}
use node_ffi.World.{World, Js, pure, raise, assert, ◌>>=◌, ◌>>◌, set_ffi_type}
use node_ffi.Platform.{Platform}
use node_ffi.Cif.{require_array}
use node_ffi.Cif.ArgTypes.{each}
use node_ffi.ForeignFunction.{Proxy, foreign_function}
use node_ffi.Callback.{Callback, Closures, callback}

-- The own properties of a function type.
pub record FunctionType : Type 0 where
  pub ret_type : ℕ
  pub arg_types : List ℕ
  pub abi : Value

module _ (p : Platform) where
  open p use {Buf, Native}

  -- The assignments to `Function.prototype`, the object `proto`; nothing here reads an alignment.
  unfoldable pub set_prototype : ℕ → Js Native (Unit {0})
  set_prototype proto w =
      let properties = record (w.types proto) {
        size = some p.pointer_size;
        indirection = some 1;
      } in
      let w' = set_ffi_type proto (p.ffi_types "pointer") w in
      (ok tt, record w' { types = λ o. if o == proto then properties else w.types o })

  -- `null == abi ? bindings.FFI_DEFAULT_ABI : abi`
  abbrev pub abi_or_default : Value → Value
  abi_or_default undefined = p.ffi_default_abi
  abi_or_default null = p.ffi_default_abi
  abi_or_default abi = abi

  -- `new Function(retType, argTypes, abi)`
  unfoldable pub function_type : Value → Option (List Value) → Value → Js Native FunctionType
  function_type ret_type arg_types abi = do
    assert (truthy ret_type) expected_return_type
    list ← require_array arg_types
    rtn ← p.coerce_type ret_type
    args ← each p.coerce_type list
    pure (record { ret_type = rtn; arg_types = args; abi = abi_or_default abi })

  -- `toFunction(buf)`
  unfoldable pub to_function : (fuel : ℕ) → FunctionType → Value → Js Native (Proxy Buf)
  to_function fuel t b =
      foreign_function p fuel b (object t.ret_type) (some (map object t.arg_types)) t.abi

  -- `get(buffer, offset)`
  unfoldable pub get : (fuel : ℕ) → FunctionType → Buf → ℕ → Js Native (Proxy Buf)
  get fuel t b offset = to_function fuel t (buffer (p.read_pointer b offset))

  module _ (c : Closures p) where
    -- `toPointer(fn)`
    unfoldable pub to_pointer : (fuel : ℕ) → FunctionType → Value → Js Native (Callback Buf)
    to_pointer fuel t f =
        callback p c fuel (object t.ret_type) (some (map object t.arg_types)) t.abi f

    -- The pointer that `set` writes.
    unfoldable pub pointer_for : (fuel : ℕ) → FunctionType → Value → Js Native Ptr
    pointer_for fuel t (func k) = do cb ← to_pointer fuel t (func k); pure cb.code
    pointer_for fuel t (buffer q) = pure q
    pointer_for fuel t v = raise (failure plain_error (unknown_callback v))

    -- `set(buffer, offset, value)`
    unfoldable pub set : (fuel : ℕ) → FunctionType → Buf → ℕ → Value → Js Native Buf
    set fuel t b offset value = do q ← pointer_for fuel t value; pure (p.write_pointer b q offset)
