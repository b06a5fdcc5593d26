-- ===== src/Cif.antt =====
-- lib/cif.js and lib/cif_var.js: the `ffi_cif` of a function, plain and variadic.
pub mod ArgTypes
pub mod Status
pub mod Prepared
pub mod Returns
pub mod Fuel
pub mod Errors
pub mod Frame
use node_ffi.Base.{ℕ, ◌+◌, ◌*◌, Option, none, some, List, [], ◌∷◌, length, ltb, ◌==◌, if◌then◌else◌}
use node_ffi.Value.{
  Ptr, Value, undefined, truthy, Message, Message.expected_return_type, Message.expected_arg_types,
  Message.expected_fixed_args, Message.bad_typedef, Message.bad_abi, Message.prep_cif_failed,
  Kind.assertion_error, Kind.plain_error, Failure, failure, ok,
}
use node_ffi.World.{World, Js, pure, raise, assert, ◌>>=◌, ◌>>◌}
use node_ffi.Platform.{Platform}
use node_ffi.FfiType.{ffi_type}

-- The `ffi_cif *` Buffer, with the Buffers that are kept as its properties.
pub record CifBuffer (B : Type 0) : Type 0 where
  pub buffer : B
  pub rtn_type_ptr : Ptr
  pub arg_types_ptr : B

-- `assert(Array.isArray(types), ...)`, where `none` is no array
unfoldable pub require_array : {N : Type 0} → Option (List Value) → Js N (List Value)
require_array none = raise (failure assertion_error expected_arg_types)
require_array (some types) = pure types

module _ (p : Platform) where
  open p use {Buf, Native}

  -- The loop over the argument types; `rec` is `Type()`.
  unfoldable pub write_arg_types : (Value → Js Native Ptr) → List Value → ℕ → Buf → Js Native Buf
  write_arg_types rec [] i b = pure b
  write_arg_types rec (v ∷ types) i b = do
    q ← rec v
    write_arg_types rec types (i + 1) (p.write_pointer b q (i * p.pointer_size))

  -- `if (typeof abi === 'undefined') abi = FFI_DEFAULT_ABI`
  abbrev pub or_default_abi : Value → Value
  or_default_abi undefined = p.ffi_default_abi
  or_default_abi abi = abi

  -- A call of libffi that gives a status and the contents of the cif Buffer.
  unfoldable pub native_status : (Native → ℕ × Buf × Native) → Js Native (ℕ × Buf)
  native_status call w =
      let (status, b, native) = call w.native in (ok (status, b), record w { native = native })

  -- The `switch` on a status other than `FFI_OK`, in cif.js.
  unfoldable pub check_status : ℕ → Js Native (Unit {0})
  check_status status =
      if status == p.ffi_ok
      then pure tt
      else if status == p.ffi_bad_typedef
      then raise (record {
        kind = plain_error;
        message = bad_typedef "ffi_prep_cif()";
        code = some "FFI_BAD_TYPEDEF";
        errno = some status;
      })
      else if status == p.ffi_bad_abi
      then raise (record {
        kind = plain_error;
        message = bad_abi "ffi_prep_cif()";
        code = some "FFI_BAD_ABI";
        errno = some status;
      })
      else raise (failure plain_error (prep_cif_failed "ffi_prep_cif()" status))

  -- The same in cif_var.js, where the last error has an `errno` too.
  unfoldable pub check_status_var : ℕ → Js Native (Unit {0})
  check_status_var status =
      if status == p.ffi_ok
      then pure tt
      else if status == p.ffi_bad_typedef
      then raise (record {
        kind = plain_error;
        message = bad_typedef "ffi_prep_cif_var()";
        code = some "FFI_BAD_TYPEDEF";
        errno = some status;
      })
      else if status == p.ffi_bad_abi
      then raise (record {
        kind = plain_error;
        message = bad_abi "ffi_prep_cif_var()";
        code = some "FFI_BAD_ABI";
        errno = some status;
      })
      else raise (record {
        kind = plain_error;
        message = prep_cif_failed "ffi_prep_cif_var()" status;
        code = none;
        errno = some status;
      })

  -- The end of both functions: the call, the check of its status, and the Buffer.
  unfoldable pub finish :
      (Native → ℕ × Buf × Native)
      → (ℕ → Js Native (Unit {0}))
      → Ptr
      → Buf
      → Js Native (CifBuffer Buf)
  finish call check rtn_type arg_types = do
    (status, b) ← native_status call
    check status
    pure (record { buffer = b; rtn_type_ptr = rtn_type; arg_types_ptr = arg_types })

  -- What both do between their assertions and the call; `fuel` is that of `Type()`.
  unfoldable pub prepare :
      (ℕ → Ptr → Buf → Native → ℕ × Buf × Native)
      → (ℕ → Js Native (Unit {0}))
      → (fuel : ℕ) → Value
      → List Value
      → Js Native (CifBuffer Buf)
  prepare call check fuel rtype types = do
    rtn_type ← ffi_type p fuel rtype
    arg_types ←
        write_arg_types (ffi_type p fuel) types 0 (p.new_buffer (length types * p.pointer_size))
    finish (call (length types) rtn_type arg_types) check rtn_type arg_types

  -- The calls of the bindings, each with a fresh cif Buffer.
  abbrev pub prep_cif : Value → ℕ → Ptr → Buf → Native → ℕ × Buf × Native
  prep_cif abi n rtype types =
      p.ffi_prep_cif (p.new_buffer p.ffi_cif_size) n rtype types (or_default_abi abi)

  abbrev pub prep_cif_var : Value → ℕ → ℕ → Ptr → Buf → Native → ℕ × Buf × Native
  prep_cif_var abi fixed n rtype types =
      p.ffi_prep_cif_var (p.new_buffer p.ffi_cif_size) fixed n rtype types (or_default_abi abi)

  -- `CIF(rtype, types, abi)`
  unfoldable pub cif : (fuel : ℕ) → Value → Option (List Value) → Value → Js Native (CifBuffer Buf)
  cif fuel rtype types abi = do
    assert (truthy rtype) expected_return_type
    list ← require_array types
    prepare (prep_cif abi) check_status fuel rtype list

  -- `CIF_var(rtype, types, numFixedArgs, abi)`
  unfoldable pub cif_var :
      (fuel : ℕ) → Value → Option (List Value) → ℕ → Value → Js Native (CifBuffer Buf)
  cif_var fuel rtype types num_fixed abi = do
    assert (truthy rtype) expected_return_type
    list ← require_array types
    assert (ltb 0 num_fixed) expected_fixed_args
    prepare (prep_cif_var abi num_fixed) check_status_var fuel rtype list
