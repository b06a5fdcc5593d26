-- ===== src/Platform.antt =====
-- What the code takes from outside: the npm packages ref and ref-struct, the addon's bindings to
-- libffi, and Node's Buffer.
use node_ffi.Base.{ℕ, ◌+◌, ◌≤◌, ◌<◌, String, ◌≡◌, ◌≢◌, ◌⊎◌, Option, none, some}
use node_ffi.Value.{Ptr, Value, Value.undefined, Value.object, ok, overflow}
use node_ffi.World.{World, Js, size_of, indirection_of}

-- The `ffi_type` struct.
pub record FfiStruct (B : Type 0) : Type 0 where
  pub size : ℕ
  pub alignment : ℕ
  pub type : ℕ
  pub elements : B

pub record Platform : Type 1 where
  -- a Buffer with its contents, and the state of the process
  pub Buf : Type 0
  pub Native : Type 0
  -- `new Buffer(n)`, `buf.length`
  pub new_buffer : ℕ → Buf
  pub length : Buf → ℕ
  -- ref: `buf.writePointer(ptr, offset)`, `buf.readPointer(offset)`, `ref.sizeof`
  pub write_pointer : Buf → Ptr → ℕ → Buf
  pub read_pointer : Buf → ℕ → Ptr
  pub pointer_size : ℕ
  pub long_size : ℕ
  -- ref: `ref.coerceType(type)`, `ref.alloc(type, value)`, and `buf.deref()` at a given type
  pub coerce_type : Value → Js Native ℕ
  pub alloc : ℕ → Value → Js Native Ptr
  pub deref : Buf → ℕ → Js Native Value
  -- ref-struct: `new FFI_TYPE` with its properties set, and the struct at an address
  pub new_ffi_type : FfiStruct Buf → Native → Ptr × Native
  pub load_ffi_type : Native → Ptr → Option (FfiStruct Buf)
  -- bindings: the property of `FFI_TYPES`, sizes, codes, and the calls of libffi. The calls get
  -- the cif buffer, and those that fill a buffer give back its new contents
  pub ffi_types : String → Option Ptr
  -- the property `name` of a Buffer that points to an `ffi_type`
  pub ffi_type_name : Ptr → Option String
  pub ffi_arg_size : ℕ
  pub ffi_cif_size : ℕ
  pub ffi_default_abi : Value
  pub ffi_ok : ℕ
  pub ffi_bad_typedef : ℕ
  pub ffi_bad_abi : ℕ
  pub ffi_prep_cif : Buf → ℕ → Ptr → Buf → Value → Native → ℕ × Buf × Native
  pub ffi_prep_cif_var : Buf → ℕ → ℕ → Ptr → Buf → Value → Native → ℕ × Buf × Native
  pub ffi_call : Buf → Ptr → Buf → Buf → Js Native Buf

-- The documented behaviour of ref and ref-struct that the code relies on.
pub record IsLawful (p : Platform) : Type 0 where
  pub pointer_size_pos : 0 < p.pointer_size
  pub length-new_buffer : (n : ℕ) → p.length (p.new_buffer n) ≡ n
  pub length-write_pointer :
      (b : p.Buf) (q : Ptr) (o : ℕ) → p.length (p.write_pointer b q o) ≡ p.length b
  -- within the Buffer a pointer is read back
  pub read-write_self :
      (b : p.Buf) (q : Ptr) (o : ℕ)
      → o + p.pointer_size ≤ p.length b
      → p.read_pointer (p.write_pointer b q o) o ≡ q
  -- a write touches only the bytes of its pointer
  pub read-write_apart :
      (b : p.Buf) (q : Ptr) (o o' : ℕ)
      → (o + p.pointer_size ≤ o') ⊎ (o' + p.pointer_size ≤ o)
      → p.read_pointer (p.write_pointer b q o) o' ≡ p.read_pointer b o'
  -- an object with a size and an indirection is a type already
  pub coerce_type-object :
      (t : ℕ) (w : World p.Native)
      → size_of w t ≢ none
      → indirection_of w t ≢ none
      → p.coerce_type (object t) w ≡ (ok t, w)
  -- coercion ends; an object is coerced to itself or refused, and an absent type is refused
  pub coerce_type-ends : (v : Value) (w : World p.Native) → (p.coerce_type v w).0 ≢ overflow
  pub coerce_type-same :
      (t u : ℕ) (w : World p.Native) → (p.coerce_type (object t) w).0 ≡ ok u → u ≡ t
  pub coerce_type-absent : (u : ℕ) (w : World p.Native) → (p.coerce_type undefined w).0 ≢ ok u
  -- a new struct can be read at its address
  pub load-new_ffi_type :
      (s : FfiStruct p.Buf) (n : p.Native)
      → let (q, n') = p.new_ffi_type s n in p.load_ffi_type n' q ≡ some s
  -- coercion assigns no property of a type and draws no random number; the numbering covers the
  -- types that it creates
  pub types-coerce_type : (v : Value) (w : World p.Native) → (p.coerce_type v w).1.types ≡ w.types
  pub ids-coerce_type : (v : Value) (w : World p.Native) → (p.coerce_type v w).1.ffi_id ≡ w.ffi_id
  pub random-coerce_type :
      (v : Value) (w : World p.Native) → (p.coerce_type v w).1.random ≡ w.random
  -- the table of the bindings has an entry for pointers (src/ffi.cc, line 152)
  pub pointer_listed : p.ffi_types "pointer" ≢ none
