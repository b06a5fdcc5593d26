-- ===== src/FfiType.antt =====
-- lib/type.js: the `ffi_type *` of a type.
pub mod Body
pub mod Frame
pub mod Open
pub mod Lookup
pub mod Again
pub mod Slots
pub mod Store
pub mod Places
pub mod Writing
pub mod Layout
pub mod Fuel
pub mod Named
use node_ffi.Base.{
  ℕ, zero, suc, ◌+◌, ◌*◌, String, Bool, false, Option, none, some, or_else, List, [], ◌∷◌, str_eq,
  ltb, ◌==◌, if◌then◌else◌,
}
use node_ffi.Value.{
  Ptr, null_ptr, Value, Value.object, to_value, Message.invalid_type, Message.no_ffi_type,
  Kind.assertion_error, failure, ok,
}
use node_ffi.World.{
  World, Js, pure, raise, gets, exhausted, assert, ◌>>=◌, ◌>>◌, find_own, chain, name_of,
  indirection_of, elem_of, fixed_length_of, fields_of, ffi_type_of, set_ffi_type,
}
use node_ffi.Platform.{Platform}

-- `n >= 1`, which is false at undefined
abbrev pub at_least_one : Option ℕ → Bool
at_least_one none = false
at_least_one (some n) = ltb 0 n

abbrev pub is_one : Option ℕ → Bool
is_one none = false
is_one (some n) = n == 1

abbrev pub or_zero : Option ℕ → ℕ
or_zero none = 0
or_zero (some n) = n

-- The property key that an undefined name gives.
abbrev pub as_key : Option String → String
as_key none = "undefined"
as_key (some s) = s

-- `FFI_TYPE_STRUCT` of libffi
abbrev pub struct_code : ℕ
struct_code = 13

-- The first loop over the fields: `numElements`.
unfoldable pub count_elements : {N : Type 0} → World N → ℕ → List (String × ℕ) → ℕ
count_elements w n [] = n
count_elements w n ((_, f) ∷ fs) =
    let len = or_zero (fixed_length_of w f) in
    count_elements w (if ltb 0 len then n + len else n + 1) fs

module _ (p : Platform) where
  open p use {Buf, Native}

  -- `rtn` before any struct is looked at: lines 43 to 54
  unfoldable pub shortcut : World Native → ℕ → Option Ptr
  shortcut w t =
      let rtn = if is_one (indirection_of w t) then ffi_type_of w t else p.ffi_types "pointer" in
      or_else rtn (elim (elem_of w t) [ none ↦ none | some e ↦ p.ffi_types "pointer" ])

  -- `elements.writePointer(ffi_type_ptr, (index++) * ref.sizeof.pointer)`, so many times
  unfoldable pub write_run : ℕ → Ptr → Buf → ℕ → Buf × ℕ
  write_run zero q b i = (b, i)
  write_run (suc k) q b i = write_run k q (p.write_pointer b q (i * p.pointer_size)) (i + 1)

  -- The body of the second loop for a fixed-length "ref-array" field of type `f`, whose element
  -- takes as many places as it is long; `rec` is the recursive `Type()`.
  unfoldable pub write_array : (Value → Js Native Ptr) → ℕ → Buf → ℕ → Js Native (Buf × ℕ)
  write_array rec f b i = do
    el ← gets (λ w. elem_of w f)
    q ← rec (to_value el)
    len ← gets (λ w. or_zero (fixed_length_of w f))
    pure (write_run len q b i)

  -- The same for any other field.
  unfoldable pub write_single : (Value → Js Native Ptr) → ℕ → Buf → ℕ → Js Native (Buf × ℕ)
  write_single rec f b i = do
    q ← rec (object f)
    pure (p.write_pointer b q (i * p.pointer_size), i + 1)

  unfoldable pub write_field : (Value → Js Native Ptr) → ℕ → Buf → ℕ → Js Native (Buf × ℕ)
  unfolding write_array write_single
  write_field rec f b i = do
    len ← gets (λ w. or_zero (fixed_length_of w f))
    if ltb 0 len then write_array rec f b i else write_single rec f b i

  unfoldable pub write_fields :
      (Value → Js Native Ptr) → List (String × ℕ) → Buf → ℕ → Js Native (Buf × ℕ)
  write_fields rec [] b i = pure (b, i)
  write_fields rec ((_, f) ∷ fs) b i = do
    (b', i') ← write_field rec f b i
    write_fields rec fs b' i'

  -- `ffi_type.ref()` of a new `FFI_TYPE` with the given elements
  unfoldable pub new_struct : Buf → Js Native Ptr
  new_struct elements w =
      let (q, n) =
        p.new_ffi_type (record { size = 0; alignment = 0; type = struct_code; elements = elements })
          w.native in
      (ok q, record w { native = n })

  -- `type.ffi_type = rtn`
  unfoldable pub cache : ℕ → Option Ptr → Js Native (Unit {0})
  cache t r w = (ok tt, set_ffi_type t r w)

  -- A "ref-struct" type: lines 56 to 109.
  unfoldable pub struct_type : (Value → Js Native Ptr) → ℕ → List (String × ℕ) → Js Native Ptr
  struct_type rec t fs = do
    num_elements ← gets (λ w. count_elements w 0 fs)
    (elements, index) ← write_fields rec fs (p.new_buffer (p.pointer_size * (num_elements + 1))) 0
    q ← new_struct (p.write_pointer elements null_ptr (index * p.pointer_size))
    cache t (some q)
    pure q

  -- `bindings.FFI_TYPES[cur.name]`, for an object and its prototypes
  abbrev pub by_name : ℕ → List ℕ → World Native → Option Ptr
  by_name cur protos w = p.ffi_types (as_key (find_own (λ o. (w.types o).name) (cur ∷ protos)))

  -- The `while` loop over a type and its prototypes.
  unfoldable pub find_named : List ℕ → World Native → Option Ptr × World Native
  find_named [] w = (none, w)
  find_named (cur ∷ protos) w =
      let w' = set_ffi_type cur (by_name cur protos w) w in
      let rest = find_named protos w' in
      elim (by_name cur protos w) [ some q ↦ (some q, w') | none ↦ rest ]

  -- Types of another copy of ref, by name: lines 111 to 123.
  unfoldable pub named_type : ℕ → Js Native (Option Ptr)
  named_type t w =
      let name = name_of w t in
      elim name [
        | none ↦ (ok none, w)
        | some n ↦
            if str_eq n ""
            then (ok none, w)
            else if str_eq n "CString"
            then (ok (p.ffi_types "pointer"), set_ffi_type t (p.ffi_types "pointer") w)
            else (let (r, w') = find_named (chain w.types t) w in (ok r, w'))
      ]

  -- `assert(rtn, ...)` and `return rtn`
  unfoldable pub require_ffi_type : ℕ → Option Ptr → Js Native Ptr
  require_ffi_type t none = raise (failure assertion_error (no_ffi_type t))
  require_ffi_type t (some q) = pure q

  -- What is done from `rtn` on: lines 56 to 127.
  unfoldable pub complete :
      (Value → Js Native Ptr) → ℕ → Option Ptr → Option (List (String × ℕ)) → Js Native Ptr
  complete rec t (some q) fields = pure q
  complete rec t none (some fs) = struct_type rec t fs
  complete rec t none none = do found ← named_type t; require_ffi_type t found

  -- The body of `Type()` for a coerced type.
  unfoldable pub type_body : (Value → Js Native Ptr) → ℕ → Js Native Ptr
  type_body rec t = do
    indirection ← gets (λ w. indirection_of w t)
    assert (at_least_one indirection) (invalid_type t)
    rtn ← gets (λ w. shortcut w t)
    fields ← gets (λ w. fields_of w t)
    complete rec t rtn fields

  -- `Type(type)`. The recursion goes down the fields of structs, and each call takes fuel.
  unfoldable pub ffi_type : ℕ → Value → Js Native Ptr
  ffi_type zero v = exhausted
  ffi_type (suc n) v = do t ← p.coerce_type v; type_body (ffi_type n) t
