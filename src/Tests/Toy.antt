-- ===== src/Tests/Toy.antt =====
-- A platform for tests: a Buffer is its length and the pointers in it, by offset; the state of the
-- process holds `ffi_type` structs and numbers at addresses, and closures. Its one function adds numbers.
use node_ffi.Base.{
  ap, ℕ, ◌+◌, ◌≤◌, String, ◌≡◌, ◌≢◌, ◌⊎◌, refl, Option, none, some, str_eq, arith, ◌==◌, leb,
  if◌then◌else◌,
}
use node_ffi.Value.{
  Ptr, Value, object, number, ok, thrown, overflow, failure, Kind.type_error, Message.text,
}
use node_ffi.World.{World, Js}
use node_ffi.CallbackInfo.{Memory, Libffi}
use node_ffi.CallbackInfo.Called.{Handed, Holds}
use node_ffi.Platform.{FfiStruct, Platform, IsLawful}

-- `memory` is the address that a Buffer of C's memory stands for.
pub record ToyBuf : Type 0 where
  pub size : ℕ
  pub at : ℕ → Ptr
  pub memory : Option Ptr

abbrev pub toy_write : ToyBuf → Ptr → ℕ → ToyBuf
toy_write b q o = record b { at = λ i. if i == o then q else b.at i }

pub record Process : Type 0 where
  pub next : Ptr
  pub structs : Ptr → Option (FfiStruct ToyBuf)
  pub cells : Ptr → ℕ
  pub closures : Memory ℕ Handed

-- A number is put at a fresh address; anything else is refused.
abbrev pub toy_alloc : ℕ → Value → Js Process Ptr
toy_alloc t (number n) w =
    let q = w.native.next in
    let cells = λ (i : Ptr). if i == q then n else w.native.cells i in
    (ok q, record w { native = record (w.native) { next = q + 8; cells = cells } })
toy_alloc t v w = (thrown (failure type_error (text "expected a number")), w)

abbrev pub toy_new_ffi_type : FfiStruct ToyBuf → Process → Ptr × Process
toy_new_ffi_type s n =
    let structs = λ (i : Ptr). if i == n.next then some s else n.structs i in
    (n.next, record n { next = n.next + 24; structs = structs })

abbrev pub toy_coerce_type : Value → Js Process ℕ
toy_coerce_type (object t) w = (ok t, w)
toy_coerce_type v w = (thrown (failure type_error (text "could not determine a type")), w)

abbrev pub toy_ffi_types : String → Option Ptr
toy_ffi_types s = if str_eq s "int32" then some 3 else if str_eq s "pointer" then some 4 else none

abbrev pub toy_ffi_type_name : Ptr → Option String
toy_ffi_type_name q = if q == 3 then some "int32" else if q == 4 then some "pointer" else none

abbrev pub toy_deref : ToyBuf → ℕ → Js Process Value
toy_deref b t w = (ok (number (elim b.memory [ none ↦ b.at 0 | some q ↦ w.native.cells q ])), w)

-- The ABIs are 0 and 1.
abbrev pub toy_status : Value → ℕ
toy_status (number n) = if leb n 1 then 0 else 2
toy_status v = 2

-- The sum of two arguments.
abbrev pub toy_call : ToyBuf → Ptr → ToyBuf → ToyBuf → Js Process ToyBuf
toy_call cif f result args w =
    let sum = w.native.cells (args.at 0) + w.native.cells (args.at 8) in
    (ok (toy_write result sum 0), w)

abbrev pub toy : Platform
toy = record {
  Buf = ToyBuf;
  Native = Process;
  new_buffer = λ n. record { size = n; at = λ i. 0; memory = none };
  length = λ b. b.size;
  write_pointer = toy_write;
  read_pointer = λ b o. b.at o;
  pointer_size = 8;
  long_size = 8;
  coerce_type = toy_coerce_type;
  alloc = toy_alloc;
  deref = toy_deref;
  new_ffi_type = toy_new_ffi_type;
  load_ffi_type = λ n q. n.structs q;
  ffi_types = toy_ffi_types;
  ffi_type_name = toy_ffi_type_name;
  ffi_arg_size = 8;
  ffi_cif_size = 32;
  ffi_default_abi = number 1;
  ffi_ok = 0;
  ffi_bad_typedef = 1;
  ffi_bad_abi = 2;
  ffi_prep_cif = λ b n rtype types abi native. (toy_status abi, toy_write b rtype 0, native);
  ffi_prep_cif_var =
      λ b fixed n rtype types abi native. (toy_status abi, toy_write b rtype 0, native);
  ffi_call = toy_call;
}

read-toy_write_apart :
    (b : ToyBuf) (q : Ptr) (o o' : ℕ)
    → (o + 8 ≤ o') ⊎ (o' + 8 ≤ o)
    → (toy_write b q o).at o' ≡ b.at o'
read-toy_write_apart b q o o' h = ground arith

toy_coerce_type-ends : (v : Value) (w : World Process) → (toy_coerce_type v w).0 ≢ overflow
toy_coerce_type-ends (object t) w = λ e. cc e
toy_coerce_type-ends _ w = λ e. cc e

-- Coercion leaves the state alone.
same-toy_coerce_type : (v : Value) (w : World Process) → (toy_coerce_type v w).1 ≡ w
same-toy_coerce_type (object t) w = refl
same-toy_coerce_type _ w = refl

pub toy-IsLawful : IsLawful toy
toy-IsLawful = record {
  pointer_size_pos = omega arith;
  length-new_buffer = λ n. refl;
  length-write_pointer = λ b q o. refl;
  read-write_self = λ b q o h. ground arith;
  read-write_apart = read-toy_write_apart;
  coerce_type-object = λ t w h k. refl;
  coerce_type-ends = toy_coerce_type-ends;
  coerce_type-same = λ t u w e. cc e;
  coerce_type-absent = λ u w e. cc e;
  load-new_ffi_type = λ s n. ground arith;
  types-coerce_type = λ v w. ap (λ (x : World Process). x.types) (same-toy_coerce_type v w);
  ids-coerce_type = λ v w. ap (λ (x : World Process). x.ffi_id) (same-toy_coerce_type v w);
  random-coerce_type = λ v w. ap (λ (x : World Process). x.random) (same-toy_coerce_type v w);
  pointer_listed = λ e. cc e;
}

-- Closures in blocks of sixteen bytes, with their code 1000 bytes behind them.
abbrev pub toy_libffi : Libffi ℕ ToyBuf
toy_libffi = record {
  closure_alloc = λ n. (some (n, n + 1000), n + 16);
  prep_closure_loc = λ a cif code n. (0, n);
  closure_free = λ a n. n;
  ffi_ok = 0;
}

abbrev pub toy_holds : Holds Process ℕ
toy_holds = record {
  memory = λ n. n.closures;
  with_memory = λ m n. record n { closures = m };
  memory-with = λ m n. refl;
}

abbrev pub no_closures : Memory ℕ Handed
no_closures = record { infos = λ a. none; callbacks = 0; native = 2000 }
