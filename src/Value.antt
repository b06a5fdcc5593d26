-- ===== src/Value.antt =====
-- JavaScript values, C pointers, and what a call can end with.
use node_ffi.Base.{ℕ, String, Bool, true, false, Option, none, some, List, not, str_eq, ◌==◌}

-- A C address, as a Buffer that points to it; 0 is NULL. A Buffer is truthy at every address.
abbrev pub Ptr : Type 0
Ptr = ℕ

abbrev pub null_ptr : Ptr
null_ptr = 0

-- `func` and `object` carry the identity of the function or object.
pub data Value : Type 0 where
  undefined : Value
  null : Value
  boolean : Bool → Value
  number : ℕ → Value
  string : String → Value
  buffer : Ptr → Value
  func : ℕ → Value
  object : ℕ → Value

-- `!!v`
abbrev pub truthy : Value → Bool
truthy undefined = false
truthy null = false
truthy (boolean b) = b
truthy (number n) = not (n == 0)
truthy (string s) = not (str_eq s "")
truthy (buffer p) = true
truthy (func f) = true
truthy (object o) = true

-- A property that holds an object, or is not there.
abbrev pub to_value : Option ℕ → Value
to_value none = undefined
to_value (some o) = object o

-- The texts of the errors, each template with the values that the source puts into it.
-- `expected_return_type` and `expected_arg_types` leave out which argument of the function was expected
-- to be that.
pub data Message : Type 0 where
  invalid_type : ℕ → Message
  no_ffi_type : ℕ → Message
  expected_fixed_args : Message
  expected_return_type : Message
  expected_arg_types : Message
  expected_buffer : Message
  expected_function : Message
  assertion : Message
  bad_typedef : (function : String) → Message
  bad_abi : (function : String) → Message
  prep_cif_failed : (function : String) → ℕ → Message
  argument_count : (expected got : ℕ) → Message
  expected_callback : (position : ℕ) → Message
  setting_argument : (index : ℕ) → Message → Message
  setting_return : Message → Message
  unknown_callback : Value → Message
  dynamic_linking : List ℕ → Message
  symbol_retrieval : Option (List ℕ) → Message
  null_function : List ℕ → String → Message
  unsupported_long : ℕ → Message
  text : String → Message

pub data Kind : Type 0 where
  assertion_error type_error plain_error : Kind

-- A thrown `Error`, with the properties that the source sets on it.
pub record Failure : Type 0 where
  pub kind : Kind
  pub message : Message
  pub code : Option String
  pub errno : Option ℕ

abbrev pub failure : Kind → Message → Failure
failure k m = record { kind = k; message = m; code = none; errno = none }

-- `overflow` stands for a recursion that did not end within the fuel: the stack overflows.
pub data Result (A : Type 0) : Type 0 where
  ok : A → Result A
  thrown : Failure → Result A
  overflow : Result A
