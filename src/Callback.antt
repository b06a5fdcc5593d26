-- ===== src/Callback.antt =====
-- lib/callback.js: C function pointers for JavaScript functions; and what src/callback_info.cc does
-- when C calls one.
pub mod Served
pub mod Bound
pub mod Errors
use node_ffi.Base.{
  ℕ, ◌+◌, ◌*◌, Bool, true, false, String, Option, none, some, List, [], ◌∷◌, map, length, not,
  str_eq, if◌then◌else◌,
}
use node_ffi.Value.{
  Ptr, Value, undefined, Value.string, func, object, truthy, Failure, failure, Result, ok, thrown,
  overflow, Kind.assertion_error, Kind.plain_error, Message.expected_return_type,
  Message.expected_function, Message.setting_return, Message.text,
}
use node_ffi.World.{World, Js, pure, raise, gets, assert, size_of, ◌>>=◌, ◌>>◌}
use node_ffi.Platform.{Platform}
use node_ffi.Cif.{CifBuffer, cif, require_array}
use node_ffi.Cif.ArgTypes.{each}
use node_ffi.ForeignFunction.{rethrow_as}

-- What the closure that is handed to the addon holds on to; `func` is the user's function.
pub record Closure : Type 0 where
  pub ret_type : ℕ
  pub arg_types : List ℕ
  pub func : ℕ

-- The Buffer that points to the C function, with its property `_cif`.
pub record Callback (B : Type 0) : Type 0 where
  pub code : Ptr
  pub cif : CifBuffer B

-- What callbacks take from outside: ref's Buffer at an address and `ref.set`, which throws Errors, the
-- user's functions, and the addon's `Callback`. A user's function may throw any value: `thrown_value` is
-- what was thrown, an object where it is an Error.
pub record Closures (p : Platform) : Type 0 where
  pub buffer_at : Ptr → Option ℕ → p.Buf
  pub set : p.Buf → Value → ℕ → Js p.Native p.Buf
  pub apply : ℕ → List Value → Js p.Native Value
  pub thrown_value : Failure → Value
  pub new_closure : p.Buf → Option ℕ → ℕ → Closure → Js p.Native Ptr

-- What the closure returns: nothing, the result being written, or the error that it caught.
pub data Outcome (B : Type 0) : Type 0 where
  filled : B → Outcome B
  failed : Failure → Outcome B

-- What the error callback is called with.
pub data Reason : Type 0 where
  words : String → Reason
  error : Failure → Reason

-- How a call from C ends: the result is written; an error is thrown to the JavaScript code that
-- called C; the error callback has been called, which may throw on a later tick; or the closure
-- returned an error that is taken for none, and what was written is what C finds.
pub data Dispatched (B : Type 0) : Type 0 where
  returned : B → Dispatched B
  threw : Reason → Dispatched B
  reported : Option Failure → Dispatched B
  ignored : Dispatched B

-- `'error setting return value - ' + e.message`
abbrev pub at_return : Failure → Failure
at_return e = record e { message = setting_return e.message }

-- `if (typeof err === 'string') throw new Error(err) else throw err`
abbrev pub to_throw : Value → Failure → Failure
to_throw (string s) e = failure plain_error (text s)
to_throw _ e = e

-- `errorReportCallback(err)`: what it will throw, where a `Failure` stands for the value of `value_of`.
unfoldable pub error_report_callback : (value_of : Failure → Value) → Reason → Option Failure
error_report_callback value_of (words s) =
    if truthy (string s) then some (failure plain_error (text s)) else none
error_report_callback value_of (error e) =
    if truthy (value_of e) then some (to_throw (value_of e) e) else none

-- `e->IsUndefined()`
abbrev pub is_undefined : Value → Bool
is_undefined undefined = true
is_undefined _ = false

-- `if (typeof abi === 'function') { func = abi; abi = void(0) }`
abbrev pub shift_args : (abi f : Value) → Value × Value
shift_args (func k) f = (undefined, func k)
shift_args abi f = (abi, f)

-- `assert.equal(typeof func, 'function', ...)`
unfoldable pub require_function : {N : Type 0} → Value → Js N ℕ
require_function (func k) = pure k
require_function _ = raise (failure assertion_error expected_function)

-- The message of src/callback_info.cc, line 55.
abbrev pub collected : String
collected = "ffi fatal: callback has been garbage collected!"

module _ (p : Platform) (c : Closures p) where
  open p use {Buf, Native}

  -- The loop that reads the arguments.
  unfoldable pub read_args : List ℕ → ℕ → Buf → Js Native (List Value)
  read_args [] i params = pure []
  read_args (t ∷ types) i params = do
    size ← gets (λ w. size_of w t)
    v ← p.deref (c.buffer_at (p.read_pointer params (i * p.pointer_size)) size) t
    vs ← read_args types (i + 1) params
    pure (v ∷ vs)

  -- The body of the outer `try`.
  unfoldable pub serve : Closure → Buf → Buf → Js Native Buf
  serve cl retval params = do
    args ← read_args cl.arg_types 0 params
    result ← c.apply cl.func args
    rethrow_as at_return (c.set retval result cl.ret_type)

  -- `catch (e) { return e }`
  unfoldable pub to_outcome : Result Buf → World Native → Result (Outcome Buf) × World Native
  to_outcome (ok b) w = (ok (filled b), w)
  to_outcome (thrown e) w = (ok (failed e), w)
  to_outcome overflow w = (overflow, w)

  -- The closure, `function (retval, params)`.
  unfoldable pub closure_call : Closure → Buf → Buf → Js Native (Outcome Buf)
  closure_call cl retval params w = let (r, w') = serve cl retval params w in to_outcome r w'

  -- The end of `DispatchToV8`, for what the closure returned.
  unfoldable pub hand_over : (dispatched : Bool) → Outcome Buf → Dispatched Buf
  hand_over dispatched (filled b) = returned b
  hand_over dispatched (failed e) =
      if is_undefined (c.thrown_value e)
      then ignored
      else if dispatched
      then reported (error_report_callback c.thrown_value (error e))
      else threw (error e)

  -- `CallbackInfo::DispatchToV8`, where `none` is a closure that was garbage collected.
  unfoldable pub dispatch_to_v8 :
      Option Closure → Buf → Buf → (dispatched : Bool) → Js Native (Dispatched Buf)
  dispatch_to_v8 none retval params true =
      pure (reported (error_report_callback c.thrown_value (words collected)))
  dispatch_to_v8 none retval params false = pure (threw (words collected))
  dispatch_to_v8 (some cl) retval params dispatched = do
    e ← closure_call cl retval params
    pure (hand_over dispatched e)

  -- From the normalised types on.
  unfoldable pub callback_for : (fuel : ℕ) → ℕ → List ℕ → Value → ℕ → Js Native (Callback Buf)
  callback_for fuel rtn args abi k = do
    b ← cif p fuel (object rtn) (some (map object args)) abi
    size ← gets (λ w. size_of w rtn)
    code ←
        c.new_closure b.buffer size (length args)
          (record { ret_type = rtn; arg_types = args; func = k })
    pure (record { code = code; cif = b })

  unfoldable pub checked_callback :
      (fuel : ℕ) → Value → Option (List Value) → Value → Value → Js Native (Callback Buf)
  checked_callback fuel ret_type arg_types abi f = do
    assert (truthy ret_type) expected_return_type
    list ← require_array arg_types
    k ← require_function f
    rtn ← p.coerce_type ret_type
    args ← each p.coerce_type list
    callback_for fuel rtn args abi k

  -- `Callback(retType, argTypes, abi, func)`
  unfoldable pub callback :
      (fuel : ℕ) → Value → Option (List Value) → (abi f : Value) → Js Native (Callback Buf)
  callback fuel ret_type arg_types abi f =
      let (abi', f') = shift_args abi f in checked_callback fuel ret_type arg_types abi' f'
