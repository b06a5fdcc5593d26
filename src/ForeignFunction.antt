-- ===== src/ForeignFunction.antt =====
-- lib/_foreign_function.js and lib/foreign_function.js: the proxy for a C function, and its calls.
pub mod Marshal
pub mod Sync
pub mod Blame
pub mod Async
pub mod Ready
pub mod Returns
pub mod Fuel
use node_ffi.Base.{
  ℕ, zero, suc, ◌+◌, ◌*◌, ◌≡◌, Bool, true, false, Option, none, some, List, [], ◌∷◌, map, length,
  leb, ltb, ◌==◌, if◌then◌else◌,
}
use node_ffi.Value.{
  Ptr, Value, undefined, buffer, func, object, truthy, Message, Message.expected_buffer,
  Message.expected_return_type, Message.assertion, Message.argument_count,
  Message.expected_callback, Message.setting_argument, Kind.assertion_error, Kind.type_error,
  Failure, failure, Result, ok, thrown, overflow,
}
use node_ffi.World.{World, Js, pure, raise, gets, assert, size_of, ◌>>=◌, ◌>>◌}
use node_ffi.Platform.{Platform}
use node_ffi.Cif.{CifBuffer, cif, require_array}
use node_ffi.Cif.ArgTypes.{each}

-- What the closure `proxy` holds on to.
pub record Proxy (B : Type 0) : Type 0 where
  pub cif : CifBuffer B
  pub func_ptr : Ptr
  pub return_type : ℕ
  pub arg_types : List ℕ
  pub result_size : ℕ

-- `catch (e) { e.message = ...; throw e }`
abbrev pub rethrow_as : {N A : Type 0} → (Failure → Failure) → Js N A → Js N A
rethrow_as f m w =
    let (r, w') = m w in
    elim r [ ok a ↦ (ok a, w') | thrown e ↦ (thrown (f e), w') | overflow ↦ (overflow, w') ]

-- `'error setting argument ' + i + ' - ' + e.message`
abbrev pub at_argument : ℕ → Failure → Failure
at_argument i e = record e { message = setting_argument i e.message }

-- `arguments[i]`, taken from the front
abbrev pub first_arg : List Value → Value
first_arg [] = undefined
first_arg (v ∷ vs) = v

abbrev pub other_args : List Value → List Value
other_args [] = []
other_args (v ∷ vs) = vs

-- `arguments[argc - 1]`
abbrev pub last_arg : List Value → Value
last_arg [] = undefined
last_arg (v ∷ []) = v
last_arg (v ∷ w ∷ vs) = last_arg (w ∷ vs)

-- What runs later: the callback for an error that was caught, or the work on the thread pool and,
-- after it, the callback.
pub data Task (B : Type 0) : Type 0 where
  next_tick : (callback : ℕ) → Failure → Task B
  work : (callback : ℕ) → Proxy B → (result args : B) → Task B

-- A call of the user's callback: `callback(err)` or `callback(null, value)`.
pub data Invocation : Type 0 where
  with_error : (callback : ℕ) → Failure → Invocation
  with_value : (callback : ℕ) → Value → Invocation

module _ (p : Platform) where
  open p use {Buf, Native}

  -- `returnType.size >= ref.sizeof.long ? returnType.size : FFI_ARG_SIZE`
  abbrev pub result_size_for : Option ℕ → ℕ
  result_size_for none = p.ffi_arg_size
  result_size_for (some n) = if leb p.long_size n then n else p.ffi_arg_size

  -- `ForeignFunction(cif, funcPtr, returnType, argTypes)` of _foreign_function.js
  unfoldable pub make_proxy : CifBuffer Buf → Ptr → ℕ → List ℕ → Js Native (Proxy Buf)
  make_proxy c func_ptr return_type arg_types = do
    size ← gets (λ w. size_of w return_type)
    let result_size = result_size_for size
    assert (ltb 0 result_size) assertion
    pure (record {
      cif = c;
      func_ptr = func_ptr;
      return_type = return_type;
      arg_types = arg_types;
      result_size = result_size;
    })

  -- The loop that writes the arguments to storage.
  unfoldable pub marshal : List ℕ → List Value → ℕ → Buf → Js Native Buf
  marshal [] args i b = pure b
  marshal (t ∷ types) args i b = do
    q ← rethrow_as (at_argument i) (p.alloc t (first_arg args))
    marshal types (other_args args) (i + 1) (p.write_pointer b q (i * p.pointer_size))

  abbrev pub new_args : Proxy Buf → Buf
  new_args f = p.new_buffer (length f.arg_types * p.pointer_size)

  -- `bindings.ffi_call(...)`, then `result.deref()` at the return type
  unfoldable pub invoke : Proxy Buf → Buf → Buf → Js Native Value
  invoke f result args = do
    result ← p.ffi_call f.cif.buffer f.func_ptr result args
    p.deref result f.return_type

  -- A call of the proxy.
  unfoldable pub call : Proxy Buf → List Value → Js Native Value
  call f args =
      let num_args = length f.arg_types in
      if length args == num_args
      then (do
        args_list ← marshal f.arg_types args 0 (new_args f)
        invoke f (p.new_buffer f.result_size) args_list)
      else raise (failure type_error (argument_count num_args (length args)))

  -- `typeof callback !== 'function'`
  abbrev pub as_callback : Value → Option ℕ
  as_callback (func k) = some k
  as_callback _ = none

  -- The loop of `proxy.async` has ended: an error goes to the callback, later.
  unfoldable pub to_task :
      Proxy Buf → (callback : ℕ) → Result Buf → World Native → Result (Task Buf) × World Native
  to_task f callback (ok args_list) w =
      (ok (work callback f (p.new_buffer f.result_size) args_list), w)
  to_task f callback (thrown e) w = (ok (next_tick callback e), w)
  to_task f callback overflow w = (overflow, w)

  unfoldable pub schedule : Proxy Buf → List Value → ℕ → Js Native (Task Buf)
  schedule f args callback w =
      let (r, w') = marshal f.arg_types args 0 (new_args f) w in to_task f callback r w'

  unfoldable pub with_callback : Proxy Buf → List Value → Option ℕ → Js Native (Task Buf)
  with_callback f args none = raise (failure type_error (expected_callback (length f.arg_types)))
  with_callback f args (some k) = schedule f args k

  -- `proxy.async(...)`, up to its return
  unfoldable pub call_async : Proxy Buf → List Value → Js Native (Task Buf)
  call_async f args =
      let num_args = length f.arg_types in
      if length args == num_args + 1
      then with_callback f args (as_callback (last_arg args))
      else raise (failure type_error (argument_count (num_args + 1) (length args)))

  -- The function has returned on the thread pool: the call of the user's callback.
  unfoldable pub after_call :
      Proxy Buf → (callback : ℕ) → Result Buf → World Native → Result Invocation × World Native
  after_call f k (ok filled) w = (p.deref filled f.return_type >>= λ v. pure (with_value k v)) w
  after_call f k (thrown e) w = (ok (with_error k e), w)
  after_call f k overflow w = (overflow, w)

  -- The event loop takes the task.
  unfoldable pub run_task : Task Buf → Js Native Invocation
  unfolding after_call
  run_task (next_tick k e) w = (ok (with_error k e), w)
  run_task (work k f result args) w =
      let (r, w') = p.ffi_call f.cif.buffer f.func_ptr result args w in after_call f k r w'

  abbrev pub require_buffer : Value → Js Native Ptr
  require_buffer (buffer q) = pure q
  require_buffer _ = raise (failure assertion_error expected_buffer)

  -- From the normalised types on: the cif and the proxy.
  unfoldable pub proxy_for : (fuel : ℕ) → Ptr → ℕ → List ℕ → Value → Js Native (Proxy Buf)
  proxy_for fuel q rtn args abi = do
    c ← cif p fuel (object rtn) (some (map object args)) abi
    make_proxy c q rtn args

  -- `ForeignFunction(funcPtr, returnType, argTypes, abi)` of foreign_function.js
  unfoldable pub foreign_function :
      (fuel : ℕ) → Value → Value → Option (List Value) → Value → Js Native (Proxy Buf)
  foreign_function fuel func_ptr return_type arg_types abi = do
    q ← require_buffer func_ptr
    assert (truthy return_type) expected_return_type
    list ← require_array arg_types
    rtn ← p.coerce_type return_type
    args ← each p.coerce_type list
    proxy_for fuel q rtn args abi
